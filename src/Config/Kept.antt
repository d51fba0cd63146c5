-- ===== src/Config/Kept.antt =====
-- What all tags keep holds after every line and every file (src/AppConfig.cpp).
use relb.Prelude.{
  ℕ, suc, ◌≡◌, Bool, Option, none, some, skip_while, word, after_word, is_blank, List, [], ◌∷◌,
  if_cases, length, take, drop, starts, codes,
}
use relb.Config.State.{AppConfig, Network, Calendar, set_default_values}
use relb.Config.Endpoint.{ends_host, bind_line, alsobind_line, admin_line}
use relb.Config.Servers.{add_server, server_named, server_line, retry_line, threads_line}
use relb.Config.Rules.{filter_line}
use relb.Config.Tasks.{task_line}
use relb.Config.Lines.{
  is_comment, on_tag, binds, others, process_config_line, process_lines, load_opened, load_file,
}
use mathlib.Core.Path.{subst}

abbrev pub IfSome : {A : Type 0} → (A → Type 0) → Option A → Type 0
IfSome P none = Unit {0}
IfSome P (some c) = P c

module _ {A B : Type 0} (P : A → Type 0) (Q : B → Type 0) where
  IfSome-then :
      (o : Option A) (f : A → Option B)
      → IfSome P o
      → ((a : A) → P a → IfSome Q (f a))
      → IfSome Q (elim o [ none ↦ none | some c ↦ f c ])
  IfSome-then none f v h = tt
  IfSome-then (some c) f v h = h c v

pub IfSome-elim :
    {A : Type 0} (P : A → Type 0) (o : Option A) (a : A) → o ≡ some a → IfSome P o → P a
IfSome-elim P none a e v = cc
IfSome-elim P (some b) a e v = subst P {x = b} {y = a} (cc e) v

-- A property of a configuration that each tag keeps.
pub record IsKept (n : Network) (P : AppConfig → Type 0) : Type 0 where
  pub bind : (text : List ℕ) (c : AppConfig) → P c → P (bind_line n text c)
  pub alsobind : (text : List ℕ) (c : AppConfig) → P c → P (alsobind_line n text c)
  pub server : (name numbers : List ℕ) (c : AppConfig) → P c → P (add_server n name numbers c)
  pub retry : (text : List ℕ) (c : AppConfig) → P c → P (retry_line text c)
  pub filter : (text : List ℕ) (c : AppConfig) → P c → P (filter_line n text c)
  pub admin : (text : List ℕ) (c : AppConfig) → P c → P (admin_line n text c)
  pub task : (k : Calendar) (text : List ℕ) (c : AppConfig) → P c → P (task_line k text c)
  pub threads : (text : List ℕ) (c : AppConfig) → P c → P (threads_line text c)

module _ (n : Network) (P : AppConfig → Type 0) (kept : IsKept n P) where
  on_tag-kept :
      (tag : List ℕ) (handler : List ℕ → AppConfig → AppConfig)
      → ((text : List ℕ) (c : AppConfig) → P c → P (handler text c))
      → (line : List ℕ) (c : AppConfig) → P c
      → P (on_tag tag handler line c)
  on_tag-kept tag handler keeps line c v =
      if_cases P (starts tag line) (keeps (drop (length tag) line) c v) v

  server_named-kept :
      (name text : List ℕ) (c : AppConfig) → P c → IfSome P (server_named n name c text)
  unfolding server_named
  server_named-kept name [] c v = tt
  server_named-kept name (_ ∷ numbers) c v = kept.server name numbers c v

  binds-kept : (k : Calendar) (line : List ℕ) (c : AppConfig) → P c → P (binds n k line c)
  unfolding binds
  binds-kept k line c v =
      if_cases P (starts (codes "alsobind:") line) (kept.alsobind (drop 9 line) c v)
        (on_tag-kept (codes "bind:") (bind_line n) kept.bind line c v)

  others-kept : (k : Calendar) (line : List ℕ) (c : AppConfig) → P c → P (others n k line c)
  unfolding others
  others-kept k line c v = on_tag-kept (codes "conperthread:") threads_line kept.threads line _ (
      on_tag-kept (codes "task:") (task_line k) (kept.task k) line _ (
        on_tag-kept (codes "admin:") (admin_line n) kept.admin line _ (
          on_tag-kept (codes "filter:") (filter_line n) kept.filter line _
            (on_tag-kept (codes "retryserver:") retry_line kept.retry line c v))))

  line-kept :
      (k : Calendar) (line : List ℕ) (c : AppConfig)
      → P c
      → IfSome P (process_config_line n k line c)
  unfolding process_config_line server_line
  line-kept k line c v =
      let bound = binds-kept k line c v in
      let text = skip_while is_blank (drop 7 line) in
      if_cases (IfSome P) (is_comment line) v (
        IfSome-then P P _ _
          (if_cases (IfSome P) (starts (codes "server:") line)
            (server_named-kept (word ends_host text) (after_word ends_host text) (binds n k line c)
              bound)
            bound)
          (λ d w. others-kept k line d w))

  lines-kept :
      (k : ℕ → Calendar) (i : ℕ) (ls : List (List ℕ)) (c : AppConfig)
      → P c
      → IfSome P (process_lines n k i ls c)
  unfolding process_lines
  lines-kept k i [] c v = v
  lines-kept k i (l ∷ ls) c v =
      IfSome-then P P (process_config_line n (k i) l c) _ (line-kept (k i) l c v)
        (λ d w. lines-kept k (suc i) ls d w)

  opened-kept :
      (k : ℕ → Calendar) (c : AppConfig) (file : Option (List (List ℕ)))
      → P c
      → P (set_default_values n c)
      → IfSome (λ (r : AppConfig × Bool). P r.0) (load_opened n k c file)
  unfolding load_opened
  opened-kept k c none v w = w
  opened-kept k c (some lines) v w =
      IfSome-then P (λ r. P r.0) (process_lines n k 0 (take 4000 lines) c) _
        (lines-kept k 0 (take 4000 lines) c v) (λ d h. h)

  -- What the default values have, too, holds once a file is loaded.
  pub load_file-kept :
      (k : ℕ → Calendar) (files : List ℕ → Option (List (List ℕ))) (c : AppConfig)
      → P (set_default_values n c)
      → P (set_default_values n (set_default_values n c))
      → IfSome (λ (r : AppConfig × Bool). P r.0) (load_file n k files c)
  unfolding load_file
  load_file-kept k files c v w = opened-kept k (set_default_values n c) (files c.configfile) v w
