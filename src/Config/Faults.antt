-- ===== src/Config/Faults.antt =====
-- Which lines make `processConfigLine` (src/AppConfig.cpp) read behind the end of the text.
use relb.Prelude.{
  ℕ, suc, Bool, true, false, not, ◌&&◌, ◌||◌, Option, none, some, is_some, Option-cases, List, [],
  ◌∷◌, ◌≡◌, refl, ◌∙◌, starts, drop, take, skip_while, after_word, codes, is_blank, arith,
  Bool-cases, inl, inr,
}
use relb.Config.State.{AppConfig, Network, Calendar, set_default_values}
use relb.Config.Endpoint.{ends_host}
use relb.Config.Servers.{server_line}
use relb.Config.Lines.{
  is_comment, binds, process_config_line, process_lines, load_opened, load_file,
}

abbrev pub any : (ℕ → Bool) → List ℕ → Bool
any test [] = false
any test (c ∷ cs) = test c || any test cs

-- A line with the tag server: and neither a point pair nor a comma behind it.
abbrev pub has_no_port : List ℕ → Bool
has_no_port line =
    not (is_comment line) && (starts (codes "server:") line && not (any ends_host (drop 7 line)))

abbrev pub one_has_no_port : List (List ℕ) → Bool
one_has_no_port [] = false
one_has_no_port (l ∷ ls) = has_no_port l || one_has_no_port ls

after_word-any : (cs : List ℕ) → any ends_host cs ≡ false → after_word ends_host cs ≡ []
after_word-any [] h = refl
after_word-any (c ∷ cs) h = ground (arith, after_word-any cs)

after_word_some :
    (cs : List ℕ)
    → any ends_host cs ≡ true
    → (d : ℕ) × (ds : List ℕ) × (after_word ends_host cs ≡ d ∷ ds)
after_word_some [] h = cc
after_word_some (c ∷ cs) h = elim (Bool-cases (ends_host c)) [
  | inl e ↦ (c, cs, ground (arith, e))
  | inr e ↦
      let (d, ds, p) = after_word_some cs (ground (arith, e, h)) in (d, ds, ground (arith, e, p))
]

any-skip : (cs : List ℕ) → any ends_host (skip_while is_blank cs) ≡ any ends_host cs
any-skip [] = refl
any-skip (c ∷ cs) = ground (arith, any-skip cs)

server_line-fault :
    (n : Network) (cs : List ℕ) (c : AppConfig) → is_some (server_line n cs c) ≡ any ends_host cs
unfolding server_line
server_line-fault n cs c = elim (Bool-cases (any ends_host cs)) [
  | inl e ↦
      let (d, ds, p) = after_word_some (skip_while is_blank cs) (any-skip cs ∙ e) in
      ground (arith, p, e)
  | inr e ↦
      let p = after_word-any (skip_while is_blank cs) (any-skip cs ∙ e) in ground (arith, p, e)
]

line_fault :
    (n : Network) (k : Calendar) (line : List ℕ) (c : AppConfig)
    → is_some (process_config_line n k line c) ≡ not (has_no_port line)
unfolding process_config_line
line_fault n k line c = ground (arith, server_line-fault n (drop 7 line) (binds n k line c))

lines_fault :
    (n : Network) (k : ℕ → Calendar) (i : ℕ) (ls : List (List ℕ)) (c : AppConfig)
    → is_some (process_lines n k i ls c) ≡ not (one_has_no_port ls)
unfolding process_lines
lines_fault n k i [] c = refl
lines_fault n k i (l ∷ ls) c = elim (Option-cases (process_config_line n (k i) l c)) [
  | inl e ↦ ground (arith, e, line_fault n (k i) l c)
  | inr (d, e) ↦ ground (arith, e, line_fault n (k i) l c, lines_fault n k (suc i) ls d)
]

-- The lines that `load_file` reads.
abbrev pub lines_read : Option (List (List ℕ)) → List (List ℕ)
lines_read none = []
lines_read (some lines) = take 4000 lines

opened_fault :
    (n : Network) (k : ℕ → Calendar) (c : AppConfig) (file : Option (List (List ℕ)))
    → is_some (load_opened n k c file) ≡ not (one_has_no_port (lines_read file))
unfolding load_opened
opened_fault n k c none = refl
opened_fault n k c (some lines) = elim (Option-cases (process_lines n k 0 (take 4000 lines) c)) [
  | inl p ↦ ground (arith, p, lines_fault n k 0 (take 4000 lines) c)
  | inr (d, p) ↦ ground (arith, p, lines_fault n k 0 (take 4000 lines) c)
]

-- Loading a file goes wrong, by reading behind the end of a line, exactly if one of the first 4000
-- lines is no comment, has the tag server: and has no comma and no colon behind the tag.
pub load_file-fault :
    (n : Network) (k : ℕ → Calendar) (files : List ℕ → Option (List (List ℕ))) (c : AppConfig)
    → is_some (load_file n k files c) ≡ not (one_has_no_port (lines_read (files c.configfile)))
unfolding load_file
load_file-fault n k files c = opened_fault n k (set_default_values n c) (files c.configfile)
