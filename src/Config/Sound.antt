-- ===== src/Config/Sound.antt =====
-- Each tag keeps a configuration sound (src/AppConfig.cpp).
use relb.Prelude.{
  ℕ, ◌<◌, ◌≡◌, ◌≢◌, refl, Bool, true, false, ◌||◌, Option, some, skip_while, after_word, is_blank,
  is_space, List, [], ◌∷◌, ◌++◌, ◌==◌, if◌then◌else◌, arith, All-snoc, length,
}
use relb.Prelude.Int.{ℤ}
use relb.Address.{IpAddress, same_ip}
use relb.Parse.{atoi}
use relb.Config.State.{AppConfig, Network, Calendar, set_default_values}
use relb.Config.Endpoint.{endpoint, bind_line, alsobind_line, admin_line}
use relb.Config.Servers.{server_of, add_server, retry_line, threads_line}
use relb.Config.Rules.{rule_of, filter_line}
use relb.Config.Tasks.{task_type_of, task_of, task_starting, task_line}
use relb.Config.Lines.{load_file}
use relb.Config.Usable.{
  IsPort, IsAddress, IsServer, IsRule, IsTask, IsPart, IsConfig, endpoint-lt, to_port-lt,
  change_last, or_default-IsNonzero, unless,
}
use relb.Config.Kept.{IsKept, IfSome-elim, load_file-kept}

port_lem : (p : ℕ) → p == 0 ≡ false → p < 65536 → IsPort p
port_lem p e l = (ground arith, l)

neither : (p q : Bool) → p || q ≡ false → (p ≡ false) × (q ≡ false)
neither p q h = (ground arith, ground arith)

length-snoc {ℓ} : {A : Type ℓ} (xs : List A) (x : A) → length (xs ++ x ∷ []) ≢ 0
length-snoc [] x = ground arith
length-snoc (y ∷ xs) x = ground arith

module _ (n : Network) where
  given :
      (b : Bool) {c d : AppConfig}
      → IsConfig n c
      → (b ≡ true → IsConfig n d)
      → IsConfig n (if b then d else c)
  given true v f = f refl
  given false v f = v

  bind_line-IsConfig :
      (text : List ℕ) (c : AppConfig) → IsConfig n c → IsConfig n (bind_line n text c)
  unfolding bind_line
  bind_line-IsConfig text c v =
      let a = endpoint n n.ip_any text in
      unless n (a.src_port == 0) v λ e. record {
        parts = All-snoc (IsPart n) c.bind _ v.parts (record {
          listens = ground arith;
          addresses = (port_lem a.src_port e (endpoint-lt n n.ip_any text), tt);
          servers = tt;
          tasks = tt;
          rules = tt;
        });
        admin = v.admin;
        retry = v.retry;
        threads = v.threads;
      }

  alsobind_line-IsConfig :
      (text : List ℕ) (c : AppConfig) → IsConfig n c → IsConfig n (alsobind_line n text c)
  unfolding alsobind_line
  alsobind_line-IsConfig text c v =
      let a = endpoint n n.ip_any text in
      unless n (a.src_port == 0) v λ e.
        change_last n _ c
          (λ b w. record {
            listens = length-snoc b.address a;
            addresses =
                All-snoc (IsAddress n) b.address a w.addresses
                  (port_lem a.src_port e (endpoint-lt n n.ip_any text));
            servers = w.servers;
            tasks = w.tasks;
            rules = w.rules;
          })
          v

  admin_line-IsConfig :
      (text : List ℕ) (c : AppConfig) → IsConfig n c → IsConfig n (admin_line n text c)
  unfolding admin_line
  admin_line-IsConfig text c v =
      let local : IpAddress = record { a = 127; b = 0; c = 0; d = 1 } in
      let a = endpoint n local text in
      unless n (a.src_port == 0) v λ e. record {
        parts = v.parts;
        admin = port_lem a.src_port e (endpoint-lt n local text);
        retry = v.retry;
        threads = v.threads;
      }

  retry_line-IsConfig :
      (text : List ℕ) (c : AppConfig) → IsConfig n c → IsConfig n (retry_line text c)
  unfolding retry_line
  retry_line-IsConfig text c v = record {
    parts = v.parts;
    admin = v.admin;
    retry = or_default-IsNonzero n (atoi (skip_while is_blank text)) 30 (ground arith);
    threads = v.threads;
  }

  threads_line-IsConfig :
      (text : List ℕ) (c : AppConfig) → IsConfig n c → IsConfig n (threads_line text c)
  unfolding threads_line
  threads_line-IsConfig text c v = record {
    parts = v.parts;
    admin = v.admin;
    retry = v.retry;
    threads = or_default-IsNonzero n (atoi (skip_while is_blank text)) 16 (ground arith);
  }

  filter_line-IsConfig :
      (text : List ℕ) (c : AppConfig) → IsConfig n c → IsConfig n (filter_line n text c)
  unfolding filter_line
  filter_line-IsConfig text c v =
      let f = rule_of n text in
      unless n (same_ip f.src_ip n.ip_none || same_ip f.dst_ip n.ip_none) v λ e.
        change_last n _ c
          (λ b w. record {
            listens = w.listens;
            addresses = w.addresses;
            servers = w.servers;
            tasks = w.tasks;
            rules = All-snoc (IsRule n) b.filter f w.rules (neither _ _ e);
          })
          v

  add_server-IsConfig :
      (name numbers : List ℕ) (c : AppConfig)
      → IsConfig n c
      → IsConfig n (add_server n name numbers c)
  unfolding add_server server_of
  add_server-IsConfig name numbers c v =
      let s = server_of n name numbers in
      unless n (same_ip s.dst_ip n.ip_none || s.dst_port == 0) v λ e.
        change_last n _ c
          (λ b w. record {
            listens = w.listens;
            addresses = w.addresses;
            servers =
                let (known, port) = neither _ _ e in
                All-snoc (IsServer n) b.dst s w.servers
                  (known, port_lem s.dst_port port (to_port-lt n (atoi numbers)));
            tasks = w.tasks;
            rules = w.rules;
          })
          v

  task_starting-IsTask :
      (k : Calendar) (type : ℕ) (interval : ℤ) (start : List ℕ)
      → (task_starting k type interval start).1 ≡ true
      → IsTask n (task_starting k type interval start).0
  unfolding task_starting
  task_starting-IsTask k type interval [] h = h
  task_starting-IsTask k type interval (c ∷ cs) h = refl

  task_line-IsConfig :
      (k : Calendar) (text : List ℕ) (c : AppConfig)
      → IsConfig n c
      → IsConfig n (task_line k text c)
  unfolding task_line task_of
  task_line-IsConfig k line c v =
      let text = skip_while is_blank line in
      let number = skip_while is_space (after_word is_space text) in
      let start = skip_while is_space (after_word is_space number) in
      let (t, valid) = task_of k line in
      given (task_of k line).1 v λ e.
        change_last n _ c
          (λ b w. record {
            listens = w.listens;
            addresses = w.addresses;
            servers = w.servers;
            tasks =
                All-snoc (IsTask n) b.tasks (task_of k line).0 w.tasks
                  (task_starting-IsTask k (task_type_of text) (atoi number) start e);
            rules = w.rules;
          })
          v

  pub IsConfig-kept : IsKept n (IsConfig n)
  IsConfig-kept = record {
    bind = bind_line-IsConfig;
    alsobind = alsobind_line-IsConfig;
    server = add_server-IsConfig;
    retry = retry_line-IsConfig;
    filter = filter_line-IsConfig;
    admin = admin_line-IsConfig;
    task = task_line-IsConfig;
    threads = threads_line-IsConfig;
  }

  defaults-IsConfig : (c : AppConfig) → IsConfig n (set_default_values n c)
  unfolding set_default_values
  defaults-IsConfig c = record {
    parts = tt;
    admin = (ground arith, ground arith);
    retry = ground arith;
    threads = ground arith;
  }

-- Whatever a file says, or if there is none, a configuration that is loaded without a fault is
-- sound: each part has an address; the ports of the addresses, of the servers and of the
-- administration lie between 1 and 65535; the addresses of the servers and rules are known; a task
-- that runs at no fixed times has a positive interval; and the time between two attempts and the
-- number of connections of a thread are not 0.
pub load_file-IsConfig :
    (n : Network) (k : ℕ → Calendar) (files : List ℕ → Option (List (List ℕ))) (c d : AppConfig)
    (loaded : Bool)
    → load_file n k files c ≡ some (d, loaded)
    → IsConfig n d
load_file-IsConfig n k files c d loaded h =
    IfSome-elim (λ r. IsConfig n r.0) (load_file n k files c) (d, loaded) h
      (load_file-kept n (IsConfig n) (IsConfig-kept n) k files c (defaults-IsConfig n c)
        (defaults-IsConfig n (set_default_values n c)))
