-- ===== src/Bind/Examples.antt =====
-- A configuration that `main` gives on, with services that note the calls.
use relb.Prelude.{ℕ, Bool, true, false, some, List, [], ◌∷◌, ◌++◌, ◌≡◌, refl}
use relb.Prelude.Int.{ℤ}
use relb.Config.State.{BindConf}
use relb.Config.Lines.{load_config, check_config, check_parts, check_part, check_addresses}
use relb.Config.Examples.{
  lan, epoch, files, free, unprivileged, found, loaded, everywhere, load_found,
}
use relb.Bind.State.{Services, Bind}
use relb.Bind.Main.{configure}
use relb.Bind.Filled.{filled, bind_of}
use relb.Bind.Composed.{configure-load_config}

pub data Call : Type 0 where
  peers_per_thread : ℤ → Call
  retry : ℤ → Call
  server : List ℕ → ℕ → Call
  task : ℕ → ℤ → Call
  task_first : ℕ → ℤ → ℤ → Call
  filter : Bool → Call
  start : Call

abbrev pub noting : Services (List Call) (List (List ℕ))
noting = record {
  set_peers_per_thread = λ m s. s ++ peers_per_thread m ∷ [];
  set_server_retry = λ m s. s ++ retry m ∷ [];
  add_server = λ name ip port weight limit s. s ++ server name port ∷ [];
  add_task = λ type interval s. s ++ task type interval ∷ [];
  add_task_first = λ type run interval s. s ++ task_first type run interval ∷ [];
  add_filter = λ f s. s ++ filter f.allow ∷ [];
  start = λ s. s ++ start ∷ [];
  set_server = λ fd ip port s. some s;
  set_parallel_list = λ s. s;
  admin_add_server = λ name ip port weight limit a. a ++ name ∷ [];
  admin_set_parallel_list = λ a. a;
  start_http_admin = λ port ip a. a;
  stop_http_admin = λ a. a;
}

abbrev pub blank : Bind (List Call) (List (List ℕ))
blank = record {
  admin = [];
  addresses = [];
  admin_enabled = false;
  admin_ip = everywhere;
  admin_port = 0;
  finish = false;
  started = false;
  slist = [];
}

pub accepted : load_config lan (λ i. epoch) files free unprivileged found ≡ some (loaded, true)
unfolding load_config check_config check_parts check_part check_addresses
accepted = rw load_found refl

configure-load_config_example :
    (p : BindConf) × (ps : List BindConf) × (loaded.bind ≡ p ∷ ps)
    × (bind_of lan noting (configure lan noting loaded blank)
        ≡ some (filled lan noting loaded p blank))
configure-load_config_example =
    configure-load_config free unprivileged lan (λ i. epoch) files noting found loaded blank
      (refl, refl) accepted
