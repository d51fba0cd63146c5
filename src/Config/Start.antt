-- ===== src/Config/Start.antt =====
-- The positions of a configuration while it is loaded (src/AppConfig.cpp).
use relb.Prelude.{
  ℕ, ◌==◌, ◌≡◌, Bool, true, false, ◌||◌, Option, none, some, List, ◌==◌, if_cases, length, codes,
}
use relb.Address.{IpAddress, same_ip}
use relb.Config.State.{AppConfig, Network, Calendar, set_default_values, set_file_path}
use relb.Config.Endpoint.{endpoint, bind_line, alsobind_line, admin_line}
use relb.Config.Servers.{server_of, add_server, retry_line, threads_line}
use relb.Config.Rules.{rule_of, filter_line}
use relb.Config.Tasks.{task_of, task_line}
use relb.Config.Lines.{load_file, check_config, or_etc, checked, load_config}
use relb.Config.Kept.{IsKept, IfSome, load_file-kept}

-- The positions that the getters of addresses and servers begin with.
abbrev pub IsAtStart : AppConfig → Type 0
IsAtStart c = (c.current_address ≡ 0) × (c.current_server ≡ 0)

module _ (n : Network) where
  pub IsAtStart-kept : IsKept n IsAtStart
  unfolding bind_line alsobind_line add_server retry_line filter_line admin_line task_line
      threads_line
  IsAtStart-kept =
      let local : IpAddress = record { a = 127; b = 0; c = 0; d = 1 } in
      record {
        bind = λ text c v. if_cases IsAtStart ((endpoint n n.ip_any text).src_port == 0) v v;
        alsobind = λ text c v. if_cases IsAtStart ((endpoint n n.ip_any text).src_port == 0) v v;
        server = λ name numbers c v.
            let s = server_of n name numbers in
            if_cases IsAtStart (same_ip s.dst_ip n.ip_none || s.dst_port == 0) v v;
        retry = λ text c v. v;
        filter = λ text c v.
            let f = rule_of n text in
            if_cases IsAtStart (same_ip f.src_ip n.ip_none || same_ip f.dst_ip n.ip_none) v v;
        admin = λ text c v. if_cases IsAtStart ((endpoint n local text).src_port == 0) v v;
        task = λ k text c v. if_cases IsAtStart (task_of k text).1 v v;
        threads = λ text c v. v;
      }

-- A result at the start, which is checked if it is said to be loaded.
module _ (n : Network) (k : ℕ → Calendar) (files : List ℕ → Option (List (List ℕ))) where
  abbrev pub AtStart : AppConfig × Bool → Type 0
  AtStart r = IsAtStart r.0

  load_file-AtStart : (c : AppConfig) → IsAtStart c → IfSome AtStart (load_file n k files c)
  unfolding set_default_values
  load_file-AtStart c v = load_file-kept n IsAtStart (IsAtStart-kept n) k files c v v

  or_etc-AtStart :
      (o : Option (AppConfig × Bool)) → IfSome AtStart o → IfSome AtStart (or_etc n k files o)
  unfolding set_file_path
  or_etc-AtStart none v = tt
  or_etc-AtStart (some (d, true)) v = v
  or_etc-AtStart (some (d, false)) v =
      load_file-AtStart (set_file_path (codes "/etc/relb.conf") d) v

  module _ (ip_free : IpAddress → Bool) (port_free : IpAddress → ℕ → Bool) where
    abbrev pub IsAccepted : AppConfig × Bool → Type 0
    IsAccepted r = IsAtStart r.0 × ((r.1 ≡ true) → check_config ip_free port_free r.0 ≡ true)

    checked-IsAccepted :
        (o : Option (AppConfig × Bool))
        → IfSome AtStart o
        → IfSome IsAccepted (checked n k files ip_free port_free o)
    checked-IsAccepted none v = tt
    checked-IsAccepted (some (d, true)) v = (v, λ h. h)
    checked-IsAccepted (some (d, false)) v = (v, λ h. cc)

    pub load_config-IsAccepted :
        (c : AppConfig)
        → IsAtStart c
        → IfSome IsAccepted (load_config n k files ip_free port_free c)
    unfolding load_config set_file_path
    load_config-IsAccepted c v = checked-IsAccepted _ (
        if_cases (IfSome AtStart) (length c.configfile == 0)
          (or_etc-AtStart _ (load_file-AtStart (set_file_path (codes "relb.conf") c) v))
          (load_file-AtStart c v))
