-- ===== src/Bind/State.antt =====
-- `Bind` (src/Bind.h, src/Bind.cpp), without its thread. What it needs of the list of servers and of the
-- administration are parameters.
use relb.Prelude.{ℕ, Bool, true, false, Option, List, [], ◌∷◌, ◌++◌, length, ltb, if◌then◌else◌}
use relb.Prelude.Int.{ℤ, pos, ltb_ℤ}
use relb.Address.{IpAddress}
use relb.Filters.{FilterInfo}
use relb.Config.State.{BindAddress}

-- The functions of `ServerList` and `AdminHTTPServer` that `Bind` calls. `setServer` may read a null
-- pointer; the two functions `setParallelList` get one another's queue.
pub record Services (S A : Type 0) : Type 0 where
  pub set_peers_per_thread : ℤ → S → S
  pub set_server_retry : ℤ → S → S
  pub add_server : List ℕ → IpAddress → ℕ → ℤ → ℤ → S → S
  pub add_task : ℕ → ℤ → S → S
  pub add_task_first : ℕ → ℤ → ℤ → S → S
  pub add_filter : FilterInfo → S → S
  pub start : S → S
  pub set_server : ℕ → IpAddress → ℕ → S → Option S
  pub set_parallel_list : S → S
  pub admin_add_server : List ℕ → IpAddress → ℕ → ℤ → ℤ → A → A
  pub admin_set_parallel_list : A → A
  pub start_http_admin : ℕ → IpAddress → A → A
  pub stop_http_admin : A → A

pub record Bind (S A : Type 0) : Type 0 where
  pub admin : A
  pub addresses : List BindAddress
  pub admin_enabled : Bool
  pub admin_ip : IpAddress
  pub admin_port : ℕ
  pub finish : Bool
  pub started : Bool
  pub slist : S

module _ {S A : Type 0} (o : Services S A) where
  -- The constructor; `memory` is what the fields held that it does not set, and the objects it holds.
  unfoldable pub construct : ℤ → Bind S A → Bind S A
  construct peers_per_thread memory = record memory {
    addresses = [];
    admin_enabled = false;
    finish = false;
    started = false;
    slist =
        (if ltb_ℤ (pos 0) peers_per_thread
          then o.set_peers_per_thread peers_per_thread memory.slist
          else memory.slist);
  }

  unfoldable pub add_address : ℕ → IpAddress → Bind S A → Bind S A
  add_address port ip b = record b {
    addresses = b.addresses ++ record { src_ip = ip; src_port = port } ∷ [];
  }

  unfoldable pub set_server_retry : ℤ → Bind S A → Bind S A
  set_server_retry seconds b = record b { slist = o.set_server_retry seconds b.slist }

  unfoldable pub set_admin : Bool → IpAddress → ℕ → Bind S A → Bind S A
  set_admin enable ip port b = record b { admin_enabled = enable; admin_ip = ip; admin_port = port }

  unfoldable pub add_server : List ℕ → IpAddress → ℕ → ℤ → ℤ → Bind S A → Bind S A
  add_server name ip port weight max_connections b = record b {
    slist = o.add_server name ip port weight max_connections b.slist;
    admin = o.admin_add_server name ip port weight max_connections b.admin;
  }

  unfoldable pub add_task_first : ℕ → ℤ → ℤ → Bind S A → Bind S A
  add_task_first type first_run run_interval b = record b {
    slist = o.add_task_first type first_run run_interval b.slist;
  }

  unfoldable pub add_task : ℕ → ℤ → Bind S A → Bind S A
  add_task type run_interval b = record b { slist = o.add_task type run_interval b.slist }

  unfoldable pub add_filter : FilterInfo → Bind S A → Bind S A
  add_filter f b = record b { slist = o.add_filter f b.slist }

  -- The two threads.
  unfoldable pub start_listening : Bind S A → Bind S A
  start_listening b =
      if ltb 0 (length b.addresses) then record b { slist = o.start b.slist; started = true } else b
