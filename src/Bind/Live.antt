-- ===== src/Bind/Live.antt =====
-- The object that listens with the list of servers and the administration that it holds: the functions
-- of src/ServerList.cpp and src/AdminHTTPServer.cpp behind those that src/Bind.cpp calls.
use relb.Prelude.{ℕ, suc, true, none, some, List}
use relb.Prelude.Int.{pos_part}
use relb.Address.{IpAddress}
use relb.Socket.{Socket}
use relb.Manager.Pool.{set_peers_per_thread}
use relb.ServerList.State.{ServerList}
use relb.ServerList.GetServer.{Clock}
use relb.ServerList.Setup
use relb.ServerList.SetServer.{Balancer, set_server}
use relb.Admin.State
use relb.Admin.State.{AdminServer}
use relb.Bind.State.{Services}
use Prim.Native.String.{String}

-- The list of servers with its threads. The i-th call that asks for the time gets the i-th readings of
-- the clock.
pub record Live : Type 0 where
  pub balancer : Balancer
  pub clocks : ℕ → Clock
  pub calls : ℕ

pub record LiveAdmin : Type 0 where
  pub server : AdminServer
  pub clock : ℕ → ℕ
  pub calls : ℕ

abbrev pub on_list : (ServerList → ServerList) → Live → Live
on_list f s = record s { balancer = record s.balancer { list = f s.balancer.list } }

-- A call that takes one reading.
abbrev pub timed : (ℕ → ServerList → ServerList) → Live → Live
timed f s = record (on_list (f (s.clocks s.calls).made) s) { calls = suc s.calls }

module _ (ratio : ℕ → ℕ → ℕ) (dial : IpAddress → ℕ → Socket) (text : List ℕ → String) where
  -- `get_running` is true from `start` on. A negative number of seconds counts as 0: the source
  -- tests whether an interval is positive, and whether a time before the retry has passed. `text`
  -- makes a string of the codes of its characters.
  unfoldable pub live : Services Live LiveAdmin
  unfolding Setup.set_server_retry Setup.add_server Setup.add_task Setup.add_task_first
      Setup.add_filter Setup.set_parallel_list State.add_server State.set_parallel_list
      State.start_http_admin State.stop_http_admin set_server set_peers_per_thread
  live = record {
    set_peers_per_thread = λ n s. record s {
      balancer = record s.balancer { pool = set_peers_per_thread (pos_part n) s.balancer.pool };
    };
    set_server_retry = λ seconds. on_list (Setup.set_server_retry (pos_part seconds));
    add_server = λ name ip port weight limit.
        timed (λ now l. (Setup.add_server (some (text name)) ip port weight limit now l).0);
    add_task = λ type interval. timed (λ now l. (Setup.add_task type (pos_part interval) now l).0);
    add_task_first = λ type first interval.
        on_list (λ l. (Setup.add_task_first type (pos_part first) (pos_part interval) l).0);
    add_filter = λ f. on_list (λ l. (Setup.add_filter f l).0);
    start = on_list (λ l. record l { running = true });
    set_server = λ fd ip port s.
        elim (set_server ratio dial (record { open_fd = true; fd = fd }) ip port (s.clocks s.calls)
          s.balancer) [
            | none ↦ none
            | some b ↦ some (record s { balancer = b; calls = suc s.calls })
          ];
    set_parallel_list = on_list (Setup.set_parallel_list true);
    admin_add_server = λ name ip port weight limit a. record a {
      server =
          (State.add_server (some (text name)) ip port weight limit (a.clock a.calls) a.server).0;
      calls = suc a.calls;
    };
    admin_set_parallel_list = λ a. record a { server = State.set_parallel_list true a.server };
    start_http_admin = λ port ip a. record a { server = State.start_http_admin port ip a.server };
    stop_http_admin = λ a. record a { server = State.stop_http_admin a.server };
  }
