-- ===== src/ServerList/Setup.antt =====
-- The functions of `ServerList` that the configuration calls (src/ServerList.cpp), and
-- `setParallelList`.
use relb.Prelude.{
  ℕ, ◌+◌, ◌*◌, Bool, true, false, ◌||◌, Option, none, some, List, [], ◌∷◌, ◌++◌, ◌==◌, ltb,
  if◌then◌else◌,
}
use relb.Prelude.Int.{ℤ}
use relb.Address.{IpAddress}
use relb.Filters.{FilterInfo}
use relb.ServerList.State.{ServerInfo, PeerInfo, TaskInfo, ServerList, post_parallel, set_parallel}
use Prim.Native.String.{String}

unfoldable pub set_server_retry : ℕ → ServerList → ServerList
set_server_retry seconds sl = record sl { server_retry_milliseconds = seconds * 1000 }

unfoldable pub start_updating : ServerList → ServerList
start_updating sl = record sl { update = true }

unfoldable pub stop_updating : ServerList → ServerList
stop_updating sl = record sl { update = false }

-- The result is false, also when the filter is added.
unfoldable pub add_filter : FilterInfo → ServerList → ServerList × Bool
add_filter f sl =
    if sl.running then (sl, false) else (record sl { filters = sl.filters ++ f ∷ [] }, false)

-- The earliest time of a run; 0 stands for none.
unfoldable pub earlier : ℕ → ℕ → ℕ
earlier next run = if ltb run next || next == 0 then run else next

unfoldable pub add_task_at : ℕ → ℕ → ℕ → Bool → ServerList → ServerList × Bool
unfolding earlier
add_task_at type interval run fixed sl =
    let task : TaskInfo = record {
      task_type = type;
      run_interval_seconds = interval;
      next_run_time = run;
      fixed_time = fixed;
      last_ran_time = 0;
      last_ran_exitcode = 0;
    } in
    if sl.running then (sl, false) else (
      record sl {
        next_task_run_time = earlier sl.next_task_run_time run;
        tasks = sl.tasks ++ task ∷ [];
      },
      false,
    )

-- The two functions `addTask`: the first run is an interval from now, or at a given time.
unfoldable pub add_task : ℕ → ℕ → ℕ → ServerList → ServerList × Bool
unfolding add_task_at
add_task type interval now sl = add_task_at type interval (now + 1000 * interval) false sl

unfoldable pub add_task_first : ℕ → ℕ → ℕ → ServerList → ServerList × Bool
unfolding add_task_at
add_task_first type first interval sl = add_task_at type interval first true sl

unfoldable pub add_server :
    Option String → IpAddress → ℕ → ℤ → ℤ → ℕ → ServerList → ServerList × Bool
add_server host ip port weight max_connections now sl =
    let info : ServerInfo = record {
      host_name = (elim host [ none ↦ "" | some name ↦ name ]);
      ip = ip;
      port = port;
      disconnected = 0;
      finished = 0;
      connected = 0;
      connecting = 0;
      weight = weight;
      max_connections = max_connections;
      last_connection_failed = false;
      last_connection_attempt = now;
    } in
    (record sl { servers = sl.servers ++ info ∷ [] }, true)

-- From the last connection to the first, each is made known to the new list: by its copy, if it has
-- one, or with a new copy.
unfoldable pub share_all : List PeerInfo → ServerList → List PeerInfo × ServerList
unfolding post_parallel set_parallel
share_all [] sl = ([], sl)
share_all (p ∷ ps) sl =
    let later = share_all ps sl in
    elim p.parallel [
      | none ↦ let (q, t) = set_parallel p later.1 in (q ∷ later.0, t)
      | some twin ↦ (p ∷ later.0, post_parallel p.status (some twin) later.1)
    ]

unfoldable pub set_parallel_list : Bool → ServerList → ServerList
unfolding share_all
set_parallel_list present sl =
    let (ps, t) = share_all sl.peers (record sl { parallel_list = present }) in
    if present then record t { peers = ps } else record sl { parallel_list = present }
