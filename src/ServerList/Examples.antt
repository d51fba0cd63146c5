-- ===== src/ServerList/Examples.antt =====
-- Concrete lists of servers, connections and tasks, on which the theorems of this part apply.
use relb.Prelude.{
  ◌≢◌, ℕ, suc, zero, ◌*◌, ◌/◌, ◌≡◌, ◌≤◌, refl, Bool, true, false, Option, some, List, [], ◌∷◌,
  length, get_elem?, arith,
}
use mathlib.Core.Path.{subst}
use relb.Prelude.Int.{pos}
use relb.Address.{IpAddress}
use relb.Filters.{FilterInfo, matches, is_server_allowed}
use relb.Status.{connection_established, client_disconnected_ok, server_connection_lost}
use relb.ServerList.State.{ServerInfo, PeerInfo, TaskInfo, ServerList}
use relb.ServerList.Select.{
  Candidate, divisor, load, default_load, not_available, default_candidate, weigh, next_index, scan,
  last_attempt, choose,
}
use relb.ServerList.Choice.{judged, choose-least}
use relb.ServerList.Unserved.{choose_none, choose_first}
use relb.ServerList.Sessions.{
  Lost, find_server, discard_failed, session_server, prefer, find_session, reuse_session, announce,
  new_peer,
}
use relb.ServerList.GetServer.{
  Clock, first_index, place, assign, assign_new, by_session, get_server,
}
use relb.ServerList.Persistence.{NoneLater, find_session-latest}
use relb.ServerList.Answer.{get_server_total}
use relb.ServerList.Assigned.{started, assign_new-allowed}
use relb.ServerList.Served.{IsServed, get_server-IsServed}
use relb.ServerList.Messages.{find_peer, server_at, process_message}
use relb.ServerList.Tasks.{run_tasks}
use relb.ServerList.Accounts.{IsBalanced, sum_total, reuse_session_counts}
use relb.ServerList.Balance.{process_message-IsBalanced}
use relb.ServerList.TaskRound.{instant, Scheduled, run_tasks-Scheduled}
use relb.ServerList.LateTask.{run_tasks_late}

abbrev ratio : ℕ → ℕ → ℕ
ratio load weight = load * 1000 / weight

abbrev host : ℕ → IpAddress
host n = record { a = 192; b = 168; c = 1; d = n }

abbrev client : ℕ → IpAddress
client n = record { a = 10; b = 0; c = 0; d = n }

abbrev server : ℕ → ServerInfo
server n = record {
  host_name = "";
  ip = host n;
  port = 80;
  disconnected = 0;
  finished = 0;
  connected = 0;
  connecting = 0;
  weight = pos 1;
  max_connections = pos 10;
  last_connection_failed = false;
  last_connection_attempt = 0;
}

-- One connection at the first server, one on its way to the second.
abbrev first : ServerInfo
first = record (server 1) { connected = 1 }

abbrev second : ServerInfo
second = record (server 2) { connecting = 1 }

abbrev settled : PeerInfo
settled = record (new_peer 1 (client 7) 4000 (host 1) 80 3 100) { status = connection_established }

abbrev beginning : PeerInfo
beginning = new_peer 2 (client 9) 4001 (host 2) 80 3 200

abbrev busy : ServerList
busy = record {
  running = true;
  update = false;
  finish = false;
  reconnect_lost_sessions = true;
  filters = [];
  servers = first ∷ second ∷ [];
  peers = settled ∷ beginning ∷ [];
  tasks = [];
  next_task_run_time = 0;
  parallel_list = false;
  last_server_assigned = 9999;
  server_retry_milliseconds = 30000;
  finished_weight = 1;
  disconnected_weight = 1;
  last_connections_cleanup = 0;
  admin_posts = [];
  close_requests = [];
  next_address = 3;
}

abbrev clock : Clock
clock = record { session = λ i. 300; server = λ i. 300; made = 300 }

get_server_total_example :
    (r : ServerList × Option PeerInfo) × (get_server ratio busy (client 7) 4000 3 clock ≡ some r)
get_server_total_example = get_server_total ratio busy (client 7) 4000 3 clock

abbrev reused : ServerList × PeerInfo
reused = reuse_session busy 4000 3 300 0 settled 0

get_server-IsServed_example : IsServed (client 7) 4000 3 reused.0 reused.1
get_server-IsServed_example =
    get_server-IsServed ratio busy (client 7) 4000 3 clock reused.0 reused.1
      (unfold get_server by_session find_session session_server find_server discard_failed in refl)

-- A client without a session gets the second server, which has no connection yet.
abbrev placed : ServerList × Option PeerInfo
placed = place (started busy) (client 20) 5000 3 300 1 second

assign_new-allowed_example : is_server_allowed busy.filters (host 2) (client 20) ≡ true
assign_new-allowed_example =
    assign_new-allowed ratio busy placed.0 (client 20) 5000 3 clock
      (new_peer 3 (client 20) 5000 (host 2) 80 3 300) (λ e. cc)
      (unfold assign_new assign choose scan last_attempt default_candidate weigh next_index load
          default_load not_available divisor first_index place announce is_server_allowed in
        refl)

abbrev chosen : Candidate
chosen = record { server = 1; weight = pos 1; index = 0; not_available = false; assigned = true }

choose-least_example :
    (chosen.assigned ≡ true)
    × (u : ServerInfo) × (get_elem? busy.servers chosen.server ≡ some u)
    × (judged ratio busy (client 20) 0 chosen.server u
        ≤ ratio (load busy second) (divisor second.weight))
choose-least_example =
    choose-least ratio busy (client 20) (λ i. 300) 0 1 second chosen (omega arith) (omega arith)
      (λ e. cc) refl (unfold is_server_allowed in refl) (unfold not_available in refl)
      (unfold choose scan last_attempt default_candidate weigh next_index load default_load
          not_available divisor is_server_allowed in
        refl)

reuse_session_counts_example : sum_total reused.0.servers ≡ suc (length reused.0.peers)
reuse_session_counts_example =
    reuse_session_counts busy 4000 3 300 0 0 settled first refl (unfold sum_total in refl)

process_message-IsBalanced_example :
    IsBalanced (process_message client_disconnected_ok 1 400 401 busy)
process_message-IsBalanced_example =
    process_message-IsBalanced client_disconnected_ok 1 400 401 0 0 settled first busy
      (unfold find_peer in refl) refl (unfold server_at in refl) refl (omega arith)
      (unfold sum_total in refl)

-- Two sessions of one client, of which the second changed last.
abbrev earlier_session : PeerInfo
earlier_session = record (new_peer 1 (client 7) 4000 (host 1) 80 3 100) {
  status = client_disconnected_ok;
}

abbrev later_session : PeerInfo
later_session = record (new_peer 2 (client 7) 4001 (host 2) 80 3 200) {
  status = server_connection_lost;
}

abbrev sessions : List PeerInfo
sessions = earlier_session ∷ beginning ∷ later_session ∷ []

abbrev taken_up : Lost
taken_up = record { index = 2; server = 1; peer = later_session }

find_session-latest_example : NoneLater busy (client 7) (λ i. 300) 200 0 sessions
find_session-latest_example =
    find_session-latest busy (client 7) 4500 (λ i. 300) sessions taken_up
      (unfold find_session session_server find_server discard_failed prefer in refl)

-- The first server is denied to the clients of 10.0.0.0/8, and the second has just failed.
abbrev deny_first : FilterInfo
deny_first = record {
  src_ip = record { a = 10; b = 0; c = 0; d = 0 };
  src_mask = record { a = 255; b = 0; c = 0; d = 0 };
  dst_ip = host 1;
  dst_mask = record { a = 255; b = 255; c = 255; d = 255 };
  allow = false;
}

abbrev failed : ServerInfo
failed = record second { last_connection_failed = true; last_connection_attempt = 200 }

abbrev refusing : ServerList
refusing = record busy { filters = deny_first ∷ []; servers = first ∷ failed ∷ [] }

abbrev Waits : ServerInfo → Type 0
Waits t =
    is_server_allowed refusing.filters t.ip (client 7) ≡ true → not_available refusing t 300 ≡ true

refusing_busy : (i : ℕ) (t : ServerInfo) → get_elem? refusing.servers i ≡ some t → Waits t
unfolding is_server_allowed matches not_available
refusing_busy zero t e = subst Waits {x = first} {y = t} (ground arith) (λ a. cc)
refusing_busy (suc zero) t e = subst Waits {x = failed} {y = t} (ground arith) (λ a. refl)
refusing_busy (suc (suc i)) t e = cc

abbrev nobody : Candidate
nobody = record {
  server = 0;
  weight = pos 1;
  index = 1000;
  not_available = false;
  assigned = false;
}

choose_none_example : nobody.assigned ≡ false
choose_none_example =
    choose_none ratio refusing (client 7) (λ i. 300) 0 first nobody refl
      (unfold is_server_allowed matches in refl) (unfold not_available in refl) refusing_busy
      (unfold choose scan last_attempt default_candidate weigh next_index load default_load
          not_available divisor is_server_allowed matches in
        refl)

-- The first server has just failed, and the second has more connections.
abbrev down : ServerInfo
down = record first { last_connection_failed = true; last_connection_attempt = 200 }

abbrev out_of_order : ServerList
out_of_order = record busy { servers = down ∷ record second { connected = 5 } ∷ [] }

out_of_order_least :
    (i : ℕ) (t : ServerInfo)
    → i ≢ 0
    → get_elem? out_of_order.servers i ≡ some t
    → ratio (default_load out_of_order down) (divisor down.weight)
      ≤ ratio (load out_of_order t) (divisor t.weight)
unfolding default_load load divisor
out_of_order_least zero t d e = ground arith
out_of_order_least (suc zero) t d e = ground arith
out_of_order_least (suc (suc i)) t d e = cc

abbrev unavailable : Candidate
unavailable = record {
  server = 0;
  weight = pos 1;
  index = 1000;
  not_available = true;
  assigned = true;
}

choose_first_example : (unavailable.assigned ≡ true) × (unavailable.server ≡ 0)
choose_first_example =
    choose_first ratio out_of_order (client 20) (λ i. 300) 0 down unavailable refl
      (unfold is_server_allowed in refl) (unfold default_load divisor in λ e. cc) out_of_order_least
      (unfold choose scan last_attempt default_candidate weigh next_index load default_load
          not_available divisor is_server_allowed in
        refl)

abbrev task : ℕ → ℕ → ℕ → Bool → TaskInfo
task type interval run fixed = record {
  task_type = type;
  run_interval_seconds = interval;
  next_run_time = run;
  fixed_time = fixed;
  last_ran_time = 0;
  last_ran_exitcode = 0;
}

abbrev repeating : ServerList
repeating = record busy {
  tasks = task 2 60 90000 false ∷ task 3 3600 95000 true ∷ [];
  next_task_run_time = 90000;
}

run_tasks-Scheduled_example :
    let after = run_tasks 100000 (λ _. instant 100000) repeating in
    Scheduled 100000 after.next_task_run_time after.tasks
run_tasks-Scheduled_example =
    run_tasks-Scheduled 100000 repeating (omega arith, (omega arith, tt)) (λ e. cc) (omega arith)

-- A task every minute, one that runs once, and one that is due in an hour.
abbrev mixed : ServerList
mixed = record busy {
  tasks = task 2 60 90000 false ∷ task 3 0 95000 false ∷ task 2 3600 3600000 false ∷ [];
  next_task_run_time = 90000;
}

run_tasks_late_example : (run_tasks 100000 (λ _. instant 100000) mixed).next_task_run_time ≡ 3600000
run_tasks_late_example =
    run_tasks_late 100000 (task 2 60 90000 false) (task 3 0 95000 false) (task 2 3600 3600000 false)
      mixed refl (λ e. cc) (omega arith) (omega arith) refl (omega arith) refl (omega arith)
      (omega arith)
