-- ===== src/ServerList/Tasks.antt =====
-- The task round of `ServerList::execute` (src/ServerList.cpp).
use relb.Prelude.{
  ℕ, suc, ◌+◌, ◌-◌, ◌*◌, ◌/◌, Bool, true, false, not, ◌&&◌, ◌||◌, List, [], ◌∷◌, length, ◌==◌, ltb,
  leb, if◌then◌else◌,
}
use relb.Prelude.Int.{ℤ, pos, sub_ℕ}
use relb.ServerList.State.{TaskInfo, ServerList}
use relb.ServerList.Cleaning.{clean_connections, purge_connections}

-- The readings of the clock while one task is looked at, in the order of the calls of `now`.
pub record TaskClock : Type 0 where
  pub due : ℕ
  pub ran : ℕ
  pub purged : ℕ
  pub checked : ℕ
  pub again : ℕ
  pub compared : ℕ
  pub emptied : ℕ

abbrev pub clean_task : ℕ
clean_task = 2

abbrev pub purge_task : ℕ
purge_task = 3

-- The next run of a task with fixed times: the first of its times behind `now`.
unfoldable pub next_fixed : ℕ → ℕ → ℕ → ℕ
next_fixed next interval now = next + ((now - next) / (1000 * interval) + 1) * (1000 * interval)

-- The time of the next run, and whether the task is over. (It is looked at twice whether a fixed time
-- has come.)
unfoldable pub reschedule : TaskClock → TaskInfo → TaskInfo × Bool
unfolding next_fixed
reschedule k t =
    if ltb 0 t.run_interval_seconds
    then (
      if t.fixed_time
          then (if leb t.next_run_time k.checked
              then record t {
                next_run_time = next_fixed t.next_run_time t.run_interval_seconds k.again;
              }
              else t)
          else record t { next_run_time = k.again + 1000 * t.run_interval_seconds },
      false,
    )
    else (t, true)

-- The two kinds of tasks that do something, one after the other.
unfoldable pub perform : TaskClock → TaskInfo → ServerList → ServerList
unfolding clean_connections purge_connections
perform k t sl =
    let cleaned = (if t.task_type == clean_task then clean_connections sl else sl) in
    if t.task_type == purge_task then purge_connections k.purged cleaned else cleaned

-- Both return 0.
abbrev pub exit_code : TaskInfo → ℕ
exit_code t =
    if t.task_type == clean_task || t.task_type == purge_task then 0 else t.last_ran_exitcode

unfoldable pub run_task : TaskClock → TaskInfo → ServerList → (TaskInfo × Bool) × ServerList
unfolding reschedule perform
run_task k t sl =
    if leb t.next_run_time k.due
    then (
      reschedule k (record t { last_ran_time = k.ran; last_ran_exitcode = exit_code t }),
      perform k t sl,
    )
    else ((t, false), sl)

-- The next run of any task: the task's own, if it is earlier or what was noted has come.
unfoldable pub note_run : TaskClock → TaskInfo → ℕ → ℕ
note_run k t next =
    if ltb t.next_run_time next || leb next k.compared then t.next_run_time else next

-- The loop over the tasks. `kept` tells whether a task before is still in the list, which the test
-- for an empty list needs; a task that is over is deleted.
unfoldable pub task_loop :
    (ℕ → TaskClock) → ℕ → Bool → List TaskInfo → ServerList → List TaskInfo × ServerList
unfolding run_task
task_loop clock i kept [] sl = ([], sl)
task_loop clock i kept (t ∷ ts) sl =
    let k = clock i in
    let ran = run_task k t sl in
    let u = ran.0.0 in
    let noted = note_run k u ran.1.next_task_run_time in
    let empty = not kept && length ts == 0 in
    let rest = task_loop clock (suc i) (kept || not ran.0.1) ts (record ran.1 {
      next_task_run_time = (if ran.0.1 && empty then k.emptied + 3000 else noted);
    }) in
    (if ran.0.1 then rest.0 else u ∷ rest.0, rest.1)

-- The part of the main loop under `if( update )`, but for the waiting time.
unfoldable pub run_tasks : ℕ → (ℕ → TaskClock) → ServerList → ServerList
unfolding task_loop
run_tasks now clock sl =
    let (ts, t) = task_loop clock 0 false sl.tasks sl in
    if not (sl.next_task_run_time == 0) && leb sl.next_task_run_time now
    then record t { tasks = ts }
    else sl

-- `int( next - now + 16 )` at most 14000, rounded down to a second (division of a negative number
-- rounds to 0), and a second more.
unfoldable pub wait_ms : ℕ → ℕ → ℤ
wait_ms next now =
    if leb now (next + 16)
    then (let left = next + 16 - now in
        pos ((if ltb left 14000 then left else 14000) / 1000 * 1000 + 1000))
    else sub_ℕ 1000 ((now - (next + 16)) / 1000 * 1000)
