-- ===== src/ServerList/TaskRound.antt =====
-- What one round over the tasks (`ServerList::execute` of src/ServerList.cpp) leaves to be done.
use relb.Prelude.{
  All, ℕ, suc, ◌≤◌, ◌<◌, ◌≡◌, ◌≢◌, refl, false, Bool, List, [], ◌∷◌, not, ◌||◌, arith,
}
use relb.ServerList.State.{TaskInfo, ServerList, post_parallel, request_close}
use relb.ServerList.Cleaning.{forget_peer}
use relb.ServerList.Frame.{IsKept, run_task-kept}
use relb.ServerList.Tasks.{TaskClock, reschedule, note_run, run_task, task_loop, run_tasks}
use relb.ServerList.Schedule.{next_fixed_lem}

next-IsKept : IsKept (λ sl. sl.next_task_run_time)
unfolding forget_peer post_parallel request_close
next-IsKept = record {
  forgotten = λ p sl. ground arith;
  closed = λ manager pointer sl. ground arith;
  listed = λ ps sl. refl;
  purged = λ now sl. refl;
}

-- All readings of the clock in one instant.
abbrev pub instant : ℕ → TaskClock
instant now = record {
  due = now;
  ran = now;
  purged = now;
  checked = now;
  again = now;
  compared = now;
  emptied = now;
}

-- A task that repeats is kept, and its next run lies ahead.
run_task-ahead :
    (now : ℕ) (t : TaskInfo) (sl : ServerList)
    → 0 < t.run_interval_seconds
    → ((run_task (instant now) t sl).0.1 ≡ false)
      × (now < (run_task (instant now) t sl).0.0.next_run_time)
unfolding run_task reschedule
run_task-ahead now t sl h =
    ground (arith, next_fixed_lem t.next_run_time t.run_interval_seconds now h)

pub run_task-next :
    (k : TaskClock) (t : TaskInfo) (sl : ServerList)
    → (run_task k t sl).1.next_task_run_time ≡ sl.next_task_run_time
run_task-next = run_task-kept (λ sl. sl.next_task_run_time) next-IsKept

-- Every task runs after `now`, and not before the time `next`.
abbrev pub Scheduled : ℕ → ℕ → List TaskInfo → Type 0
Scheduled now next = All (λ u. (now < u.next_run_time) × (next ≤ u.next_run_time))

-- The state behind a task that is kept.
abbrev behind : ℕ → TaskInfo → ServerList → ServerList
behind now t sl =
    let ran = run_task (instant now) t sl in
    record ran.1 { next_task_run_time = note_run (instant now) ran.0.0 ran.1.next_task_run_time }

task_loop-cons :
    (now i : ℕ) (kept : Bool) (t : TaskInfo) (ts : List TaskInfo) (sl : ServerList)
    → (run_task (instant now) t sl).0.1 ≡ false
    → (later : Bool) × (task_loop (λ _. instant now) i kept (t ∷ ts) sl ≡ (
      (run_task (instant now) t sl).0.0
          ∷ (task_loop (λ _. instant now) (suc i) later ts (behind now t sl)).0,
      (task_loop (λ _. instant now) (suc i) later ts (behind now t sl)).1,
    ))
unfolding task_loop
task_loop-cons now i kept t ts sl e =
    (kept || not (run_task (instant now) t sl).0.1, ground (arith, e))

behind-next :
    (now : ℕ) (t : TaskInfo) (sl : ServerList)
    → 0 < t.run_interval_seconds
    → let next = (behind now t sl).next_task_run_time in
      (now < next)
      × (next ≤ (run_task (instant now) t sl).0.0.next_run_time)
      × (now < sl.next_task_run_time → next ≤ sl.next_task_run_time)
unfolding note_run
behind-next now t sl h = ground (arith, run_task-ahead now t sl h, run_task-next (instant now) t sl)

task_loop-Scheduled :
    (now i : ℕ) (kept : Bool) (ts : List TaskInfo) (sl : ServerList)
    → All (λ t. 0 < t.run_interval_seconds) ts
    → let (us, after) = task_loop (λ _. instant now) i kept ts sl in
      Scheduled now after.next_task_run_time us
      × (now < sl.next_task_run_time → after.next_task_run_time ≤ sl.next_task_run_time)
task_loop-Scheduled now i kept [] sl h = unfold task_loop in (tt, λ _. omega arith)
task_loop-Scheduled now i kept (t ∷ ts) sl h =
    let (once, ahead) = run_task-ahead now t sl h.0 in
    let (later, e) = task_loop-cons now i kept t ts sl once in
    let (a, b, c) = behind-next now t sl h.0 in
    let (rest, down) = task_loop-Scheduled now (suc i) later ts (behind now t sl) h.1 in
    let d = down a in rw e (((ahead, omega arith), rest), λ p. omega (arith, c p))

-- After a round in one instant, in which every task repeats and the noted time of the next run has
-- come, every task runs later than that instant, and the time that is noted for the next round is
-- no later than any of them.
pub run_tasks-Scheduled :
    (now : ℕ) (sl : ServerList)
    → All (λ t. 0 < t.run_interval_seconds) sl.tasks
    → sl.next_task_run_time ≢ 0
    → sl.next_task_run_time ≤ now
    → let after = run_tasks now (λ _. instant now) sl in
      Scheduled now after.next_task_run_time after.tasks
unfolding run_tasks
run_tasks-Scheduled now sl h set due =
    ground (arith, (task_loop-Scheduled now 0 false sl.tasks sl h).0)
