-- ===== src/ServerList/Loop.antt =====
-- The thread of `ServerList`, `execute` (src/ServerList.cpp), in the steps between which other threads
-- may post messages or change the list.
use relb.Prelude.{
  ℕ, zero, suc, ◌-◌, Bool, true, not, ◌&&◌, Option, none, some, length, ltb, if◌then◌else◌,
}
use relb.Prelude.Int.{ℤ, pos}
use relb.ServerList.State.{ServerList}
use relb.ServerList.Messages.{process_message}
use relb.ServerList.Tasks.{TaskClock, run_tasks, wait_ms}
use relb.MessageQueue.{Jobs, MessageQueue}

-- Where the thread is: at the call of `getmessage`, at `if( update )`, in `status.wait`, or behind the
-- loop.
pub data Place : Type 0 where
  draining : Place
  updating : Place
  waiting : Place
  stopped : Place

-- The list with its queue `jq`, the count of the semaphore `status`, and the variable `wait_ms`.
pub record Runner (Q : Type 0) : Type 0 where
  pub list : ServerList
  pub queue : MessageQueue Q
  pub status : ℕ
  pub wait : ℤ
  pub at : Place

-- The readings of the clock in one step: for the two parts of `processMessage`, for the test whether
-- tasks are due, for the tasks, and for the time to wait.
pub record Readings : Type 0 where
  pub noted : ℕ
  pub now : ℕ
  pub due : ℕ
  pub tasks : ℕ → TaskClock
  pub left : ℕ

-- `while( !finish )`.
abbrev pub head : Bool → Place
head finish = if finish then stopped else draining

module _ {Q : Type 0} (o : Jobs Q) where
  -- What stands before the loop; MINIMUM_UPDATE_INTERVAL_MS is 3000.
  unfoldable pub begin : ServerList → MessageQueue Q → ℕ → Runner Q
  begin sl q count =
      let l =
        (if not sl.update && ltb 0 (length sl.tasks) then record sl { update = true } else sl) in
      record { list = l; queue = q; status = count; wait = pos 3000; at = head sl.finish }

  -- What `getmessage` gave.
  unfoldable pub dispatch : Readings → Option (ℕ × ℕ) × Q → Runner Q → Runner Q
  unfolding process_message
  dispatch k (none, jobs) r = record r { queue = record r.queue { jobs = jobs }; at = updating }
  dispatch k (some (id, address), jobs) r = record r {
    list = process_message id address k.noted k.now r.list;
    queue = record r.queue { jobs = jobs };
  }

  unfoldable pub drain_step : Readings → Runner Q → Runner Q
  unfolding dispatch
  drain_step k r =
      if r.list.finish then record r { at = updating } else dispatch k (o.get r.queue.jobs) r

  unfoldable pub update_step : Readings → Runner Q → Runner Q
  unfolding run_tasks wait_ms
  update_step k r =
      let l = run_tasks k.due k.tasks r.list in
      if r.list.update
      then record r { list = l; wait = wait_ms l.next_task_run_time k.left; at = waiting }
      else record r { at = waiting }

  -- The wait ends because the semaphore was raised, which takes one from its count, or because the
  -- time is over.
  unfoldable pub wait_step : Runner Q → Runner Q
  wait_step r = record r { status = r.status - 1; at = head r.list.finish }

  unfoldable pub step_at : Place → Readings → Runner Q → Runner Q
  unfolding drain_step update_step wait_step
  step_at draining k r = drain_step k r
  step_at updating k r = update_step k r
  step_at waiting k r = wait_step r
  step_at stopped k r = r

  unfoldable pub execute_step : Readings → Runner Q → Runner Q
  unfolding step_at
  execute_step k r = step_at r.at k r

  -- The thread by itself, for `n` steps.
  unfoldable pub execute : ℕ → (ℕ → Readings) → Runner Q → Runner Q
  unfolding execute_step
  execute zero k r = r
  execute (suc n) k r = execute n (λ i. k (suc i)) (execute_step (k 0) r)
