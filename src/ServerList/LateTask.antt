-- ===== src/ServerList/LateTask.antt =====
-- A run that a round over the tasks (`ServerList::execute` of src/ServerList.cpp) loses sight of.
use relb.Prelude.{
  ℕ, suc, ◌+◌, ◌*◌, ◌≤◌, ◌<◌, ◌≡◌, ◌≢◌, refl, ◌∙◌, Bool, true, false, List, [], ◌∷◌, arith,
}
use relb.ServerList.State.{TaskInfo, ServerList}
use relb.ServerList.Tasks.{reschedule, note_run, run_task, task_loop, run_tasks}
use relb.ServerList.TaskRound.{instant, run_task-next}

module _ (now : ℕ) (a b c : TaskInfo) where
  run_repeating :
      (sl : ServerList)
      → 0 < a.run_interval_seconds
      → a.fixed_time ≡ false
      → a.next_run_time ≤ now
      → ((run_task (instant now) a sl).0.1 ≡ false)
        × ((run_task (instant now) a sl).0.0.next_run_time ≡ now + 1000 * a.run_interval_seconds)
  unfolding run_task reschedule
  run_repeating sl h r d = ground arith

  run_once :
      (sl : ServerList)
      → b.run_interval_seconds ≡ 0
      → b.next_run_time ≤ now
      → ((run_task (instant now) b sl).0.1 ≡ true)
        × ((run_task (instant now) b sl).0.0.next_run_time ≡ b.next_run_time)
  unfolding run_task reschedule
  run_once sl z d = ground arith

  run_later :
      (sl : ServerList) → now < c.next_run_time → run_task (instant now) c sl ≡ ((c, false), sl)
  unfolding run_task
  run_later sl d = ground arith

  -- The state after one of the tasks.
  abbrev noted : TaskInfo → ServerList → ServerList
  noted t sl =
      let ran = run_task (instant now) t sl in
      record ran.1 { next_task_run_time = note_run (instant now) ran.0.0 ran.1.next_task_run_time }

  noted_stale :
      (t : TaskInfo) (sl : ServerList)
      → sl.next_task_run_time ≤ now
      → (noted t sl).next_task_run_time ≡ (run_task (instant now) t sl).0.0.next_run_time
  unfolding note_run
  noted_stale t sl h = ground (arith, run_task-next (instant now) t sl)

  noted_earlier :
      (t : TaskInfo) (sl : ServerList)
      → (run_task (instant now) t sl).0.0.next_run_time < sl.next_task_run_time
      → (noted t sl).next_task_run_time ≡ (run_task (instant now) t sl).0.0.next_run_time
  unfolding note_run
  noted_earlier t sl h = ground (arith, run_task-next (instant now) t sl)

  after_kept :
      (i : ℕ) (kept : Bool) (t : TaskInfo) (ts : List TaskInfo) (sl : ServerList)
      → (run_task (instant now) t sl).0.1 ≡ false
      → (task_loop (λ _. instant now) i kept (t ∷ ts) sl).1
        ≡ (task_loop (λ _. instant now) (suc i) true ts (noted t sl)).1
  unfolding task_loop
  after_kept i true t ts sl e = ground (arith, e)
  after_kept i false t ts sl e = ground (arith, e)

  after_over :
      (i : ℕ) (t : TaskInfo) (ts : List TaskInfo) (sl : ServerList)
      → (run_task (instant now) t sl).0.1 ≡ true
      → (task_loop (λ _. instant now) i true (t ∷ ts) sl).1
        ≡ (task_loop (λ _. instant now) (suc i) true ts (noted t sl)).1
  unfolding task_loop
  after_over i t ts sl e = ground (arith, e)

  three_rounds :
      (sl : ServerList)
      → (run_task (instant now) a sl).0.1 ≡ false
      → (run_task (instant now) b (noted a sl)).0.1 ≡ true
      → (run_task (instant now) c (noted b (noted a sl))).0.1 ≡ false
      → (task_loop (λ _. instant now) 0 false (a ∷ b ∷ c ∷ []) sl).1
        ≡ noted c (noted b (noted a sl))
  three_rounds sl ka kb kc =
      after_kept 0 false a (b ∷ c ∷ []) sl ka
      ∙ after_over 1 b (c ∷ []) (noted a sl) kb
      ∙ after_kept 2 true c [] (noted b (noted a sl)) kc
      ∙ (unfold task_loop in refl)

  -- Three tasks: one that repeats at an interval and is due, one that runs once and is due, and one
  -- that is due later than the first will be again. After a round in one instant, for which the
  -- noted time has come, the noted time is that of the third task: the next run of the first is
  -- forgotten.
  pub run_tasks_late :
      (sl : ServerList)
      → sl.tasks ≡ a ∷ b ∷ c ∷ []
      → sl.next_task_run_time ≢ 0
      → sl.next_task_run_time ≤ now
      → 0 < a.run_interval_seconds
      → a.fixed_time ≡ false
      → a.next_run_time ≤ now
      → b.run_interval_seconds ≡ 0
      → b.next_run_time ≤ now
      → now + 1000 * a.run_interval_seconds < c.next_run_time
      → (run_tasks now (λ _. instant now) sl).next_task_run_time ≡ c.next_run_time
  unfolding run_tasks
  run_tasks_late sl e set due ia ra da ib db lc =
      let (ka, na) = run_repeating sl ia ra da in
      let (kb, nb) = run_once (noted a sl) ib db in
      let d = run_later (noted b (noted a sl)) (omega arith) in
      let la = noted_stale a sl due in
      let lb : (noted b (noted a sl)).next_task_run_time ≡ b.next_run_time =
        omega (arith, noted_earlier b (noted a sl) (omega (arith, nb, la, na)), nb) in
      let lz = noted_stale c (noted b (noted a sl)) (omega (arith, lb)) in
      ground (arith, e, three_rounds sl ka kb (ground (arith, d)), lz, d)
