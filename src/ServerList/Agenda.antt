-- ===== src/ServerList/Agenda.antt =====
-- The noted time of the next run while tasks are added (`addTask` of src/ServerList.cpp).
use relb.Prelude.{
  All, All_mono, All-snoc, ℕ, ◌≤◌, ◌<◌, ◌≡◌, Bool, List, [], ◌∷◌, ◌++◌, ◌≢◌, if_cases, arith,
}
use relb.ServerList.State.{TaskInfo, ServerList}
use relb.ServerList.Setup.{add_task_at, earlier}

-- No task runs before the noted time, and a time is noted as soon as there is a task.
pub record IsAgenda (sl : ServerList) : Type 0 where
  pub first : All (λ u. sl.next_task_run_time ≤ u.next_run_time) sl.tasks
  pub noted : sl.next_task_run_time ≡ 0 → sl.tasks ≡ []

earlier_bounds :
    (next run : ℕ)
    → 0 < run
    → (earlier next run ≤ run) × (0 < earlier next run) × (next ≢ 0 → earlier next run ≤ next)
unfolding earlier
earlier_bounds next run h = ground arith

added :
    (ts : List TaskInfo) (t : TaskInfo) (next : ℕ)
    → 0 < t.next_run_time
    → All (λ u. next ≤ u.next_run_time) ts
    → (next ≡ 0 → ts ≡ [])
    → All (λ u. earlier next t.next_run_time ≤ u.next_run_time) (ts ++ t ∷ [])
added [] t next h v w = ((earlier_bounds next t.next_run_time h).0, tt)
added (u ∷ ts) t next h v w =
    let (a, b, c) = earlier_bounds next t.next_run_time h in
    let set : next ≢ 0 = λ z. cc (w z) in
    All-snoc (λ x. earlier next t.next_run_time ≤ x.next_run_time) (u ∷ ts) t
      (All_mono _ _ (u ∷ ts) (λ x l. omega (arith, l, c set)) v) a

-- Adding a task keeps the noted time the first of all: when no task runs before it, and a time is noted
-- as soon as there is a task, that is still so after a task with a run at a time other than 0 is added,
-- or refused because the thread runs.
add_task_at-IsAgenda :
    (type interval run : ℕ) (fixed : Bool) (sl : ServerList)
    → 0 < run
    → IsAgenda sl
    → IsAgenda (add_task_at type interval run fixed sl).0
unfolding add_task_at
add_task_at-IsAgenda type interval run fixed sl h v =
    if_cases (λ (r : ServerList × Bool). IsAgenda r.0) sl.running v
      (record {
        first = added sl.tasks _ sl.next_task_run_time h v.first v.noted;
        noted = λ e. absurd (omega (arith, e, earlier_bounds sl.next_task_run_time run h));
      })
