-- ===== src/ServerList/LoopExamples.antt =====
-- A queue that is a list, and runs of the thread of `ServerList` with it.
use relb.Prelude.{
  ℕ, zero, suc, ◌≡◌, refl, Bool, true, false, Option, none, some, List, [], ◌∷◌, ◌++◌,
}
use relb.ServerList.State.{new}
use relb.ServerList.TaskRound.{instant}
use relb.MessageQueue.{Jobs, IsQueue, MessageQueue, wake}
use relb.ServerList.Loop.{
  updating, waiting, Runner, Readings, begin, dispatch, drain_step, update_step, wait_step, step_at,
  execute_step, execute,
}
use relb.ServerList.Drained.{process_all, execute-drained}
use relb.ServerList.Wake.{System, Step, Reach, posted, no_lost_wakeup}

abbrev shift : List (ℕ × ℕ) → Option (ℕ × ℕ) × List (ℕ × ℕ)
shift [] = (none, [])
shift (m ∷ ms) = (some m, ms)

-- A queue of at most two messages.
abbrev push : ℕ → ℕ → List (ℕ × ℕ) → List (ℕ × ℕ) × Bool
push id param (a ∷ b ∷ q) = (a ∷ b ∷ q, false)
push id param q = (q ++ (id, param) ∷ [], true)

abbrev jobs : Jobs (List (ℕ × ℕ))
jobs = record { put = push; get = shift }

abbrev view : List (ℕ × ℕ) → List (ℕ × ℕ)
view q = q

accepts :
    (id param : ℕ) (q : List (ℕ × ℕ))
    → (push id param q).1 ≡ true
    → (push id param q).0 ≡ q ++ (id, param) ∷ []
accepts id param [] e = refl
accepts id param (a ∷ []) e = refl
accepts id param (a ∷ b ∷ q) e = cc

refuses : (id param : ℕ) (q : List (ℕ × ℕ)) → (push id param q).1 ≡ false → (push id param q).0 ≡ q
refuses id param [] e = cc
refuses id param (a ∷ []) e = cc
refuses id param (a ∷ b ∷ q) e = refl

jobs-IsQueue : IsQueue jobs view
jobs-IsQueue = record {
  accepted = accepts;
  refused = refuses;
  empty = λ q e. rw e (refl, refl);
  first = λ q m ms e. rw e (refl, refl);
}

abbrev at_noon : Readings
at_noon = record { noted = 300; now = 301; due = 302; tasks = λ _. instant 303; left = 304 }

-- A queue with a trigger.
abbrev queue : List (ℕ × ℕ) → MessageQueue (List (ℕ × ℕ))
queue ms = record { jobs = ms; trigger = true }

abbrev fresh : Runner (List (ℕ × ℕ))
fresh = begin jobs (new 100) (queue []) 0

-- A message is put into the queue and the semaphore raised, and then the thread runs.
abbrev told : Runner (List (ℕ × ℕ))
told = record (posted jobs 4 1 fresh) { status = wake true 0 }

abbrev steps : ℕ → Runner (List (ℕ × ℕ)) → Runner (List (ℕ × ℕ))
steps zero r = r
steps (suc n) r = steps n (execute_step jobs at_noon r)

abbrev reach_steps :
    (n : ℕ) {s : System (List (ℕ × ℕ))} (r : Runner (List (ℕ × ℕ)))
    → Reach jobs s (record { runner = r; posting = 0 })
    → Reach jobs s (record { runner = steps n r; posting = 0 })
reach_steps zero r p = p
reach_steps (suc n) r p =
    reach_steps n (execute_step jobs at_noon r) (Reach.next p (Step.run at_noon))

-- It handles the message, finds the queue empty, and waits; it is woken, finds nothing, and waits.
abbrev asleep : Runner (List (ℕ × ℕ))
asleep = steps 6 told

told_reached :
    Reach jobs (record { runner = fresh; posting = 0 }) (record { runner = told; posting = 0 })
told_reached = unfold begin in Reach.next (Reach.next Reach.here (Step.put 4 1)) (Step.raise 0 refl)

asleep_waits : (asleep.at ≡ waiting) × (asleep.list.finish ≡ false) × (asleep.status ≡ 0)
unfolding begin new wake execute_step step_at drain_step dispatch update_step wait_step
asleep_waits = (refl, refl, refl)

no_lost_wakeup_example : asleep.queue.jobs ≡ []
no_lost_wakeup_example =
    no_lost_wakeup jobs view jobs-IsQueue (new 100) (queue []) 0 0
      (record { runner = asleep; posting = 0 }) refl (reach_steps 6 told told_reached)
      asleep_waits.0 asleep_waits.1 asleep_waits.2 refl

abbrev full : Runner (List (ℕ × ℕ))
full = begin jobs (new 100) (queue ((4, 1) ∷ (8, 1) ∷ [])) 2

execute-drained_example :
    let after = execute jobs 3 (λ _. at_noon) full in
    (after.at ≡ updating)
    × (after.queue.jobs ≡ [])
    × (after.list ≡ process_all (λ _. at_noon) ((4, 1) ∷ (8, 1) ∷ []) full.list)
execute-drained_example =
    execute-drained jobs view jobs-IsQueue ((4, 1) ∷ (8, 1) ∷ []) (λ _. at_noon) full
      (unfold begin new in refl) (unfold begin new in refl) (unfold begin in refl)
