-- ===== src/ServerList/Wake.antt =====
-- The thread of `ServerList` and the threads that post to it, in any order of their steps
-- (`ServerList::execute` of src/ServerList.cpp, `MessageQueue::post` of src/MessageQueue.cpp).
use relb.Prelude.{
  ℕ, suc, ◌+◌, ◌≤◌, ◌≡◌, refl, ◌∙◌, Bool, true, false, List, [], ◌∷◌, inl, inr, length,
  length-append, Bool-cases, List-cases, arith,
}
use relb.ServerList.State.{ServerList}
use relb.MessageQueue.{Jobs, IsQueue, MessageQueue, wake}
use relb.ServerList.Loop.{
  Place, draining, updating, waiting, stopped, Runner, Readings, begin, dispatch, drain_step,
  update_step, wait_step, step_at, execute_step,
}
use relb.ServerList.Finish.{run_tasks-finish}

no_more {ℓ} : {A : Type ℓ} (xs : List A) → length xs ≡ 0 → xs ≡ []
no_more [] h = refl
no_more (x ∷ xs) h = absurd (omega (arith, h))

-- Between the inner loop and the test of the outer one.
abbrev is_behind : Place → Bool
is_behind draining = false
is_behind updating = true
is_behind waiting = true
is_behind stopped = false

-- `posting` is how many threads stand in `post` between the `jobqueue` and the semaphore.
pub record System (Q : Type 0) : Type 0 where
  pub runner : Runner Q
  pub posting : ℕ

module _ {Q : Type 0} (o : Jobs Q) where
  -- What a thread does to the queue in the first part of `post`.
  abbrev pub posted : ℕ → ℕ → Runner Q → Runner Q
  posted id param r = record r { queue = record r.queue { jobs = (o.put id param r.queue.jobs).0 } }

  -- A step of the thread; the two parts of `post`; `startUpdating`, which raises the semaphore too; and what another thread
  -- does to the list, which does not take `finish` back.
  pub data Step (s : System Q) : System Q → Type 0 where
    run : (k : Readings) → Step s (record s { runner = execute_step o k s.runner })
    put :
        (id param : ℕ)
        → Step s (record { runner = posted id param s.runner; posting = suc s.posting })
    raise :
        (n : ℕ)
        → s.posting ≡ suc n
        → Step s (record {
          runner = record s.runner { status = wake s.runner.queue.trigger s.runner.status };
          posting = n;
        })
    change :
        (sl : ServerList)
        → (s.runner.list.finish ≡ true → sl.finish ≡ true)
        → Step s (record s { runner = record s.runner { list = sl } })

  pub data Reach (s : System Q) : System Q → Type 0 where
    here : Reach s s
    next : {t u : System Q} → Reach s t → Step t u → Reach s u

  module _ (view : Q → List (ℕ × ℕ)) (v : IsQueue o view) where
    -- Behind the inner loop, if the thread goes on, each message that waits has raised the semaphore,
    -- or is about to.
    abbrev Covers : Runner Q → ℕ → Type 0
    Covers r n =
        is_behind r.at ≡ true → r.list.finish ≡ false → length (view r.queue.jobs) ≤ r.status + n

    pub record IsCovered (s : System Q) : Type 0 where
      pub trigger : s.runner.queue.trigger ≡ true
      pub covered : Covers s.runner s.posting

    drain-Covers :
        (k : Readings) (r : Runner Q) (n : ℕ) → r.at ≡ draining → Covers (drain_step o k r) n
    unfolding drain_step dispatch
    drain-Covers k r n e = elim (List-cases (view r.queue.jobs)) [
      | inl none_waits ↦ λ b f. ground (arith, v.empty r.queue.jobs none_waits)
      | inr (m, ms, waits) ↦ λ b f. ground (arith, v.first r.queue.jobs m ms waits)
    ]

    update-Covers :
        (k : Readings) (r : Runner Q) (n : ℕ)
        → Covers (record r { at = waiting }) n
        → Covers (update_step o k r) n
    unfolding update_step
    update-Covers k r n c = λ b f. ground (arith, run_tasks-finish k.due k.tasks r.list, c refl)

    step-Covers :
        (p : Place) (k : Readings) (r : Runner Q) (n : ℕ)
        → r.at ≡ p
        → Covers r n
        → Covers (step_at o p k r) n
    unfolding step_at
    step-Covers draining k r n e c = drain-Covers k r n e
    step-Covers updating k r n e c = update-Covers k r n (λ b f. c (rw e refl) f)
    step-Covers waiting k r n e c = unfold wait_step in λ b f. ground arith
    step-Covers stopped k r n e c = c

    step-trigger :
        (k : Readings) (r : Runner Q) → (execute_step o k r).queue.trigger ≡ r.queue.trigger
    unfolding execute_step step_at drain_step dispatch update_step wait_step
    step-trigger k r = ground arith

    put_length : (id param : ℕ) (q : Q) → length (view (o.put id param q).0) ≤ suc (length (view q))
    put_length id param q = elim (Bool-cases (o.put id param q).1) [
      | inl accepted ↦
          rw (v.accepted id param q accepted)
            (omega (arith, length-append (view q) ((id, param) ∷ [])))
      | inr refused ↦ rw (v.refused id param q refused) (omega arith)
    ]

    Step-IsCovered : {s t : System Q} → Step s t → IsCovered s → IsCovered t
    Step-IsCovered {s} (run k) c = record {
      trigger = step-trigger k s.runner ∙ c.trigger;
      covered = unfold execute_step in step-Covers s.runner.at k s.runner s.posting refl c.covered;
    }
    Step-IsCovered {s} (put id param) c = record {
      trigger = c.trigger;
      covered = λ b f. omega (arith, put_length id param s.runner.queue.jobs, c.covered b f);
    }
    Step-IsCovered {s} (raise n e) c = record {
      trigger = c.trigger;
      covered = λ b f. unfold wake in ground (arith, c.trigger, c.covered b f);
    }
    Step-IsCovered {s} (change sl keeps) c = record {
      trigger = c.trigger;
      covered = λ b f. elim (Bool-cases s.runner.list.finish) [
        | inl over ↦ cc (keeps over)
        | inr on ↦ c.covered b on
      ];
    }

    Reach-IsCovered : {s t : System Q} → IsCovered s → Reach s t → IsCovered t
    Reach-IsCovered c here = c
    Reach-IsCovered c (next r st) = Step-IsCovered st (Reach-IsCovered c r)

    begin-IsCovered :
        (sl : ServerList) (q : MessageQueue Q) (count posting : ℕ)
        → q.trigger ≡ true
        → IsCovered (record { runner = begin o sl q count; posting = posting })
    unfolding begin
    begin-IsCovered sl q count posting e = record { trigger = e; covered = λ b f. ground arith }

    -- However the steps of the thread and of those that post or change the list follow one another: when the thread
    -- sleeps, the semaphore is not raised and no thread is within `post`, no message waits, unless
    -- the thread is to end.
    pub no_lost_wakeup :
        (sl : ServerList) (q : MessageQueue Q) (count posting : ℕ) (s : System Q)
        → q.trigger ≡ true
        → Reach (record { runner = begin o sl q count; posting = posting }) s
        → s.runner.at ≡ waiting
        → s.runner.list.finish ≡ false
        → s.runner.status ≡ 0
        → s.posting ≡ 0
        → view s.runner.queue.jobs ≡ []
    no_lost_wakeup sl q count posting s e r place on low none_posts =
        let c = Reach-IsCovered (begin-IsCovered sl q count posting e) r in
        no_more (view s.runner.queue.jobs) (omega (arith, c.covered (rw place refl) on))
