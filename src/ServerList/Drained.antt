-- ===== src/ServerList/Drained.antt =====
-- The inner loop of `ServerList::execute` (src/ServerList.cpp) empties the queue.
use relb.Prelude.{ℕ, suc, ◌≡◌, ap, ◌∙◌, false, List, [], ◌∷◌, length, arith}
use relb.ServerList.State.{ServerList}
use relb.ServerList.Messages.{process_message}
use relb.MessageQueue.{Jobs, IsQueue}
use relb.ServerList.Loop.{
  draining, updating, Runner, Readings, dispatch, drain_step, step_at, execute_step, execute,
}
use relb.ServerList.Finish.{process_message-finish}

-- The messages one after another, each with its own readings of the clock.
unfoldable pub process_all : (ℕ → Readings) → List (ℕ × ℕ) → ServerList → ServerList
process_all k [] sl = sl
process_all k ((id, address) ∷ ms) sl =
    process_all (λ i. k (suc i)) ms (process_message id address (k 0).noted (k 0).now sl)

module _ {Q : Type 0} (o : Jobs Q) (view : Q → List (ℕ × ℕ)) (v : IsQueue o view) where
  -- The queue is empty.
  drain_last :
      (k : Readings) (r : Runner Q)
      → r.at ≡ draining
      → r.list.finish ≡ false
      → view r.queue.jobs ≡ []
      → ((execute_step o k r).at ≡ updating)
        × (view (execute_step o k r).queue.jobs ≡ [])
        × ((execute_step o k r).list ≡ r.list)
  unfolding execute_step step_at drain_step dispatch
  drain_last k r place on e = ground (arith, v.empty r.queue.jobs e)

  -- One message.
  drain_one :
      (k : Readings) (r : Runner Q) (id address : ℕ) (ms : List (ℕ × ℕ))
      → r.at ≡ draining
      → r.list.finish ≡ false
      → view r.queue.jobs ≡ (id, address) ∷ ms
      → ((execute_step o k r).at ≡ draining)
        × (view (execute_step o k r).queue.jobs ≡ ms)
        × ((execute_step o k r).list ≡ process_message id address k.noted k.now r.list)
  unfolding execute_step step_at drain_step dispatch
  drain_one k r id address ms place on e = ground (arith, v.first r.queue.jobs (id, address) ms e)

  -- From the call of `getmessage` on, if the thread is not to end and no message comes meanwhile, as many
  -- steps as messages wait, and one more, empty the queue: each message is processed, in the order of
  -- their coming, and the thread goes on to the tasks.
  pub execute-drained :
      (ms : List (ℕ × ℕ)) (k : ℕ → Readings) (r : Runner Q)
      → r.at ≡ draining
      → r.list.finish ≡ false
      → view r.queue.jobs ≡ ms
      → let after = execute o (suc (length ms)) k r in
        (after.at ≡ updating)
        × (view after.queue.jobs ≡ [])
        × (after.list ≡ process_all k ms r.list)
  unfolding execute process_all
  execute-drained [] k r place on e = drain_last (k 0) r place on e
  execute-drained ((id, address) ∷ ms) k r place on e =
      let (a, b, c) = drain_one (k 0) r id address ms place on e in
      let finish =
        ap (λ (l : ServerList). l.finish) c
        ∙ process_message-finish id address (k 0).noted (k 0).now r.list
        ∙ on in
      let (d, f, g) = execute-drained ms (λ i. k (suc i)) (execute_step o (k 0) r) a finish b in
      (d, f, g ∙ ap (process_all (λ i. k (suc i)) ms) c)
