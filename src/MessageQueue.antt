-- ===== src/MessageQueue.antt =====
-- `MessageQueue` (src/MessageQueue.h, src/MessageQueue.cpp): a `jobqueue` of the PTypes library, which is a
-- parameter here, with a semaphore that is raised with each message.
use relb.Prelude.{
  ℕ, suc, Bool, true, false, Option, none, some, List, [], ◌∷◌, ◌++◌, ◌≡◌, if◌then◌else◌,
}

-- `jobqueue::post` and `jobqueue::getmessage( 0 )`. A message is its number and its parameter.
pub record Jobs (Q : Type 0) : Type 0 where
  pub put : ℕ → ℕ → Q → Q × Bool
  pub get : Q → Option (ℕ × ℕ) × Q

-- What PTypes says of its queue: messages leave it in the order of their coming, and one that is
-- refused changes nothing.
pub record IsQueue {Q : Type 0} (o : Jobs Q) (view : Q → List (ℕ × ℕ)) : Type 0 where
  pub accepted :
      (id param : ℕ) (q : Q)
      → (o.put id param q).1 ≡ true
      → view (o.put id param q).0 ≡ view q ++ (id, param) ∷ []
  pub refused :
      (id param : ℕ) (q : Q) → (o.put id param q).1 ≡ false → view (o.put id param q).0 ≡ view q
  pub empty : (q : Q) → view q ≡ [] → ((o.get q).0 ≡ none) × (view (o.get q).1 ≡ [])
  pub first :
      (q : Q) (m : ℕ × ℕ) (ms : List (ℕ × ℕ))
      → view q ≡ m ∷ ms
      → ((o.get q).0 ≡ some m) × (view (o.get q).1 ≡ ms)

-- `trigger` tells whether `pts` points to a semaphore. The semaphore's count is an argument of the
-- operations, since it belongs to another object.
pub record MessageQueue (Q : Type 0) : Type 0 where
  pub jobs : Q
  pub trigger : Bool

-- The constructor, on an empty `jobqueue`.
unfoldable pub new : {Q : Type 0} → Q → MessageQueue Q
new jobs = record { jobs = jobs; trigger = false }

unfoldable pub set_trigger : {Q : Type 0} → Bool → MessageQueue Q → MessageQueue Q
set_trigger present q = record q { trigger = present }

-- `if( pts ) pts->post()`, on the count of the semaphore.
unfoldable pub wake : Bool → ℕ → ℕ
wake trigger count = if trigger then suc count else count

-- The result is the one of the `jobqueue`; the semaphore is raised also if that is false.
unfoldable pub post :
    {Q : Type 0} → Jobs Q → ℕ → ℕ → MessageQueue Q → ℕ → (MessageQueue Q × Bool) × ℕ
unfolding wake
post o id param q count =
    let (jobs, val) = o.put id param q.jobs in
    ((record q { jobs = jobs }, val), wake q.trigger count)
