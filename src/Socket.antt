-- ===== src/Socket.antt =====
-- The non-blocking socket of src/Socket.cpp. The system calls `recv` and `send` are outside the
-- program: what a call reports is the argument `Reply`, with the bytes delivered or their number.
use relb.Prelude.{
  ℕ, ◌≤◌, ◌<◌, ◌≡◌, Bool, true, false, List, ◌∷◌, length, ◌==◌, if◌then◌else◌, arith,
}
use relb.Prelude.Int.{ℤ, pos, negsuc, ltb_ℤ}

-- `sock > 0` is a descriptor that is open; `close` stores -1.
pub record Socket : Type 0 where
  pub open_fd : Bool
  pub fd : ℕ

-- What the system call reports: an amount that is not negative, EAGAIN or EWOULDBLOCK, any other
-- error.
pub data Reply (A : Type 0) : Type 0 where
  amount : A → Reply A
  would_block : Reply A
  failure : Reply A

-- The return values > 0, 0, -1 and -2.
pub data Outcome (A : Type 0) : Type 0 where
  moved : A → Outcome A
  blocked : Outcome A
  broken : Outcome A
  peer_closed : Outcome A

unfoldable pub close : Socket → Socket
close s = record s { open_fd = false }

classify : {A : Type 0} → (A → ℕ) → Socket → Reply A → Socket × Outcome A
unfolding close
classify size s (amount a) = if size a == 0 then (close s, peer_closed) else (s, moved a)
classify size s would_block = (s, blocked)
classify size s failure = (close s, broken)

unfoldable pub receive_nb : Socket → (ℕ → Reply (List ℕ)) → ℕ → Socket × Outcome (List ℕ)
unfolding classify
receive_nb s recv max = if s.open_fd then classify length s (recv max) else (s, broken)

unfoldable pub send_nb : Socket → (ℕ → Reply ℕ) → ℕ → Socket × Outcome ℕ
unfolding classify
send_nb s send max = if s.open_fd then classify (λ n. n) s (send max) else (s, broken)

-- What the manual says of `recv` and `send`: they move at most what the caller asks for.
abbrev pub AtMost : {A : Type 0} → (A → ℕ) → ℕ → Reply A → Type 0
AtMost size max (amount a) = size a ≤ max
AtMost size max would_block = Unit {0}
AtMost size max failure = Unit {0}

abbrev pub Bounded : {A : Type 0} → (A → ℕ) → (ℕ → Reply A) → Type 0
Bounded size call = (max : ℕ) → AtMost size max (call max)

-- `isInFDSET`: never for a socket that is closed.
unfoldable pub is_in_fdset : Socket → Bool → Bool
is_in_fdset s ready = if s.open_fd then ready else false

-- The number in `sock`.
abbrev pub descriptor : Socket → ℤ
descriptor s = if s.open_fd then pos s.fd else negsuc 0

-- The descriptors of a set, and the highest one for `select`.
unfoldable pub add_to_fdset : Socket → List ℤ × ℤ → List ℤ × ℤ
add_to_fdset s (set, max) =
    (descriptor s ∷ set, if ltb_ℤ max (descriptor s) then descriptor s else max)

-- `checkSocket` below 0: a socket that is closed, or one that `select` refuses.
unfoldable pub check_failed : Socket → Bool → Bool
check_failed s refused = if s.open_fd then refused else true

-- What an outcome says of the socket that is left: it is open after bytes were moved, at least one
-- of them, or when nothing could be; and it is closed after the other two.
abbrev pub Explains : {A : Type 0} → (A → ℕ) → Socket × Outcome A → Type 0
Explains size (s, moved a) = (s.open_fd ≡ true) × (0 < size a)
Explains size (s, blocked) = s.open_fd ≡ true
Explains size (s, broken) = s.open_fd ≡ false
Explains size (s, peer_closed) = s.open_fd ≡ false

classify-Explains :
    {A : Type 0} (size : A → ℕ) (s : Socket) (r : Reply A)
    → Explains size (if s.open_fd then classify size s r else (s, broken))
unfolding classify
classify-Explains size s (amount a) = ground arith
classify-Explains size s would_block = ground arith
classify-Explains size s failure = ground arith

-- The outcome of `receiveNB` tells the state of the socket that it leaves: open after a read of at
-- least one byte or a read that would block, closed after an error or the end of the stream.
pub receive_nb-Explains :
    (s : Socket) (recv : ℕ → Reply (List ℕ)) (max : ℕ) → Explains length (receive_nb s recv max)
unfolding receive_nb
receive_nb-Explains s recv max = classify-Explains length s (recv max)

-- The outcome of `sendNB` tells the state of the socket that it leaves: open after at least one
-- byte was sent or a call that would block, closed after an error or when nothing was accepted.
pub send_nb-Explains :
    (s : Socket) (send : ℕ → Reply ℕ) (max : ℕ) → Explains (λ n. n) (send_nb s send max)
unfolding send_nb
send_nb-Explains s send max = classify-Explains (λ n. n) s (send max)
