-- ===== src/Connection/Buffer.antt =====
-- One direction of a connection: the array of STAMBUFFERSOCKET bytes with its two offsets and two
-- counts (src/ConnectionPeer.h, used in src/ConnectionPeer.cpp).
use relb.Prelude.{
  ℕ, zero, suc, ◌+◌, ◌-◌, ◌≤◌, ◌<◌, ◌≡◌, refl, ap, ◌∙◌, not, ◌&&◌, List, [], ◌∷◌, ◌++◌, length,
  ◌==◌, if◌then◌else◌, arith,
}
use native.Mathlib.Nat.{suc-add, add-suc, add-zero, zero-add}

abbrev pub capacity : ℕ
capacity = 16384

pub record Buffer : Type 0 where
  pub cells : ℕ → ℕ
  pub w_offset : ℕ
  pub r_offset : ℕ
  pub bytes_to_receive : ℕ
  pub bytes_to_send : ℕ

abbrev put : (ℕ → ℕ) → ℕ → ℕ → ℕ → ℕ
put cells i x j = if j == i then x else cells j

-- `recv` writes its bytes from the given offset on.
write : (ℕ → ℕ) → ℕ → List ℕ → ℕ → ℕ
write cells w [] = cells
write cells w (x ∷ xs) = write (put cells w x) (suc w) xs

slice : (ℕ → ℕ) → ℕ → ℕ → List ℕ
slice cells r zero = []
slice cells r (suc n) = cells r ∷ slice cells (suc r) n

-- The bytes received and not yet sent, oldest first.
unfoldable pub pending : Buffer → List ℕ
unfolding slice
pending b = slice b.cells b.r_offset b.bytes_to_send

-- The constructor's values, and those that a close sets again.
unfoldable pub reset : Buffer → Buffer
reset b = record b { w_offset = 0; r_offset = 0; bytes_to_receive = capacity; bytes_to_send = 0 }

-- After `recv` delivered `xs`.
unfoldable pub store : Buffer → List ℕ → Buffer
unfolding write
store b xs = record b {
  cells = write b.cells b.w_offset xs;
  w_offset = b.w_offset + length xs;
  bytes_to_send = b.bytes_to_send + length xs;
  bytes_to_receive = b.bytes_to_receive - length xs;
}

-- After `send` accepted `n` bytes: an emptied buffer starts over.
unfoldable pub drain : Buffer → ℕ → Buffer
drain b n =
    let left = b.bytes_to_send - n in
    if not (b.w_offset == 0) && left == 0
    then record b { w_offset = 0; r_offset = 0; bytes_to_receive = capacity; bytes_to_send = left }
    else record b { r_offset = b.r_offset + n; bytes_to_send = left }

-- The offsets delimit the pending bytes, the space offered to `recv` ends with the array, and a buffer
-- without pending bytes has all its space.
pub record IsValid (b : Buffer) : Type 0 where
  pub space : b.w_offset + b.bytes_to_receive ≡ capacity
  pub content : b.r_offset + b.bytes_to_send ≡ b.w_offset
  pub all_space : b.bytes_to_send ≡ 0 → b.w_offset ≡ 0

pub reset-IsValid : (b : Buffer) → IsValid (reset b)
unfolding reset
reset-IsValid b = ground arith

pub store-IsValid :
    (b : Buffer) (xs : List ℕ) → length xs ≤ b.bytes_to_receive → IsValid b → IsValid (store b xs)
unfolding store
store-IsValid b xs h v = ground arith

pub drain-IsValid : (b : Buffer) (n : ℕ) → n ≤ b.bytes_to_send → IsValid b → IsValid (drain b n)
unfolding drain
drain-IsValid b n h v = ground arith

write_below : (c : ℕ → ℕ) (w j : ℕ) (xs : List ℕ) → j < w → write c w xs j ≡ c j
unfolding write
write_below c w j [] h = refl
write_below c w j (x ∷ xs) h = ground (arith, write_below (put c w x) (suc w) j xs)

slice_cong : (c d : ℕ → ℕ) (r n : ℕ) → ((j : ℕ) → j < r + n → c j ≡ d j) → slice c r n ≡ slice d r n
unfolding slice
slice_cong c d r zero h = refl
slice_cong c d r (suc n) h =
    ground (arith, h r (omega arith), slice_cong c d (suc r) n (λ j lt. h j (omega arith)))

slice-add : (c : ℕ → ℕ) (r n m : ℕ) → slice c r (n + m) ≡ slice c r n ++ slice c (r + n) m
unfolding slice
slice-add c r zero m = rw (add-zero, zero-add)
slice-add c r (suc n) m =
    rw (suc-add, add-suc, ← suc-add r n) (ap (◌∷◌ (c r)) (slice-add c (suc r) n m))

slice-write_self : (c : ℕ → ℕ) (w : ℕ) (xs : List ℕ) → slice (write c w xs) w (length xs) ≡ xs
unfolding slice write
slice-write_self c w [] = refl
slice-write_self c w (x ∷ xs) =
    ground (arith, slice-write_self (put c w x) (suc w) xs, write_below (put c w x) (suc w) w xs)

-- What `recv` delivers into a well formed buffer goes behind the bytes that wait, whatever the
-- offsets.
pub pending-store : (b : Buffer) (xs : List ℕ) → IsValid b → pending (store b xs) ≡ pending b ++ xs
unfolding pending store
pending-store b xs v =
    slice-add _ b.r_offset b.bytes_to_send (length xs)
    ∙ ground (
      arith,
      v.content,
      slice_cong (write b.cells b.w_offset xs) b.cells b.r_offset b.bytes_to_send
          (λ j lt. write_below b.cells b.w_offset j xs (omega (arith, v.content))),
      slice-write_self b.cells b.w_offset xs,
    )

slice-split : (c : ℕ → ℕ) (r s n : ℕ) → n ≤ s → slice c r s ≡ slice c r n ++ slice c (r + n) (s - n)
slice-split c r s n h =
    ap (slice c r) {x = s} {y = n + (s - n)} (omega arith) ∙ slice-add c r n (s - n)

slice-none : (c : ℕ → ℕ) (r s n : ℕ) → s - n ≡ 0 → slice c (r + n) (s - n) ≡ slice c 0 (s - n)
unfolding slice
slice-none c r s n e = rw e

-- The first `n` pending bytes, which `send` accepts.
pub sent : Buffer → ℕ → List ℕ
sent b n = slice b.cells b.r_offset n

-- The bytes that `send` accepts, no more than wait, are the first of those that wait, and the rest
-- waits in its order.
pub pending-drain :
    (b : Buffer) (n : ℕ) → n ≤ b.bytes_to_send → pending b ≡ sent b n ++ pending (drain b n)
unfolding pending drain sent
pending-drain b n h =
    slice-split b.cells b.r_offset b.bytes_to_send n h
    ∙ ground (arith, slice-none b.cells b.r_offset b.bytes_to_send n)

pub pending-reset : (b : Buffer) → pending (reset b) ≡ []
unfolding pending reset
pending-reset b = refl
