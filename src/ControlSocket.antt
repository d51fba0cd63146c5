-- ===== src/ControlSocket.antt =====
-- `ControlSocket` (src/ControlSocket.cpp) as it is built for Unix: a pipe whose read end stands in the set of
-- `select`, so that a byte written to it wakes the thread. The pipe itself is a parameter.
use relb.Prelude.{
  ℕ, zero, suc, ◌+◌, ◌≤◌, ◌<◌, ◌≡◌, refl, ◌∙◌, Bool, true, false, ◌&&◌, ◌||◌, [], Option, none,
  some, List, ◌∷◌, if◌then◌else◌, ltb, arith,
}
use relb.Prelude.Int.{ℤ, pos, negsuc, ltb_ℤ, leb_ℤ}

-- `write` and `read` of one byte, on the state of a pipe; the result is what the call returns.
pub record Pipes (K : Type 0) : Type 0 where
  pub write : ℤ → K → K × ℤ
  pub read : ℤ → K → K × ℤ

-- What the manual says of the pipe with the ends `r` and `w`, while both are open and there is room: a byte
-- that is written to `w` waits until it is read from `r`.
pub record IsPipe {K : Type 0} (o : Pipes K) (waiting : K → ℕ) (room : ℕ) (r w : ℤ) : Type 0 where
  pub written : (k : K) → waiting k < room → waiting (o.write w k).0 ≡ suc (waiting k)
  pub taken :
      (k : K) (n : ℕ) → waiting k ≡ suc n → (waiting (o.read r k).0 ≡ n) × ((o.read r k).1 ≡ pos 1)

pub record ControlSocket : Type 0 where
  pub read_end : ℤ
  pub write_end : ℤ

-- What `pipe` gives; both ends are -1 if it fails.
unfoldable pub new : Option (ℤ × ℤ) → ControlSocket
new none = record { read_end = negsuc 0; write_end = negsuc 0 }
new (some (r, w)) = record { read_end = r; write_end = w }

-- The set gets the read end, if it is open, and the highest descriptor is kept.
unfoldable pub add_to_fdset : ControlSocket → List ℤ × ℤ → List ℤ × ℤ
add_to_fdset c (set, max) =
    if ltb_ℤ (pos 0) c.read_end
    then (c.read_end ∷ set, if ltb_ℤ max c.read_end then c.read_end else max)
    else (set, max)

-- `FD_ISSET`.
abbrev pub same_ℤ : ℤ → ℤ → Bool
same_ℤ a b = leb_ℤ a b && leb_ℤ b a

abbrev pub contains : ℤ → List ℤ → Bool
contains fd [] = false
contains fd (x ∷ xs) = same_ℤ x fd || contains fd xs

same_ℤ_refl : (a : ℤ) → same_ℤ a a ≡ true
same_ℤ_refl a = ground arith

module _ {K : Type 0} (o : Pipes K) where
  -- The result of `write` is only traced.
  unfoldable pub post : ControlSocket → K → K
  post c k = (o.write c.write_end k).0

  -- `ready` is whether the read end is in the set that `select` left.
  unfoldable pub check_socket : ControlSocket → Bool → K → K × ℤ
  check_socket c ready k = if ready then o.read c.read_end k else (k, pos 0)

  -- Other threads post `n` times.
  unfoldable pub posts : ℕ → ControlSocket → K → K
  unfolding post
  posts zero c k = k
  posts (suc n) c k = posts n c (post c k)

  module _ (waiting : K → ℕ) where
    -- `select` is asked about the socket that the set gets, and finds the read end ready while a byte
    -- waits in the pipe.
    unfoldable pub woken : ControlSocket → K → Bool
    unfolding add_to_fdset
    woken c k = contains c.read_end (add_to_fdset c ([], pos 0)).0 && ltb 0 (waiting k)

    -- The thread wakes while `select` finds something, at most `fuel` times; the number of times.
    unfoldable pub wakes : ℕ → ControlSocket → K → ℕ × K
    unfolding check_socket woken
    wakes zero c k = (0, k)
    wakes (suc fuel) c k =
        let more = wakes fuel c (check_socket c true k).0 in
        if woken c k then (suc more.0, more.1) else (0, k)

    module _ (room : ℕ) (r w : ℤ) (v : IsPipe o waiting room r w)
        (above : ltb_ℤ (pos 0) r ≡ true) where
      posts-waiting :
          (n : ℕ) (k : K)
          → waiting k + n ≤ room
          → waiting (posts n (new (some (r, w))) k) ≡ waiting k + n
      unfolding posts post new
      posts-waiting zero k h = omega arith
      posts-waiting (suc n) k h =
          let one = v.written k (omega (arith, h)) in
          posts-waiting n (o.write w k).0 (omega (arith, one, h)) ∙ omega (arith, one)

      woken-new : (k : K) → woken (new (some (r, w))) k ≡ ltb 0 (waiting k)
      unfolding new woken add_to_fdset
      woken-new k = rw (above, same_ℤ_refl r) refl

      wakes-waiting :
          (fuel : ℕ) (k : K) (n : ℕ)
          → waiting k ≡ n
          → n ≤ fuel
          → ((wakes fuel (new (some (r, w))) k).0 ≡ n)
            × (waiting (wakes fuel (new (some (r, w))) k).1 ≡ 0)
      unfolding wakes check_socket new
      wakes-waiting zero k zero e h = (refl, e)
      wakes-waiting zero k (suc n) e h = absurd (omega (arith, h))
      wakes-waiting (suc fuel) k zero e h = ground (arith, e, woken-new k)
      wakes-waiting (suc fuel) k (suc n) e h =
          let (left, one) = v.taken k n e in
          ground (arith, e, woken-new k, wakes-waiting fuel (o.read r k).0 n left)

      -- On an empty pipe with room for them, whose read end is a descriptor above 0 and whose ends
      -- the control socket has, as many posts as there were wake the thread, which waits for the
      -- descriptors that the set has, each once, and then no byte is left: no wake-up is lost, and
      -- none comes without a post.
      pub wakes-posts :
          (n fuel : ℕ) (k : K)
          → waiting k ≡ 0
          → n ≤ room
          → n ≤ fuel
          → ((wakes fuel (new (some (r, w))) (posts n (new (some (r, w))) k)).0 ≡ n)
            × (waiting (wakes fuel (new (some (r, w))) (posts n (new (some (r, w))) k)).1 ≡ 0)
      wakes-posts n fuel k e h g =
          wakes-waiting fuel (posts n (new (some (r, w))) k) n
            (posts-waiting n k (omega (arith, e, h)) ∙ omega (arith, e)) g
