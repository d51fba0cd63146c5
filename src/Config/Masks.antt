-- ===== src/Config/Masks.antt =====
-- The masks that the tag filter: makes of a number of bits (src/AppConfig.cpp).
use relb.Prelude.{
  ℕ, zero, suc, ◌+◌, ◌-◌, ◌*◌, ◌<◌, ◌≡◌, refl, Bool, true, false, ◌&&◌, ltb, ◌==◌, ==_iff, arith,
  Bool-cases, inl, inr,
}
use Prim.Native.Nat.{◌^◌}
use relb.Prelude.Int.{ℤ, pos, pos_part, negsuc}
use relb.Address.{value}
use relb.Config.State.{Network}
use relb.Config.Rules.{mask_octet, netmask}

-- An `int` that an octet holds.
abbrev is_octet : ℤ → Bool
is_octet (pos n) = ltb n 256
is_octet (negsuc n) = false

abbrev octets_fit : ℕ → Bool
octets_fit m =
    (is_octet (mask_octet (pos m) 0) && is_octet (mask_octet (pos m) 8))
    && (is_octet (mask_octet (pos m) 16) && is_octet (mask_octet (pos m) 24))

abbrev mask_value : ℕ → ℕ
mask_value m =
    ((pos_part (mask_octet (pos m) 0) * 256 + pos_part (mask_octet (pos m) 8)) * 256
        + pos_part (mask_octet (pos m) 16))
      * 256
    + pos_part (mask_octet (pos m) 24)

abbrev is_right : ℕ → Bool
is_right m = octets_fit m && mask_value m == 2 ^ 32 - 2 ^ (32 - m)

abbrev all_below : ℕ → (ℕ → Bool) → Bool
all_below zero test = true
all_below (suc n) test = test n && all_below n test

all_below_sound :
    (n : ℕ) (test : ℕ → Bool) (m : ℕ) → all_below n test ≡ true → m < n → test m ≡ true
all_below_sound zero test m h l = absurd (omega arith)
all_below_sound (suc n) test m h l = elim (Bool-cases (m == n)) [
  | inl e ↦ let p : m ≡ n = ground arith in rw p (ground arith)
  | inr e ↦ all_below_sound n test m (ground arith) (ground arith)
]

all_right : all_below 33 is_right ≡ true
all_right = refl

both : (p q : Bool) → p && q ≡ true → (p ≡ true) × (q ≡ true)
both p q h = (ground arith, ground arith)

octet_keeps :
    (n : Network)
    → ((m : ℕ) → m < 256 → n.octet (pos m) ≡ m)
    → (x : ℤ) → is_octet x ≡ true
    → n.octet x ≡ pos_part x
octet_keeps n keep (pos m) h = keep m (ground arith)
octet_keeps n keep (negsuc m) h = cc

-- From 0 to 32 bits, the mask is the number whose highest bits are set, as many as asked for.
pub netmask-value :
    (n : Network) (m : ℕ)
    → ((x : ℕ) → x < 256 → n.octet (pos x) ≡ x)
    → m < 33
    → value (netmask n (pos m)) ≡ 2 ^ 32 - 2 ^ (32 - m)
unfolding netmask
netmask-value n m keep h =
    let (fit, exact) = both (octets_fit m) _ (all_below_sound 33 is_right m all_right h) in
    let (high, low) = both _ _ fit in
    let (fit_a, fit_b) = both (is_octet (mask_octet (pos m) 0)) _ high in
    let (fit_c, fit_d) = both (is_octet (mask_octet (pos m) 16)) _ low in
    let e_a = octet_keeps n keep (mask_octet (pos m) 0) fit_a in
    let e_b = octet_keeps n keep (mask_octet (pos m) 8) fit_b in
    let e_c = octet_keeps n keep (mask_octet (pos m) 16) fit_c in
    let e_d = octet_keeps n keep (mask_octet (pos m) 24) fit_d in
    rw (e_a, e_b, e_c, e_d) ((==_iff (mask_value m) (2 ^ 32 - 2 ^ (32 - m))).0 exact)
