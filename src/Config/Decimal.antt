-- ===== src/Config/Decimal.antt =====
-- Numbers in writing, as `atoi` reads them.
use relb.Prelude.{
  ℕ, zero, suc, ◌+◌, ◌/◌, ◌%◌, ◌≤◌, ◌≡◌, refl, ap, ◌∙◌, List, [], ◌∷◌, ◌++◌, ◌==◌, if◌then◌else◌,
  if_cases, arith, Free, sym, append-nil, Bool-cases, inl, inr,
}
use mathlib.Core.Path.{subst}
use relb.Prelude.Int.{pos}
use relb.Parse.{IsNumber, IsEnd, decimal, atoi, atoi-decimal, nil-IsEnd, read_digits, read_signed}
use relb.Config.Servers.{ends_number}

-- The digits of a number in front of others, the number not 0. There are no more digits than `fuel`.
unfoldable pub digits : ℕ → ℕ → List ℕ → List ℕ
digits zero n out = out
digits (suc fuel) n out =
    let more = digits fuel (n / 10) ((48 + n % 10) ∷ out) in if n == 0 then out else more

abbrev pub write_number : ℕ → List ℕ
write_number n = digits n (n / 10) ((48 + n % 10) ∷ [])

digits-IsNumber : (fuel n : ℕ) (out : List ℕ) → IsNumber out → IsNumber (digits fuel n out)
unfolding digits
digits-IsNumber zero n out v = v
digits-IsNumber (suc fuel) n out v =
    if_cases IsNumber (n == 0) v
      (digits-IsNumber fuel (n / 10) ((48 + n % 10) ∷ out) (ground arith, v))

decimal-digits :
    (fuel n : ℕ) (out : List ℕ) → n ≤ fuel → decimal 0 (digits fuel n out) ≡ decimal n out
unfolding digits
decimal-digits zero n out h = let e : n ≡ 0 = omega arith in rw e refl
decimal-digits (suc fuel) n out h =
    ground (arith, decimal-digits fuel (n / 10) ((48 + n % 10) ∷ out) (omega arith))

digits-cons :
    (fuel n : ℕ) (d : ℕ) (out : List ℕ)
    → (e : ℕ) × (more : List ℕ) × (digits fuel n (d ∷ out) ≡ e ∷ more)
unfolding digits
digits-cons zero n d out = (d, out, refl)
digits-cons (suc fuel) n d out = elim (Bool-cases (n == 0)) [
  | inl p ↦ (d, out, ground (arith, p))
  | inr p ↦
      let (e, more, q) = digits-cons fuel (n / 10) (48 + n % 10) (d ∷ out) in
      (e, more, ground (arith, p, q))
]

comma-IsEnd : (cs : List ℕ) → IsEnd (44 ∷ cs)
comma-IsEnd cs = unfold read_digits atoi read_signed in record { stops = λ n. refl; empty = refl }

pub write_number-IsNumber : (n : ℕ) → IsNumber (write_number n)
write_number-IsNumber n = digits-IsNumber n (n / 10) ((48 + n % 10) ∷ []) (ground arith, tt)

pub decimal-write_number : (n : ℕ) → decimal 0 (write_number n) ≡ n
decimal-write_number n = omega (arith, decimal-digits n (n / 10) ((48 + n % 10) ∷ []) (omega arith))

-- A number is read back, in front of a comma or at the end.
pub atoi-comma : (n : ℕ) (rest : List ℕ) → atoi (write_number n ++ 44 ∷ rest) ≡ pos n
atoi-comma n rest =
    atoi-decimal (write_number n) (44 ∷ rest) (write_number-IsNumber n) (comma-IsEnd rest)
    ∙ ap pos (decimal-write_number n)

pub atoi-end : (n : ℕ) → atoi (write_number n) ≡ pos n
atoi-end n =
    ap atoi (sym (append-nil (write_number n)))
    ∙ atoi-decimal (write_number n) [] (write_number-IsNumber n) nil-IsEnd
    ∙ ap pos (decimal-write_number n)

pub IsNumber-Free : (ds : List ℕ) → IsNumber ds → Free ends_number ds
IsNumber-Free [] v = tt
IsNumber-Free (d ∷ ds) v = (ground (arith, v.0), IsNumber-Free ds v.1)

-- A number has a first digit.
pub write_number-cons : (n : ℕ) → (d : ℕ) × (ds : List ℕ) × (write_number n ≡ d ∷ ds) × IsNumber ds
write_number-cons n =
    let (d, ds, e) = digits-cons n (n / 10) (48 + n % 10) [] in
    (d, ds, e, (subst IsNumber e (write_number-IsNumber n)).1)
