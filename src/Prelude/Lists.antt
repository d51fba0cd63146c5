-- ===== src/Prelude/Lists.antt =====
-- Lists measured and indexed by native numbers, under the library's names.
use Prim.Native.Nat.{ℕ, zero, suc, ◌+◌, ◌<◌}
use mathlib.Core.Path.{◌≡◌, refl, ap, subst}
use mathlib.Core.Logic.{◌⊎◌, inl, inr}
use mathlib.Core.Option.{Option, none, some}
use mathlib.Core.List.{List, [], ◌∷◌, ◌++◌}
use native.Mathlib.Omega.{arith}

module _ {ℓ} {A : Type ℓ} where
  abbrev pub length : List A → ℕ
  length [] = 0
  length (x ∷ xs) = suc (length xs)

  abbrev pub get_elem? : List A → ℕ → Option A
  get_elem? [] i = none
  get_elem? (x ∷ xs) zero = some x
  get_elem? (x ∷ xs) (suc i) = get_elem? xs i

  -- `update_at f i xs` applies `f` to the entry at `i`; out of bounds it changes nothing.
  abbrev pub update_at : (A → A) → ℕ → List A → List A
  update_at f i [] = []
  update_at f zero (x ∷ xs) = f x ∷ xs
  update_at f (suc i) (x ∷ xs) = x ∷ update_at f i xs

  abbrev pub delete_at : ℕ → List A → List A
  delete_at i [] = []
  delete_at zero (x ∷ xs) = xs
  delete_at (suc i) (x ∷ xs) = x ∷ delete_at i xs

  pub length-append : (xs ys : List A) → length (xs ++ ys) ≡ length xs + length ys
  length-append [] ys = omega arith
  length-append (x ∷ xs) ys = omega (arith, length-append xs ys)

  pub length-update_at : (f : A → A) (i : ℕ) (xs : List A) → length (update_at f i xs) ≡ length xs
  length-update_at f i [] = refl
  length-update_at f zero (x ∷ xs) = refl
  length-update_at f (suc i) (x ∷ xs) = ap suc (length-update_at f i xs)

  pub get_elem?-lt : (xs : List A) (i : ℕ) → i < length xs → (a : A) × (get_elem? xs i ≡ some a)
  get_elem?-lt [] i h = elim h [ ]
  get_elem?-lt (x ∷ xs) zero h = (x, refl)
  get_elem?-lt (x ∷ xs) (suc i) h = get_elem?-lt xs i (omega arith)

  pub get_elem?_lt_length : (xs : List A) (i : ℕ) {x : A} → get_elem? xs i ≡ some x → i < length xs
  get_elem?_lt_length [] i e = cc
  get_elem?_lt_length (y ∷ xs) zero e = omega arith
  get_elem?_lt_length (y ∷ xs) (suc i) e = omega (arith, get_elem?_lt_length xs i e)

  pub get_elem?-update_at :
      (f : A → A) (xs : List A) (i : ℕ) (x : A)
      → get_elem? xs i ≡ some x
      → get_elem? (update_at f i xs) i ≡ some (f x)
  get_elem?-update_at f [] i x e = cc
  get_elem?-update_at f (y ∷ xs) zero x e = ground arith
  get_elem?-update_at f (y ∷ xs) (suc i) x e = get_elem?-update_at f xs i x e

  pub get_elem?-last : (xs : List A) (x : A) → get_elem? (xs ++ x ∷ []) (length xs) ≡ some x
  get_elem?-last [] x = refl
  get_elem?-last (y ∷ xs) x = get_elem?-last xs x

  -- `P` holds of every entry.
  abbrev pub All : (A → Type 0) → List A → Type 0
  All P [] = Unit {0}
  All P (x ∷ xs) = P x × All P xs

  pub All_mono : (P Q : A → Type 0) (xs : List A) → ((x : A) → P x → Q x) → All P xs → All Q xs
  All_mono P Q [] f v = tt
  All_mono P Q (x ∷ xs) f v = (f x v.0, All_mono P Q xs f v.1)

  pub All-snoc : (P : A → Type 0) (xs : List A) (x : A) → All P xs → P x → All P (xs ++ x ∷ [])
  All-snoc P [] x v p = (p, tt)
  All-snoc P (y ∷ xs) x v p = (v.0, All-snoc P xs x v.1 p)

  pub All-map : (P R : A → Type 0) (xs : List A) → ((x : A) → P x → R x) → All P xs → All R xs
  All-map P R [] f v = tt
  All-map P R (x ∷ xs) f v = (f x v.0, All-map P R xs f v.1)

  pub All-update_at :
      (P : A → Type 0) (f : A → A) (xs : List A) (k : ℕ) (x : A)
      → get_elem? xs k ≡ some x
      → P (f x)
      → All P xs
      → All P (update_at f k xs)
  All-update_at P f [] k x e p v = tt
  All-update_at P f (y ∷ xs) zero x e p v = (subst (λ z. P (f z)) {x = x} {y = y} (cc e) p, v.1)
  All-update_at P f (y ∷ xs) (suc k) x e p v = (v.0, All-update_at P f xs k x e p v.1)

  abbrev pub take : ℕ → List A → List A
  take zero xs = []
  take (suc n) [] = []
  take (suc n) (x ∷ xs) = x ∷ take n xs

  pub take-append : (xs ys : List A) → take (length xs) (xs ++ ys) ≡ xs
  take-append [] ys = refl
  take-append (x ∷ xs) ys = ap (◌∷◌ x) (take-append xs ys)

  -- A list that begins another still begins it when that grows.
  pub take-append_more :
      (xs ys zs : List A) → take (length xs) ys ≡ xs → take (length xs) (ys ++ zs) ≡ xs
  take-append_more [] ys zs h = refl
  take-append_more (x ∷ xs) [] zs h = cc
  take-append_more (x ∷ xs) (y ∷ ys) zs h = ground (arith, take-append_more xs ys zs (ground arith))

module _ {ℓ} {A : Type ℓ} where
  pub List-cases : (xs : List A) → (xs ≡ []) ⊎ ((x : A) × (rest : List A) × (xs ≡ x ∷ rest))
  List-cases [] = inl refl
  List-cases (x ∷ xs) = inr (x, xs, refl)
