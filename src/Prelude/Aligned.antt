-- ===== src/Prelude/Aligned.antt =====
-- Two lists whose entries correspond, place by place.
use Prim.Native.Nat.{ℕ, zero, suc}
use mathlib.Core.Path.{◌≡◌, refl, subst}
use mathlib.Core.Option.{some}
use mathlib.Core.List.{List, [], ◌∷◌, ◌++◌}
use relb.Prelude.Lists.{get_elem?, update_at, delete_at}

module _ {A B : Type 0} (R : A → B → Type 0) where
  abbrev pub Zip : List A → List B → Type 0
  Zip [] [] = Unit {0}
  Zip (x ∷ xs) (y ∷ ys) = R x y × Zip xs ys
  Zip _ _ = ⊥

  pub Zip-update_at :
      (f : A → A) (g : B → B)
      → ((x : A) (y : B) → R x y → R (f x) (g y))
      → (i : ℕ) (xs : List A) (ys : List B) → Zip xs ys
      → Zip (update_at f i xs) (update_at g i ys)
  Zip-update_at f g h i [] [] z = tt
  Zip-update_at f g h i [] (y ∷ ys) z = absurd z
  Zip-update_at f g h i (x ∷ xs) [] z = absurd z
  Zip-update_at f g h zero (x ∷ xs) (y ∷ ys) z = (h x y z.0, z.1)
  Zip-update_at f g h (suc i) (x ∷ xs) (y ∷ ys) z = (z.0, Zip-update_at f g h i xs ys z.1)

  pub Zip-snoc :
      (xs : List A) (ys : List B) (x : A) (y : B)
      → Zip xs ys
      → R x y
      → Zip (xs ++ x ∷ []) (ys ++ y ∷ [])
  Zip-snoc [] [] x y z r = (r, tt)
  Zip-snoc [] (b ∷ ys) x y z r = absurd z
  Zip-snoc (a ∷ xs) [] x y z r = absurd z
  Zip-snoc (a ∷ xs) (b ∷ ys) x y z r = (z.0, Zip-snoc xs ys x y z.1 r)

  pub Zip-delete_at :
      (i : ℕ) (xs : List A) (ys : List B) → Zip xs ys → Zip (delete_at i xs) (delete_at i ys)
  Zip-delete_at i [] [] z = tt
  Zip-delete_at i [] (y ∷ ys) z = absurd z
  Zip-delete_at i (x ∷ xs) [] z = absurd z
  Zip-delete_at zero (x ∷ xs) (y ∷ ys) z = z.1
  Zip-delete_at (suc i) (x ∷ xs) (y ∷ ys) z = (z.0, Zip-delete_at i xs ys z.1)

  pub Zip-get_elem? :
      (i : ℕ) (xs : List A) (ys : List B) (x : A)
      → Zip xs ys
      → get_elem? xs i ≡ some x
      → (y : B) × (get_elem? ys i ≡ some y) × R x y
  Zip-get_elem? i [] ys x z e = cc
  Zip-get_elem? i (w ∷ xs) [] x z e = absurd z
  Zip-get_elem? zero (w ∷ xs) (y ∷ ys) x z e =
      (y, refl, subst (λ v. R v y) {x = w} {y = x} (cc e) z.0)
  Zip-get_elem? (suc i) (w ∷ xs) (y ∷ ys) x z e = Zip-get_elem? i xs ys x z.1 e
