-- ===== src/Bind/Loop.antt =====
-- The loops of src/main.cpp, which move a position and call a function there, and what they do with
-- the entries of a list. `none` is a fault of a call, or no fuel.
use relb.Prelude.{
  ℕ, zero, suc, ◌<◌, ◌≡◌, ◌≢◌, refl, Bool, true, Option, none, some, List, [], ◌∷◌, length,
  get_elem?, ltb, if◌then◌else◌, arith, ap, ◌∙◌,
}

module _ {C B : Type 0} where
  abbrev pub then_call : Option B → (B → Option (C × B)) → Option (C × B)
  then_call none f = none
  then_call (some b) f = f b

  -- do body; while( next );
  unfoldable pub do_while : (C → B → Option B) → (C → C × Bool) → ℕ → C → B → Option (C × B)
  do_while body next zero c b = none
  do_while body next (suc fuel) c b =
      let (d, more) = next c in
      then_call (body c b)
        λ e. let rest = do_while body next fuel d e in if more then rest else some (d, e)

  -- while( next ) body;
  unfoldable pub while_next : (C → B → Option B) → (C → C × Bool) → ℕ → C → B → Option (C × B)
  while_next body next zero c b = none
  while_next body next (suc fuel) c b =
      let (d, more) = next c in
      let rest = then_call (body d b) λ e. while_next body next fuel d e in
      if more then rest else some (d, b)

-- A call for every entry, in their order.
abbrev pub for_each : {A B : Type 0} → (A → B → B) → List A → B → B
for_each f [] b = b
for_each f (x ∷ xs) b = for_each f xs (f x b)

module _ {A B C : Type 0} (body : C → B → Option B) (next : C → C × Bool) (f : A → B → B) where
  -- The position moves through the list, and the call is one for the entry there.
  pub record Visits (st : ℕ → C) (xs : List A) : Type 0 where
    pub moves : (i : ℕ) → next (st i) ≡ (st (suc i), ltb (suc i) (length xs))
    pub calls : (i : ℕ) (x : A) (b : B) → get_elem? xs i ≡ some x → body (st i) b ≡ some (f x b)

  pub do_while-each :
      (xs : List A) (x : A) (st : ℕ → C) (fuel : ℕ) (b : B)
      → Visits st (x ∷ xs)
      → length xs < fuel
      → do_while body next fuel (st 0) b ≡ some (st (suc (length xs)), for_each f (x ∷ xs) b)
  unfolding do_while
  do_while-each xs x st zero b v h = absurd (omega arith)
  do_while-each [] x st (suc fuel) b v h = rw (v.moves 0, v.calls 0 x b refl) refl
  do_while-each (y ∷ xs) x st (suc fuel) b v h =
      let more : ltb 1 (suc (suc (length xs))) ≡ true = ground arith in
      rw (v.moves 0, v.calls 0 x b refl, more)
        (do_while-each xs y (λ i. st (suc i)) fuel (f x b)
          (record {
            moves = λ i. v.moves (suc i) ∙ ap (λ t. (st (suc (suc i)), t)) (ground arith);
            calls = λ i z d e. v.calls (suc i) z d e;
          })
          (omega arith))

  -- The same, for a position that is moved before the call.
  pub record Reaches (st : ℕ → C) (xs : List A) : Type 0 where
    pub moves : (i : ℕ) → next (st i) ≡ (st (suc i), ltb i (length xs))
    pub calls :
        (i : ℕ) (x : A) (b : B) → get_elem? xs i ≡ some x → body (st (suc i)) b ≡ some (f x b)

  pub while_next-each :
      (xs : List A) (st : ℕ → C) (fuel : ℕ) (b : B)
      → Reaches st xs
      → length xs < fuel
      → while_next body next fuel (st 0) b ≡ some (st (suc (length xs)), for_each f xs b)
  unfolding while_next
  while_next-each xs st zero b v h = absurd (omega arith)
  while_next-each [] st (suc fuel) b v h = rw (v.moves 0) refl
  while_next-each (x ∷ xs) st (suc fuel) b v h =
      let more : ltb 0 (suc (length xs)) ≡ true = ground arith in
      rw (v.moves 0, v.calls 0 x b refl, more)
        (while_next-each xs (λ i. st (suc i)) fuel (f x b)
          (record {
            moves = λ i. v.moves (suc i) ∙ ap (λ t. (st (suc (suc i)), t)) (ground arith);
            calls = λ i z d e. v.calls (suc i) z d e;
          })
          (omega arith))

-- Where a loop that is only begun for a list with entries leaves the position.
abbrev pub stop : {A : Type 0} → List A → ℕ
stop [] = 0
stop (x ∷ xs) = suc (suc (length xs))

module _ {A B C : Type 0} (body : C → B → Option B) (next : C → C × Bool) (f : A → B → B)
    (st : ℕ → C) where
  -- The loops as `main` begins them.
  pub all_visited :
      (xs : List A) (b : B)
      → xs ≢ []
      → Visits body next f st xs
      → do_while body next (suc (length xs)) (st 0) b ≡ some (st (length xs), for_each f xs b)
  all_visited [] b h v = absurd (h refl)
  all_visited (x ∷ xs) b h v =
      do_while-each body next f xs x st (suc (suc (length xs))) b v (omega arith)

  pub all_reached :
      (xs : List A) (b : B)
      → Reaches body next f st xs
      → (if ltb 0 (length xs)
          then while_next body next (suc (length xs)) (st 0) b
          else some (st 0, b))
        ≡ some (st (stop xs), for_each f xs b)
  all_reached [] b v = refl
  all_reached (x ∷ xs) b v =
      let more : ltb 0 (suc (length xs)) ≡ true = ground arith in
      rw more (while_next-each body next f (x ∷ xs) st (suc (suc (length xs))) b v (omega arith))
