-- ===== src/Manager/Choice.antt =====
-- Which manager a new connection is given to (src/ThreadedConnectionManagerList.cpp).
use relb.Prelude.{
  get_elem?-last, ℕ, zero, suc, ◌+◌, ◌≤◌, ◌<◌, ◌≡◌, ◌≢◌, ◌⊎◌, refl, sym, ap, ◌∙◌, if_cases, inl,
  inr, Option, none, some, List, [], ◌∷◌, length, get_elem?, ltb, Option-cases, arith,
}
use relb.Manager.Rounds.{Manager, new, get_free_connections}
use relb.Manager.Pool.{Pool, Best, better, find_best, candidates, add_new, get_free_manager}

-- The entry at `index` of a list whose first `i` entries are left out has these free places.
record IsEntry (i : ℕ) (ms : List Manager) (b : Best) : Type 0 where
  offset : ℕ
  entry : Manager
  at_offset : b.index ≡ i + offset
  listed : get_elem? ms offset ≡ some entry
  is_free : b.free ≡ get_free_connections entry
  has_room : 0 < b.free

-- No entry has more.
abbrev NoneFreer : ℕ → List Manager → Type 0
NoneFreer n [] = Unit {0}
NoneFreer n (m ∷ ms) = (get_free_connections m ≤ n) × NoneFreer n ms

abbrev AtLeast : Option Best → ℕ → Type 0
AtLeast none n = Unit {0}
AtLeast (some b) n = b.free ≤ n

better_bound :
    (i current n : ℕ) (best : Option Best)
    → AtLeast (better i current best) n
    → AtLeast best n × (current ≤ n)
unfolding better
better_bound i zero n none h = (tt, omega arith)
better_bound i (suc c) n none h = (tt, ground arith)
better_bound i current n (some b) h = ground arith

find_best_bound :
    (i : ℕ) (best : Option Best) (ms : List Manager) (b : Best)
    → find_best i best ms ≡ some b
    → AtLeast best b.free × NoneFreer b.free ms
unfolding find_best
find_best_bound i none [] b e = cc
find_best_bound i (some c) [] b e = (ground arith, tt)
find_best_bound i best (m ∷ ms) b e =
    let (a, rest) = find_best_bound (suc i) (better i (get_free_connections m) best) ms b e in
    let (c, d) = better_bound i (get_free_connections m) b.free best a in (c, (d, rest))

better_cases :
    (i current : ℕ) (best : Option Best)
    → (better i current best ≡ best)
      ⊎ ((better i current best ≡ some (record { index = i; free = current })) × (0 < current))
unfolding better
better_cases i zero none = inl refl
better_cases i (suc c) none = inr (ground arith, omega arith)
better_cases i current (some b) = ground arith

IsEntry-suc :
    (i : ℕ) (m : Manager) (ms : List Manager) (b : Best)
    → IsEntry (suc i) ms b
    → IsEntry i (m ∷ ms) b
IsEntry-suc i m ms b v = record {
  offset = suc v.offset;
  entry = v.entry;
  at_offset = omega (arith, v.at_offset);
  listed = v.listed;
  is_free = v.is_free;
  has_room = v.has_room;
}

-- The entry that is found is one of those looked at, or the best before.
find_best-IsEntry :
    (i : ℕ) (best : Option Best) (ms : List Manager) (b : Best)
    → find_best i best ms ≡ some b
    → (best ≡ some b) ⊎ IsEntry i ms b
unfolding find_best
find_best-IsEntry i best [] b e = inl e
find_best-IsEntry i best (m ∷ ms) b e =
    elim (find_best-IsEntry (suc i) (better i (get_free_connections m) best) ms b e) [
      | inr v ↦ inr (IsEntry-suc i m ms b v)
      | inl f ↦ elim (better_cases i (get_free_connections m) best) [
        | inl same ↦ inl (sym same ∙ f)
        | inr (fresh, room) ↦
            let g : some (record { index = i; free = get_free_connections m }) ≡ some b =
              sym fresh ∙ f in
            inr (record {
              offset = 0;
              entry = m;
              at_offset = ground arith;
              listed = refl;
              is_free = ground arith;
              has_room = ground arith;
            })
      ]
    ]

-- The manager at an index of the list, with room for a connection.
pub record HasRoom (l : Pool) (k : ℕ) : Type 0 where
  pub manager : Manager
  pub listed : get_elem? l.managers k ≡ some manager
  pub room : 0 < get_free_connections manager

add_new-HasRoom :
    (l : Pool) → 0 < l.peers_per_thread → 0 < l.max_peers → HasRoom (add_new l).0 (add_new l).1
unfolding add_new new
add_new-HasRoom l h k = record {
  manager = new l.max_peers l.peers_per_thread;
  listed = get_elem?-last l.managers (new l.max_peers l.peers_per_thread);
  room = unfold get_free_connections in ground arith;
}

listed_candidate :
    (ms : List Manager) (j : ℕ) (m : Manager)
    → get_elem? (candidates ms) j ≡ some m
    → get_elem? ms (suc j) ≡ some m
listed_candidate [] j m e = cc
listed_candidate (x ∷ ms) j m e = e

found-HasRoom : (l : Pool) (b : Best) → IsEntry 1 (candidates l.managers) b → HasRoom l b.index
found-HasRoom l b v = record {
  manager = v.entry;
  listed =
      ap (get_elem? l.managers) {x = b.index} {y = suc v.offset} (omega (arith, v.at_offset))
      ∙ listed_candidate l.managers v.offset v.entry v.listed;
  room = omega (arith, v.has_room, v.is_free);
}

length-ne-zero : (ms : List Manager) → ms ≢ [] → length ms ≢ 0
length-ne-zero [] h = absurd (h refl)
length-ne-zero (m ∷ ms) h = omega arith

module _ (l : Pool) where
  best_found :
      (b : Best)
      → find_best 1 none (candidates l.managers) ≡ some b
      → IsEntry 1 (candidates l.managers) b
  best_found b e = elim (find_best-IsEntry 1 none (candidates l.managers) b e) [
    | inl f ↦ cc
    | inr v ↦ v
  ]

  -- If threads may have connections at all, a new connection is given to a manager of the list that
  -- has room for it, one that is added if none is found.
  pub get_free_manager-HasRoom :
      0 < l.peers_per_thread
      → 0 < l.max_peers
      → HasRoom (get_free_manager l).0 (get_free_manager l).1
  unfolding get_free_manager
  get_free_manager-HasRoom h k = elim (Option-cases (find_best 1 none (candidates l.managers))) [
    | inl n ↦ rw (n, get_free_manager) (add_new-HasRoom l h k)
    | inr (b, e) ↦
        rw (e, get_free_manager)
          (if_cases (λ (t : Pool × ℕ). HasRoom t.0 t.1) (ltb b.free 1) (add_new-HasRoom l h k)
            (found-HasRoom l b (best_found b e)))
  ]

  -- When the list is not empty, its first manager is not the one returned, however much room it
  -- has.
  get_free_manager_skips_first : l.managers ≢ [] → (get_free_manager l).1 ≢ 0
  unfolding get_free_manager add_new
  get_free_manager_skips_first h = elim (Option-cases (find_best 1 none (candidates l.managers))) [
    | inl n ↦ rw (n, get_free_manager) (length-ne-zero l.managers h)
    | inr (b, e) ↦
        rw (e, get_free_manager)
          (if_cases (λ (t : Pool × ℕ). t.1 ≢ 0) (ltb b.free 1) (length-ne-zero l.managers h)
            (omega (arith, (best_found b e).at_offset)))
  ]

  -- When a manager with room is found behind the first, it is the one returned, and of the managers
  -- behind the first none has more room.
  get_free_manager-most :
      (b : Best)
      → find_best 1 none (candidates l.managers) ≡ some b
      → ((get_free_manager l).1 ≡ b.index) × NoneFreer b.free (candidates l.managers)
  unfolding get_free_manager
  get_free_manager-most b e = (
    ground (arith, e, (best_found b e).has_room),
    (find_best_bound 1 none (candidates l.managers) b e).1,
  )
