-- ===== src/ServerList/Choice.antt =====
-- What the search of `ServerList::getServer` guarantees of the server that it chooses.
use relb.Prelude.{
  ℕ, suc, ◌≤◌, ◌<◌, ◌≡◌, ◌≢◌, Bool, inl, inr, true, false, Option, none, some, length, get_elem?,
  get_elem?-lt, if◌then◌else◌, ◌==◌, if_cases, arith, Option-cases,
}
use relb.Address.{IpAddress}
use relb.Filters.{is_server_allowed}
use relb.ServerList.State.{ServerInfo, ServerList}
use relb.ServerList.Select.{
  Candidate, divisor, load, default_load, not_available, default_candidate, weigh, next_index, scan,
  last_attempt, choose,
}
use relb.ServerList.Scan.{steps_before, next_lt, scan_total, scan_inv, scan_covers}

module _ (ratio : ℕ → ℕ → ℕ) (sl : ServerList) (client : IpAddress) where
  -- The last attempt goes on from the index where the first loop stopped, which is where it stops
  -- too: it looks at no server.
  pub last_attempt_idle :
      (last : ℕ) (c : Candidate) → last_attempt ratio sl client last (last, c) ≡ some (last, c)
  unfolding last_attempt
  last_attempt_idle last c = ground arith

  -- The filters let the client use the server with this index.
  abbrev pub allowed_at : ℕ → Bool
  allowed_at i = elim (get_elem? sl.servers i) [
    | none ↦ false
    | some t ↦ is_server_allowed sl.filters t.ip client
  ]

  -- The search through the list, from the server behind `last` on.
  abbrev pub search_loop : (ℕ → ℕ) → ℕ → ServerInfo → Option (ℕ × Candidate)
  search_loop clock last s =
      scan ratio sl client (λ i t. not_available sl t (clock i)) (suc (length sl.servers))
        (next_index sl last) last (default_candidate ratio sl client last s (clock last))

  module _ (clock : ℕ → ℕ) (last : ℕ) (s : ServerInfo)
      (at : get_elem? sl.servers last ≡ some s) where
    loop_ends : (r : ℕ × Candidate) → search_loop clock last s ≡ some r → r ≡ (last, r.1)
    loop_ends r e = ground (
      arith,
      (scan_inv ratio sl client _ (λ c. Unit {0}) last (λ i t c _ _ _. tt) (suc (length sl.servers))
          (next_index sl last) _ r tt e).0,
    )

    choose-loop :
        (c : Candidate)
        → search_loop clock last s ≡ some (last, c)
        → choose ratio sl client clock last ≡ some c
    unfolding choose
    choose-loop c e = ground (arith, at, e, last_attempt_idle last c)

    -- The choice is what the first loop leaves.
    pub loop-choose :
        (c : Candidate)
        → choose ratio sl client clock last ≡ some c
        → search_loop clock last s ≡ some (last, c)
    loop-choose c e = elim (Option-cases (search_loop clock last s)) [
      | inl n ↦ absurd (stuck n e)
      | inr (r, f) ↦
          let g : search_loop clock last s ≡ some (last, r.1) = cc (loop_ends r f) in
          ground (arith, choose-loop r.1 g)
    ]
      where
        stuck : search_loop clock last s ≡ none → choose ratio sl client clock last ≢ some c
        stuck n e = unfold choose in ground (arith, at, n)

  -- The choice is made for every list that holds the index `last`: the loop ends within a round of
  -- the list, and no read is beyond it.
  pub choose_total :
      (clock : ℕ → ℕ) (last : ℕ)
      → last < length sl.servers
      → (c : Candidate) × (choose ratio sl client clock last ≡ some c)
  choose_total clock last h =
      let (s, at) = get_elem?-lt sl.servers last h in
      let (r, e) =
        scan_total ratio sl client (λ i t. not_available sl t (clock i)) (suc (length sl.servers))
          (next_index sl last) last (default_candidate ratio sl client last s (clock last))
          (next_lt sl last h) h (ground arith) in
      (r.1, choose-loop clock last s at r.1 (cc (e, loop_ends clock last s at r e)))

  weigh-allowed :
      (i : ℕ) (t : ServerInfo) (b : Bool) (c : Candidate)
      → get_elem? sl.servers i ≡ some t
      → (c.assigned ≡ true → allowed_at c.server ≡ true)
      → (weigh ratio sl client i t b c).assigned ≡ true
      → allowed_at (weigh ratio sl client i t b c).server ≡ true
  unfolding weigh
  weigh-allowed i t b c at p a = ground (arith, at)

  -- A server that is assigned is one of the list, and the filters allow it to the client.
  pub choose-allowed :
      (clock : ℕ → ℕ) (last : ℕ) (c : Candidate)
      → last < length sl.servers
      → choose ratio sl client clock last ≡ some c
      → c.assigned ≡ true
      → allowed_at c.server ≡ true
  choose-allowed clock last c h e =
      let (s, at) = get_elem?-lt sl.servers last h in
      (scan_inv ratio sl client _ (λ d. d.assigned ≡ true → allowed_at d.server ≡ true) last
        (λ i t d _ here p. weigh-allowed i t _ d here p) (suc (length sl.servers))
        (next_index sl last) _ (last, c) (initial s at) (loop-choose clock last s at c e)).1
    where
      initial :
          (s : ServerInfo)
          → get_elem? sl.servers last ≡ some s
          → (default_candidate ratio sl client last s (clock last)).assigned ≡ true
          → allowed_at (default_candidate ratio sl client last s (clock last)).server ≡ true
      initial s at a = unfold default_candidate in ground (arith, at)

  -- Every server that the filters allow and that is available is beaten or equalled by the choice.
  abbrev AtMost : ℕ → Candidate → Type 0
  AtMost bound c = (c.assigned ≡ true) × (c.index ≤ bound)

  weigh-AtMost :
      (i : ℕ) (t : ServerInfo) (b : Bool) (bound : ℕ) (c : Candidate)
      → AtMost bound c
      → AtMost bound (weigh ratio sl client i t b c)
  unfolding weigh
  weigh-AtMost i t b bound c p = ground arith

  weigh-AtMost_self :
      (i : ℕ) (t : ServerInfo) (c : Candidate)
      → is_server_allowed sl.filters t.ip client ≡ true
      → AtMost (ratio (load sl t) (divisor t.weight)) (weigh ratio sl client i t false c)
  unfolding weigh
  weigh-AtMost_self i t c a = ground arith

  least_index :
      (clock : ℕ → ℕ) (last j : ℕ) (t : ServerInfo) (c : Candidate)
      → last < length sl.servers
      → j < length sl.servers
      → j ≢ last
      → get_elem? sl.servers j ≡ some t
      → is_server_allowed sl.filters t.ip client ≡ true
      → not_available sl t (clock j) ≡ false
      → choose ratio sl client clock last ≡ some c
      → AtMost (ratio (load sl t) (divisor t.weight)) c
  least_index clock last j t c h k d at a n e =
      let (s, here) = get_elem?-lt sl.servers last h in
      scan_covers ratio sl client _ (AtMost (ratio (load sl t) (divisor t.weight))) last j k
        (λ i u x same there. visit i u x same there) (λ i u x _ _ p. weigh-AtMost i u _ _ x p)
        (suc (length sl.servers)) (next_index sl last) _ (last, c) (next_lt sl last h) h
        (steps_before sl last j h k d) (loop-choose clock last s here c e)
    where
      visit :
          (i : ℕ) (u : ServerInfo) (x : Candidate)
          → i ≡ j
          → get_elem? sl.servers i ≡ some u
          → AtMost
              (ratio (load sl t) (divisor t.weight))
              (weigh ratio sl client i u (not_available sl u (clock i)) x)
      visit i u x same there =
          let e : u ≡ t = ground arith in ground (arith, e, weigh-AtMost_self i t x a)

  -- The load for the weight by which a server is judged: the one looked at first by its own formula.
  abbrev pub judged : ℕ → ℕ → ServerInfo → ℕ
  judged last i t = ratio (if i == last then default_load sl t else load sl t) (divisor t.weight)

  -- The number kept is that of the server kept.
  abbrev Measured : ℕ → Candidate → Type 0
  Measured last c =
      (t : ServerInfo) × (get_elem? sl.servers c.server ≡ some t)
      × (c.index ≡ judged last c.server t)

  weigh-Measured :
      (last i : ℕ) (t : ServerInfo) (b : Bool) (c : Candidate)
      → i ≢ last
      → get_elem? sl.servers i ≡ some t
      → Measured last c
      → Measured last (weigh ratio sl client i t b c)
  unfolding weigh
  weigh-Measured last i t b c d at m = if_cases (Measured last) _ (t, at, ground arith) m

  choose-Measured :
      (clock : ℕ → ℕ) (last : ℕ) (c : Candidate)
      → last < length sl.servers
      → choose ratio sl client clock last ≡ some c
      → Measured last c
  unfolding default_candidate
  choose-Measured clock last c h e =
      let (s, at) = get_elem?-lt sl.servers last h in
      (scan_inv ratio sl client _ (Measured last) last
        (λ i t x d here m. weigh-Measured last i t _ x d here m) (suc (length sl.servers))
        (next_index sl last) _ (last, c) (s, at, ground arith) (loop-choose clock last s at c e)).1

  -- If some server other than the one looked at first is allowed by the filters and available when
  -- it is looked at, then a server of the list is assigned, and the load of the assigned server in
  -- proportion to its weight is no higher than that server's. The load of the one looked at first
  -- is counted by its own formula.
  pub choose-least :
      (clock : ℕ → ℕ) (last j : ℕ) (t : ServerInfo) (c : Candidate)
      → last < length sl.servers
      → j < length sl.servers
      → j ≢ last
      → get_elem? sl.servers j ≡ some t
      → is_server_allowed sl.filters t.ip client ≡ true
      → not_available sl t (clock j) ≡ false
      → choose ratio sl client clock last ≡ some c
      → (c.assigned ≡ true)
        × (u : ServerInfo) × (get_elem? sl.servers c.server ≡ some u)
        × (judged last c.server u ≤ ratio (load sl t) (divisor t.weight))
  choose-least clock last j t c h k d at a n e =
      let (x, y) = least_index clock last j t c h k d at a n e in
      let (u, f, g) = choose-Measured clock last c h e in (x, u, f, omega (arith, y, g))

  -- If the server that is looked at first is allowed by the filters, available or not, then a
  -- server is assigned, and its load in proportion to its weight is no higher than the first one's,
  -- which counts the connections that are being made.
  choose-le-default :
      (clock : ℕ → ℕ) (last : ℕ) (s : ServerInfo) (c : Candidate)
      → get_elem? sl.servers last ≡ some s
      → is_server_allowed sl.filters s.ip client ≡ true
      → choose ratio sl client clock last ≡ some c
      → (c.assigned ≡ true) × (c.index ≤ ratio (default_load sl s) (divisor s.weight))
  unfolding default_candidate
  choose-le-default clock last s c at a e =
      (scan_inv ratio sl client _ (AtMost (ratio (default_load sl s) (divisor s.weight))) last
        (λ i u x _ _ p. weigh-AtMost i u _ _ x p) (suc (length sl.servers)) (next_index sl last) _
        (last, c) (ground arith) (loop-choose clock last s at c e)).1
