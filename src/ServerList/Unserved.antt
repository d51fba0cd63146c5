-- ===== src/ServerList/Unserved.antt =====
-- Two clients that the search of `ServerList::getServer` does not serve as its comments say: one that
-- gets no server, and one that gets a server that is not available.
use relb.Prelude.{
  ℕ, suc, ◌≤◌, ◌≡◌, ◌≢◌, refl, Bool, true, false, inl, inr, some, length, get_elem?, Bool-cases,
  arith,
}
use relb.Address.{IpAddress}
use relb.Filters.{is_server_allowed}
use relb.ServerList.State.{ServerInfo, ServerList}
use relb.ServerList.Select.{
  Candidate, divisor, load, default_load, not_available, default_candidate, weigh, next_index,
  choose,
}
use relb.ServerList.Scan.{scan_inv}
use relb.ServerList.Choice.{loop-choose}

module _ (ratio : ℕ → ℕ → ℕ) (sl : ServerList) (client : IpAddress) where
  weigh_unavailable :
      (i : ℕ) (t : ServerInfo) (c : Candidate)
      → (c.assigned ≡ false) × (c.not_available ≡ false)
      → weigh ratio sl client i t true c ≡ c
  unfolding weigh
  weigh_unavailable i t c p = ground arith

  weigh_denied :
      (i : ℕ) (t : ServerInfo) (b : Bool) (c : Candidate)
      → is_server_allowed sl.filters t.ip client ≡ false
      → weigh ratio sl client i t b c ≡ c
  unfolding weigh
  weigh_denied i t b c a = ground arith

  -- When the server that is looked at first is denied by the filters but available, and the servers
  -- that are allowed are all unavailable, no server is assigned: the last attempt, which should
  -- take an unavailable one, finds none.
  pub choose_none :
      (clock : ℕ → ℕ) (last : ℕ) (s : ServerInfo) (c : Candidate)
      → get_elem? sl.servers last ≡ some s
      → is_server_allowed sl.filters s.ip client ≡ false
      → not_available sl s (clock last) ≡ false
      → ((i : ℕ) (t : ServerInfo)
          → get_elem? sl.servers i ≡ some t
          → is_server_allowed sl.filters t.ip client ≡ true
          → not_available sl t (clock i) ≡ true)
      → choose ratio sl client clock last ≡ some c
      → c.assigned ≡ false
  unfolding default_candidate
  choose_none clock last s c at denied free busy e =
      (scan_inv ratio sl client _ (λ x. (x.assigned ≡ false) × (x.not_available ≡ false)) last
        (λ i t x _ here p. keep i t x here p) (suc (length sl.servers)) (next_index sl last) _
        (last, c) (ground arith) (loop-choose ratio sl client clock last s at c e)).1.0
    where
      keep :
          (i : ℕ) (t : ServerInfo) (x : Candidate)
          → get_elem? sl.servers i ≡ some t
          → (x.assigned ≡ false) × (x.not_available ≡ false)
          → let y = weigh ratio sl client i t (not_available sl t (clock i)) x in
            (y.assigned ≡ false) × (y.not_available ≡ false)
      keep i t x here p = elim (Bool-cases (is_server_allowed sl.filters t.ip client)) [
        | inl a ↦ rw (busy i t here a, weigh_unavailable i t x p) p
        | inr n ↦ rw (weigh_denied i t _ x n) p
      ]

  -- The candidate is the server `last` with the load `k`.
  record IsFirst (last k : ℕ) (c : Candidate) : Type 0 where
    assigned : c.assigned ≡ true
    server : c.server ≡ last
    index : c.index ≡ k

  weigh-IsFirst :
      (i : ℕ) (t : ServerInfo) (b : Bool) (last k : ℕ) (c : Candidate)
      → k ≢ 0
      → k ≤ ratio (load sl t) (divisor t.weight)
      → IsFirst last k c
      → IsFirst last k (weigh ratio sl client i t b c)
  unfolding weigh
  weigh-IsFirst i t b last k c z l p = ground arith

  -- When the server that is looked at first is allowed, with a load for its weight that is not 0,
  -- and none of the others has a lower one by their formula, it is the one assigned, also when it
  -- is not available and others are.
  pub choose_first :
      (clock : ℕ → ℕ) (last : ℕ) (s : ServerInfo) (c : Candidate)
      → get_elem? sl.servers last ≡ some s
      → is_server_allowed sl.filters s.ip client ≡ true
      → ratio (default_load sl s) (divisor s.weight) ≢ 0
      → ((i : ℕ) (t : ServerInfo)
          → i ≢ last
          → get_elem? sl.servers i ≡ some t
          → ratio (default_load sl s) (divisor s.weight) ≤ ratio (load sl t) (divisor t.weight))
      → choose ratio sl client clock last ≡ some c
      → (c.assigned ≡ true) × (c.server ≡ last)
  unfolding default_candidate
  choose_first clock last s c at a loaded least e =
      let k = ratio (default_load sl s) (divisor s.weight) in
      let r =
        (scan_inv ratio sl client _ (IsFirst last k) last
          (λ i t x d here p. weigh-IsFirst i t _ last k x loaded (least i t d here) p)
          (suc (length sl.servers)) (next_index sl last) _ (last, c)
          (record { assigned = a; server = refl; index = refl })
          (loop-choose ratio sl client clock last s at c e)).1 in
      (r.assigned, r.server)
