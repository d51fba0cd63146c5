-- ===== src/ServerList/Scan.antt =====
-- The search loop of `ServerList::getServer`: it ends, it visits every other server once, and what
-- each visit keeps holds at the end.
use relb.Prelude.{
  ℕ, zero, suc, ◌+◌, ◌-◌, ◌<◌, ◌≡◌, ◌≢◌, sym, Bool, some, inl, inr, length, get_elem?, get_elem?-lt,
  ◌==◌, leb, if◌then◌else◌, Bool-cases, Option-cases, arith,
}
use mathlib.Core.Path.{subst}
use native.Mathlib.Decide.{ℕ_discrete}
use relb.Address.{IpAddress}
use relb.ServerList.State.{ServerInfo, ServerList}
use relb.ServerList.Select.{Candidate, weigh, next_index, scan}

-- How many steps lead from `i` to `j` round a list of `n`.
abbrev pub steps : ℕ → ℕ → ℕ → ℕ
steps n i j = if leb i j then j - i else n - i + j

pub next_lt :
    (sl : ServerList) (i : ℕ) → i < length sl.servers → next_index sl i < length sl.servers
unfolding next_index
next_lt sl i h = ground arith

pub steps-next :
    (sl : ServerList) (i j : ℕ)
    → i < length sl.servers
    → j < length sl.servers
    → i ≢ j
    → suc (steps (length sl.servers) (next_index sl i) j) ≡ steps (length sl.servers) i j
unfolding next_index
steps-next sl i j h k d = ground arith

-- From behind `i` every other index comes before `i` itself.
pub steps_before :
    (sl : ServerList) (i j : ℕ)
    → i < length sl.servers
    → j < length sl.servers
    → j ≢ i
    → steps (length sl.servers) (next_index sl i) j < steps (length sl.servers) (next_index sl i) i
unfolding next_index
steps_before sl i j h k d = ground arith

module _ (ratio : ℕ → ℕ → ℕ) (sl : ServerList) (client : IpAddress)
    (judge : ℕ → ServerInfo → Bool) where
  -- With fuel for the way to `last` the loop ends.
  pub scan_total :
      (fuel current last : ℕ) (c : Candidate)
      → current < length sl.servers
      → last < length sl.servers
      → steps (length sl.servers) current last < fuel
      → (r : ℕ × Candidate) × (scan ratio sl client judge fuel current last c ≡ some r)
  unfolding scan
  scan_total zero current last c h k f = absurd (omega arith)
  scan_total (suc fuel) current last c h k f = elim (Bool-cases (current == last)) [
    | inl e ↦ ((current, c), rw e)
    | inr d ↦
        let (s, at) = get_elem?-lt sl.servers current h in
        let (r, e) =
          scan_total fuel (next_index sl current) last
            (weigh ratio sl client current s (judge current s) c) (next_lt sl current h) k
            (ground (arith, steps-next sl current last h k)) in
        (r, ground (arith, at, e))
  ]

  -- What every visit keeps holds at the end, and the loop ends at `last`.
  pub scan_inv :
      (P : Candidate → Type 0) (last : ℕ)
      → ((i : ℕ) (s : ServerInfo) (c : Candidate)
          → i ≢ last
          → get_elem? sl.servers i ≡ some s
          → P c
          → P (weigh ratio sl client i s (judge i s) c))
      → (fuel current : ℕ) (c : Candidate) (r : ℕ × Candidate) → P c
      → scan ratio sl client judge fuel current last c ≡ some r
      → (r.0 ≡ last) × P r.1
  unfolding scan
  scan_inv P last keep zero current c r p e = cc
  scan_inv P last keep (suc fuel) current c r p e = elim (Bool-cases (current == last)) [
    | inl d ↦
        let q : r ≡ (current, c) = ground arith in
        (ground (arith, q), subst (λ (t : ℕ × Candidate). P t.1) (sym q) p)
    | inr d ↦ elim (Option-cases (get_elem? sl.servers current)) [
      | inl n ↦ ground arith
      | inr (s, at) ↦
          scan_inv P last keep fuel (next_index sl current)
            (weigh ratio sl client current s (judge current s) c) r
            (keep current s c (ground arith) at p) (ground arith)
    ]
  ]

  -- What a visit of `j` establishes and every visit keeps holds at the end, if `j` is on the way.
  pub scan_covers :
      (P : Candidate → Type 0) (last j : ℕ)
      → j < length sl.servers
      → ((i : ℕ) (s : ServerInfo) (c : Candidate)
          → i ≡ j
          → get_elem? sl.servers i ≡ some s
          → P (weigh ratio sl client i s (judge i s) c))
      → ((i : ℕ) (s : ServerInfo) (c : Candidate)
          → i ≢ last
          → get_elem? sl.servers i ≡ some s
          → P c
          → P (weigh ratio sl client i s (judge i s) c))
      → (fuel current : ℕ) (c : Candidate) (r : ℕ × Candidate) → current < length sl.servers
      → last < length sl.servers
      → steps (length sl.servers) current j < steps (length sl.servers) current last
      → scan ratio sl client judge fuel current last c ≡ some r
      → P r.1
  unfolding scan
  scan_covers P last j lt make keep zero current c r h k w e = cc
  scan_covers P last j lt make keep (suc fuel) current c r h k w e =
      let (s, here) = get_elem?-lt sl.servers current h in
      let moved : current ≢ last = ground arith in
      let c' = weigh ratio sl client current s (judge current s) c in
      let rest : scan ratio sl client judge fuel (next_index sl current) last c' ≡ some r =
        ground (arith, here) in
      elim (ℕ_discrete current j) [
        | yes same ↦
            (scan_inv P last keep fuel (next_index sl current) c' r (make current s c same here)
              rest).1
        | no other ↦
            scan_covers P last j lt make keep fuel (next_index sl current) c' r
              (next_lt sl current h) k
              (omega
                (arith, steps-next sl current j h lt other, steps-next sl current last h k moved))
              rest
      ]
