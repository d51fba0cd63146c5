-- ===== src/Admin/Order.antt =====
-- The order in which the page `list` (src/AdminHTTPServer.cpp) puts its rows, as an order of numbers.
use relb.Prelude.{
  ℕ, ◌+◌, ◌*◌, ◌<◌, ◌≡◌, refl, sym, ◌∙◌, Bool, true, false, not, ◌&&◌, ◌||◌, ◌==◌, ==_iff, ltb, leb,
  if◌then◌else◌, arith, Bool-cases, inl, inr,
}
use mathlib.Core.Path.{subst}
use relb.Address.{IpAddress, IsIp, value, same_ip, ip_less_than-value}
use relb.Admin.Listing.{Row, address_below, address_above, inserts_here}

-- What the rows are sorted by, as a number; all are the same for an order that there is not.
abbrev pub rank : ℕ → Row → ℕ
rank sort_by p =
    if sort_by == 1
    then value p.src_ip * 65536 + p.src_port
    else if sort_by == 2
    then value p.dst_ip * 65536 + p.dst_port
    else if sort_by == 3
    then p.status
    else if sort_by == 4
    then p.modified
    else if sort_by == 5
    then p.created
    else 0

-- Times are shown as durations.
abbrev pub is_rising : ℕ → Bool → Bool
is_rising sort_by ascending = if sort_by == 4 then not ascending else ascending

abbrev pub InOrder : ℕ → Bool → Row → Row → Type 0
InOrder sort_by ascending p q =
    (if is_rising sort_by ascending
      then leb (rank sort_by p) (rank sort_by q)
      else leb (rank sort_by q) (rank sort_by p))
    ≡ true

-- Octets and ports in their bounds.
pub record IsRow (p : Row) : Type 0 where
  pub src : IsIp p.src_ip
  pub src_port : p.src_port < 65536
  pub dst : IsIp p.dst_ip
  pub dst_port : p.dst_port < 65536

-- An order in which the test puts a new row, among rows that are in bounds.
pub record Fits (here : Row → Row → Bool) (R : Row → Row → Type 0) : Type 0 where
  pub front : (p q : Row) → IsRow p → IsRow q → here p q ≡ true → R p q
  pub behind : (p q : Row) → IsRow p → IsRow q → here p q ≡ false → R q p
  pub onward : (p q s : Row) → R p q → R q s → R p s

same_ip-value : (p q : IpAddress) → IsIp p → IsIp q → same_ip p q ≡ (value p == value q)
same_ip-value p q v w = ground (arith, v, w)

below_rank :
    (a b p q : ℕ)
    → p < 65536
    → q < 65536
    → (ltb a b || (a == b && ltb p q)) ≡ ltb (a * 65536 + p) (b * 65536 + q)
below_rank a b p q l m = ground arith

above_rank :
    (a b p q : ℕ)
    → p < 65536
    → q < 65536
    → ((not (ltb a b) && not (a == b)) || (a == b && leb q p)) ≡ leb (b * 65536 + q) (a * 65536 + p)
above_rank a b p q l m = ground arith

address_below-rank :
    (ip ip' : IpAddress) (port port' : ℕ)
    → IsIp ip
    → IsIp ip'
    → port < 65536
    → port' < 65536
    → address_below ip port ip' port' ≡ ltb (value ip * 65536 + port) (value ip' * 65536 + port')
address_below-rank ip ip' port port' v w l m =
    rw (ip_less_than-value ip ip' v w, same_ip-value ip ip' v w)
      (below_rank (value ip) (value ip') port port' l m)

address_above-rank :
    (ip ip' : IpAddress) (port port' : ℕ)
    → IsIp ip
    → IsIp ip'
    → port < 65536
    → port' < 65536
    → address_above ip port ip' port' ≡ leb (value ip' * 65536 + port') (value ip * 65536 + port)
address_above-rank ip ip' port port' v w l m =
    rw (ip_less_than-value ip ip' v w, same_ip-value ip ip' v w)
      (above_rank (value ip) (value ip') port port' l m)

-- The orders that there are, and all others.
by_sort :
    (P : ℕ → Type 0) (sort_by : ℕ)
    → P 1
    → P 2
    → P 3
    → P 4
    → P 5
    → (sort_by == 1 ≡ false
        → sort_by == 2 ≡ false
        → sort_by == 3 ≡ false
        → sort_by == 4 ≡ false
        → sort_by == 5 ≡ false
        → P sort_by)
    → P sort_by
by_sort P sort_by a b c d e other = elim (Bool-cases (sort_by == 1)) [
  | inl z ↦ known 1 z a
  | inr z1 ↦ elim (Bool-cases (sort_by == 2)) [
    | inl z ↦ known 2 z b
    | inr z2 ↦ elim (Bool-cases (sort_by == 3)) [
      | inl z ↦ known 3 z c
      | inr z3 ↦ elim (Bool-cases (sort_by == 4)) [
        | inl z ↦ known 4 z d
        | inr z4 ↦ elim (Bool-cases (sort_by == 5)) [
          | inl z ↦ known 5 z e
          | inr z5 ↦ other z1 z2 z3 z4 z5
        ]
      ]
    ]
  ]
]
  where
    known : (m : ℕ) → sort_by == m ≡ true → P m → P sort_by
    known m z h = subst P (sym ((==_iff sort_by m).0 z)) h

-- An order that there is.
abbrev is_known : ℕ → Bool
is_known sort_by =
    sort_by == 1 || (sort_by == 2 || (sort_by == 3 || (sort_by == 4 || sort_by == 5)))

abbrev by_rank : ℕ → Bool → Row → Row → Bool
by_rank sort_by ascending p q =
    if is_rising sort_by ascending
    then ltb (rank sort_by p) (rank sort_by q)
    else leb (rank sort_by q) (rank sort_by p)

-- The test compares the ranks.
abbrev ByRank : Bool → Row → Row → ℕ → Type 0
ByRank ascending p q sort_by =
    inserts_here sort_by ascending p q ≡ (is_known sort_by && by_rank sort_by ascending p q)

module _ (p q : Row) (v : IsRow p) (w : IsRow q) where
  src_below :
      address_below p.src_ip p.src_port q.src_ip q.src_port
      ≡ ltb (value p.src_ip * 65536 + p.src_port) (value q.src_ip * 65536 + q.src_port)
  src_below =
      address_below-rank p.src_ip q.src_ip p.src_port q.src_port v.src w.src v.src_port w.src_port

  dst_below :
      address_below p.dst_ip p.dst_port q.dst_ip q.dst_port
      ≡ ltb (value p.dst_ip * 65536 + p.dst_port) (value q.dst_ip * 65536 + q.dst_port)
  dst_below =
      address_below-rank p.dst_ip q.dst_ip p.dst_port q.dst_port v.dst w.dst v.dst_port w.dst_port

  src_above :
      address_above p.src_ip p.src_port q.src_ip q.src_port
      ≡ leb (value q.src_ip * 65536 + q.src_port) (value p.src_ip * 65536 + p.src_port)
  src_above =
      address_above-rank p.src_ip q.src_ip p.src_port q.src_port v.src w.src v.src_port w.src_port

  dst_above :
      address_above p.dst_ip p.dst_port q.dst_ip q.dst_port
      ≡ leb (value q.dst_ip * 65536 + q.dst_port) (value p.dst_ip * 65536 + p.dst_port)
  dst_above =
      address_above-rank p.dst_ip q.dst_ip p.dst_port q.dst_port v.dst w.dst v.dst_port w.dst_port

  here_rank : (sort_by : ℕ) (ascending : Bool) → ByRank ascending p q sort_by
  unfolding inserts_here
  here_rank sort_by true =
      by_sort (ByRank true p q) sort_by src_below dst_below refl refl refl
        λ z1 z2 z3 z4 z5. rw (z1, z2, z3, z4, z5) refl
  here_rank sort_by false =
      by_sort (ByRank false p q) sort_by src_above dst_above refl refl refl
        λ z1 z2 z3 z4 z5. rw (z1, z2, z3, z4, z5) refl

unknown_rank : (sort_by : ℕ) (p : Row) → is_known sort_by ≡ false → rank sort_by p ≡ 0
unknown_rank sort_by p h = ground (arith, h)

-- The ranks `m` and `n` of a new row and of the one that is there.
ranked_front :
    (rising known : Bool) (m n : ℕ)
    → known && (if rising then ltb m n else leb n m) ≡ true
    → (if rising then leb m n else leb n m) ≡ true
ranked_front rising known m n h = ground (arith, h)

ranked_behind :
    (rising known : Bool) (m n : ℕ)
    → (known ≡ false → (m ≡ 0) × (n ≡ 0))
    → known && (if rising then ltb m n else leb n m) ≡ false
    → (if rising then leb n m else leb m n) ≡ true
ranked_behind true true m n z h = ground (arith, h)
ranked_behind false true m n z h = ground (arith, h)
ranked_behind true false m n z h = let (a, b) = z refl in ground (arith, a, b)
ranked_behind false false m n z h = let (a, b) = z refl in ground (arith, a, b)

ranked_onward :
    (rising : Bool) (m n k : ℕ)
    → (if rising then leb m n else leb n m) ≡ true
    → (if rising then leb n k else leb k n) ≡ true
    → (if rising then leb m k else leb k m) ≡ true
ranked_onward rising m n k h l = ground (arith, h, l)

pub inserts_here-Fits :
    (sort_by : ℕ) (ascending : Bool)
    → Fits (inserts_here sort_by ascending) (InOrder sort_by ascending)
inserts_here-Fits sort_by ascending =
    let rising = is_rising sort_by ascending in
    let known = is_known sort_by in
    record {
      front = λ p q v w e.
          ranked_front rising known (rank sort_by p) (rank sort_by q)
            (sym (here_rank p q v w sort_by ascending) ∙ e);
      behind = λ p q v w e.
          ranked_behind rising known (rank sort_by p) (rank sort_by q)
            (λ z. (unknown_rank sort_by p z, unknown_rank sort_by q z))
            (sym (here_rank p q v w sort_by ascending) ∙ e);
      onward =
          λ p q s h l. ranked_onward rising (rank sort_by p) (rank sort_by q) (rank sort_by s) h l;
    }
