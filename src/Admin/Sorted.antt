-- ===== src/Admin/Sorted.antt =====
-- The rows that the page `list` (src/AdminHTTPServer.cpp) shows are the chosen ones, in order.
use relb.Prelude.{
  ◌≡◌, ◌≢◌, Bool, false, List, [], ◌∷◌, ◌++◌, append-nil, All, All_mono, ◌==◌, if◌then◌else◌, arith,
  Bool-cases, inl, inr,
}
use mathlib.Core.Path.{subst}
use mathlib.Core.List.{Perm, perm_middle}
use mathlib.Core.List.Perm
use relb.Address.{IpAddress}
use relb.ServerList.State.{PeerInfo}
use relb.Admin.Listing.{Row, row_of, Request, passes, inserts_here, insert_row, insert_all, listing}
use relb.Admin.Order.{InOrder, IsRow, Fits, inserts_here-Fits}

-- The rows of the connections that pass, as they stand in the list.
abbrev pub chosen : IpAddress → Request → List PeerInfo → List Row
chosen ip_none r [] = []
chosen ip_none r (p ∷ ps) =
    let more = chosen ip_none r ps in if passes ip_none r p then row_of p ∷ more else more

-- Each row is in order with all that follow it.
abbrev pub IsOrdered : {A : Type 0} → (A → A → Type 0) → List A → Type 0
IsOrdered R [] = Unit {0}
IsOrdered R (x ∷ xs) = All (R x) xs × IsOrdered R xs

insert_row-perm :
    (here : Row → Row → Bool) (p : Row) (rows : List Row) → Perm (insert_row here p rows) (p ∷ rows)
unfolding insert_row
insert_row-perm here p [] = Perm.rfl
insert_row-perm here p (q ∷ qs) = elim (Bool-cases (here p q)) [
  | inl e ↦ rw e Perm.rfl
  | inr e ↦ rw e (Perm.trans (Perm.cons q (insert_row-perm here p qs)) (Perm.swap p q qs))
]

insert_row-All :
    (P : Row → Type 0) (here : Row → Row → Bool) (p : Row) (rows : List Row)
    → P p
    → All P rows
    → All P (insert_row here p rows)
unfolding insert_row
insert_row-All P here p [] v w = (v, tt)
insert_row-All P here p (q ∷ qs) v w = elim (Bool-cases (here p q)) [
  | inl e ↦ rw e (v, w)
  | inr e ↦ rw e (w.0, insert_row-All P here p qs v w.1)
]

insert_row-IsOrdered :
    (here : Row → Row → Bool) (R : Row → Row → Type 0)
    → Fits here R
    → (p : Row) (rows : List Row) → IsRow p
    → All IsRow rows
    → IsOrdered R rows
    → IsOrdered R (insert_row here p rows)
unfolding insert_row
insert_row-IsOrdered here R f p [] v w s = (tt, tt)
insert_row-IsOrdered here R f p (q ∷ qs) v w s = elim (Bool-cases (here p q)) [
  | inl e ↦
      let first = f.front p q v w.0 e in
      rw e ((first, All_mono (R q) (R p) qs (λ x h. f.onward p q x first h) s.0), s)
  | inr e ↦ rw e (
    insert_row-All (R q) here p qs (f.behind p q v w.0 e) s.0,
    insert_row-IsOrdered here R f p qs v w.1 s.1,
  )
]

insert_all-perm :
    (ip_none : IpAddress) (r : Request) (ps : List PeerInfo) (rows : List Row)
    → Perm (insert_all ip_none r ps rows) (chosen ip_none r ps ++ rows)
unfolding insert_all
insert_all-perm ip_none r [] rows = Perm.rfl
insert_all-perm ip_none r (p ∷ ps) rows = elim (Bool-cases (passes ip_none r p)) [
  | inl e ↦
      let here = inserts_here r.sort_by r.ascending in
      rw e (
        Perm.trans (insert_all-perm ip_none r ps (insert_row here (row_of p) rows)) (
          Perm.trans (Perm.append_left (chosen ip_none r ps) (insert_row-perm here (row_of p) rows))
            (perm_middle (chosen ip_none r ps) rows)))
  | inr e ↦ rw e (insert_all-perm ip_none r ps rows)
]

insert_all-IsOrdered :
    (ip_none : IpAddress) (r : Request) (ps : List PeerInfo) (rows : List Row)
    → All (λ p. IsRow (row_of p)) ps
    → All IsRow rows
    → IsOrdered (InOrder r.sort_by r.ascending) rows
    → IsOrdered (InOrder r.sort_by r.ascending) (insert_all ip_none r ps rows)
unfolding insert_all
insert_all-IsOrdered ip_none r [] rows v w s = s
insert_all-IsOrdered ip_none r (p ∷ ps) rows v w s = elim (Bool-cases (passes ip_none r p)) [
  | inl e ↦
      let here = inserts_here r.sort_by r.ascending in
      let fits = inserts_here-Fits r.sort_by r.ascending in
      rw e (
        insert_all-IsOrdered ip_none r ps (insert_row here (row_of p) rows) v.1
          (insert_row-All IsRow here (row_of p) rows v.0 w)
          (insert_row-IsOrdered here (InOrder r.sort_by r.ascending) fits (row_of p) rows v.0 w s))
  | inr e ↦ rw e (insert_all-IsOrdered ip_none r ps rows v.1 w s)
]

-- With an order to sort by, the page lists exactly the connections that pass the filters, each as
-- often as it is there, and any two rows stand in the order asked for: by the number of the address and
-- port, the status, the time of creation, or the duration, upwards or downwards. The octets and ports
-- are within their bounds.
pub listing-IsOrdered :
    (ip_none : IpAddress) (r : Request) (peers : List PeerInfo)
    → All (λ p. IsRow (row_of p)) peers
    → r.sort_by ≢ 0
    → Perm (listing ip_none r peers) (chosen ip_none r peers)
      × IsOrdered (InOrder r.sort_by r.ascending) (listing ip_none r peers)
unfolding listing
listing-IsOrdered ip_none r peers v h =
    let sorts : r.sort_by == 0 ≡ false = ground (arith, h) in
    rw sorts (
      subst (Perm (insert_all ip_none r peers [])) (append-nil (chosen ip_none r peers))
          (insert_all-perm ip_none r peers []),
      insert_all-IsOrdered ip_none r peers [] v tt tt,
    )
