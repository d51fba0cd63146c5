-- ===== src/ServerList/Sharing.antt =====
-- What another list learns when it is set as the parallel list (`setParallelList` of
-- src/ServerList.cpp).
use relb.Prelude.{
  ℕ, ◌≡◌, refl, true, none, some, inl, inr, List, [], ◌∷◌, ◌++◌, is_some, append_assoc, append-nil,
  Option-cases, arith,
}
use relb.ServerList.State.{PeerInfo, ServerList, post_parallel, set_parallel}
use relb.ServerList.Setup.{share_all, set_parallel_list}

-- The message that tells a connection's twin the status.
abbrev told : PeerInfo → List (ℕ × ℕ)
told p = elim p.parallel [ none ↦ [] | some twin ↦ (p.status, twin) ∷ [] ]

-- Those messages, from the last connection to the first.
abbrev news : List PeerInfo → List (ℕ × ℕ)
news [] = []
news (p ∷ ps) = news ps ++ told p

-- Each connection is what it was, but that it has a twin now if it had none.
abbrev Twinned : List PeerInfo → List PeerInfo → Type 0
Twinned [] [] = Unit {0}
Twinned (p ∷ ps) (q ∷ qs) =
    (is_some q.parallel ≡ true) × (record q { parallel = p.parallel } ≡ p) × Twinned ps qs
Twinned _ _ = ⊥

module _ (p : PeerInfo) (ps : List PeerInfo) (sl : ServerList) where
  share_all-none :
      p.parallel ≡ none
      → share_all (p ∷ ps) sl ≡ (
        record p { parallel = some (share_all ps sl).1.next_address } ∷ (share_all ps sl).0,
        (set_parallel p (share_all ps sl).1).1,
      )
  unfolding share_all set_parallel
  share_all-none n = ground (arith, n)

  share_all-some :
      (twin : ℕ)
      → p.parallel ≡ some twin
      → share_all (p ∷ ps) sl
        ≡ (p ∷ (share_all ps sl).0, post_parallel p.status (some twin) (share_all ps sl).1)
  unfolding share_all
  share_all-some twin e = ground (arith, e)

share_all_lem :
    (ps : List PeerInfo) (sl : ServerList)
    → sl.parallel_list ≡ true
    → Twinned ps (share_all ps sl).0
      × ((share_all ps sl).1.admin_posts ≡ sl.admin_posts ++ news (share_all ps sl).0)
      × ((share_all ps sl).1.parallel_list ≡ true)
unfolding set_parallel post_parallel
share_all_lem [] sl h = unfold share_all in (tt, ground (arith, append-nil sl.admin_posts), h)
share_all_lem (p ∷ ps) sl h =
    let (a, b, c) = share_all_lem ps sl h in
    let (qs, t) = share_all ps sl in
    elim (Option-cases p.parallel) [
      | inl n ↦ rw (share_all-none p ps sl n) (
        (refl, refl, a),
        ground (arith, b, append_assoc sl.admin_posts (news qs) ((p.status, t.next_address) ∷ [])),
        c,
      )
      | inr (twin, e) ↦ rw (share_all-some p ps sl twin e) (
        (ground (arith, e), refl, a),
        ground (arith, b, c, e, append_assoc sl.admin_posts (news qs) (told p)),
        ground (arith, c),
      )
    ]

-- When a list is set to be kept informed, every connection has a twin afterwards and is unchanged but
-- for that, and the list is told the status of each twin once, from the last connection to the first.
set_parallel_list_lem :
    (sl : ServerList)
    → Twinned sl.peers (set_parallel_list true sl).peers
      × ((set_parallel_list true sl).admin_posts
          ≡ sl.admin_posts ++ news (set_parallel_list true sl).peers)
unfolding set_parallel_list
set_parallel_list_lem sl =
    let (a, b, c) = share_all_lem sl.peers (record sl { parallel_list = true }) refl in (a, b)
