-- ===== src/ServerList/CleanUp.antt =====
-- What `cleanConnections` (src/ServerList.cpp) does to the lists.
use relb.Prelude.{
  ℕ, ◌≡◌, refl, true, none, some, List, [], ◌∷◌, ◌++◌, append_assoc, append-nil, if◌then◌else◌,
  Bool-cases, inl, inr, arith,
}
use relb.Status.{has, peer_not_connected, peer_connection_deleted}
use relb.ServerList.State.{PeerInfo, ServerList, post_parallel}
use relb.ServerList.Cleaning.{forget_peer, clean_loop, clean_connections}

-- The message that tells the twin of a connection that it is deleted.
abbrev pub farewell : PeerInfo → List (ℕ × ℕ)
farewell p = elim p.parallel [ none ↦ [] | some twin ↦ (peer_connection_deleted, twin) ∷ [] ]

-- Those messages for the connections that are over, in their order.
abbrev pub farewells : List PeerInfo → List (ℕ × ℕ)
farewells [] = []
farewells (p ∷ ps) =
    let rest = farewells ps in if has p.status peer_not_connected then farewell p ++ rest else rest

-- The connections that are not over, in their order.
abbrev pub ongoing : List PeerInfo → List PeerInfo
ongoing [] = []
ongoing (p ∷ ps) =
    let rest = ongoing ps in if has p.status peer_not_connected then rest else p ∷ rest

forget_peer_posts :
    (p : PeerInfo) (sl : ServerList)
    → sl.parallel_list ≡ true
    → ((forget_peer p sl).admin_posts ≡ sl.admin_posts ++ farewell p)
      × ((forget_peer p sl).parallel_list ≡ true)
unfolding forget_peer post_parallel
forget_peer_posts p sl h = ground (arith, append-nil sl.admin_posts)

clean_loop_lem :
    (ps : List PeerInfo) (sl : ServerList)
    → sl.parallel_list ≡ true
    → ((clean_loop ps sl).0 ≡ ongoing ps)
      × ((clean_loop ps sl).1.admin_posts ≡ sl.admin_posts ++ farewells ps)
unfolding clean_loop
clean_loop_lem [] sl h = (refl, ground (arith, append-nil sl.admin_posts))
clean_loop_lem (p ∷ ps) sl h = elim (Bool-cases (has p.status peer_not_connected)) [
  | inl over ↦
      let (f, g) = forget_peer_posts p sl h in
      let (a, b) = clean_loop_lem ps (forget_peer p sl) g in
      (
        ground (arith, a),
        ground (arith, f, b, append_assoc sl.admin_posts (farewell p) (farewells ps)),
      )
  | inr on ↦ let (a, b) = clean_loop_lem ps sl h in (ground (arith, a), ground (arith, b))
]

-- With another list to keep informed, `cleanConnections` keeps the connections that are not over,
-- in their order, and tells the twin of each of the others, once and in order, that it is deleted.
clean_connections_lem :
    (sl : ServerList)
    → sl.parallel_list ≡ true
    → ((clean_connections sl).peers ≡ ongoing sl.peers)
      × ((clean_connections sl).admin_posts ≡ sl.admin_posts ++ farewells sl.peers)
unfolding clean_connections
clean_connections_lem sl h = clean_loop_lem sl.peers sl h
