-- ===== src/ServerList/Served.antt =====
-- What a caller of `ServerList::getServer` gets, on every path.
use relb.Prelude.{
  get_elem?-last, get_elem?-update_at, ℕ, ◌+◌, ◌≡◌, refl, inl, inr, true, none, some, List, length,
  get_elem?, update_at, ◌==◌, Bool-cases, Option-cases, if_cases, arith,
}
use mathlib.Core.Path.{subst}
use native.Mathlib.Nat.{zero-add}
use relb.Address.{IpAddress, same_ip, same_ip_refl}
use relb.Status.{connecting_server}
use relb.ServerList.State.{
  ServerInfo, PeerInfo, ServerList, post_parallel, request_close, set_parallel,
}
use relb.ServerList.Sessions.{
  Lost, Session, same_port, lost, no_session, reuse_session, recreate_session, announce,
  start_connecting, session_server, drop_lost,
}
use relb.ServerList.GetServer.{Clock, place, assign_new, session_of, by_session, get_server}
use relb.ServerList.Assigned.{started, assign_new-IsPlaced}
use relb.ServerList.Persistence.{Names, NamesIf, find_session-Names, session_server_status}

-- The connection that is returned is one of this client and port, being made, in the hands of the
-- manager that was named, and it is an entry of the list.
pub record IsServed (client : IpAddress) (port manager : ℕ) (t : ServerList) (q : PeerInfo)
    : Type 0 where
  pub client_ip : same_ip q.src_ip client ≡ true
  pub client_port : q.src_port ≡ port
  pub being_made : q.status ≡ connecting_server
  pub managed : q.manager ≡ some manager
  pub index : ℕ
  pub listed : get_elem? t.peers index ≡ some q

place-IsServed :
    (sl t : ServerList) (client : IpAddress) (port manager now last : ℕ) (s : ServerInfo)
    (q : PeerInfo)
    → place sl client port manager now last s ≡ (t, some q)
    → IsServed client port manager t q
unfolding place announce set_parallel
place-IsServed sl t client port manager now last s q e = record {
  client_ip = ground (arith, same_ip_refl client);
  client_port = ground arith;
  being_made = ground arith;
  managed = ground arith;
  index = length sl.peers;
  listed = ground (arith, get_elem?-last sl.peers q);
}

abbrev left : ServerList → IpAddress → Lost → List PeerInfo
left sl client l =
    (drop_lost client l.server sl.peers (update_at start_connecting l.server sl.servers)).0

recreate-IsServed :
    (sl : ServerList) (client : IpAddress) (port manager now : ℕ) (l : Lost)
    → let (t, q) = recreate_session sl client port manager now l in IsServed client port manager t q
unfolding recreate_session announce set_parallel
recreate-IsServed sl client port manager now l = record {
  client_ip = ground (arith, same_ip_refl client);
  client_port = ground arith;
  being_made = ground arith;
  managed = ground arith;
  index = length (left sl client l);
  listed = get_elem?-last (left sl client l) (recreate_session sl client port manager now l).1;
}

reuse-IsServed :
    (sl : ServerList) (client : IpAddress) (port manager now i j : ℕ) (p : PeerInfo)
    → same_ip p.src_ip client ≡ true
    → get_elem? sl.peers i ≡ some p
    → let (t, q) = reuse_session sl port manager now i p j in IsServed client port manager t q
unfolding reuse_session request_close post_parallel
reuse-IsServed sl client port manager now i j p own at = record {
  client_ip = own;
  client_port = refl;
  being_made = refl;
  managed = refl;
  index = i;
  listed = ground (
    arith,
    get_elem?-update_at (λ _. (reuse_session sl port manager now i p j).1) sl.peers i p at,
  );
}

-- The connection that a session names is the client's own, at its place in the list.
abbrev Own : ServerList → IpAddress → ℕ → ℕ → PeerInfo → Type 0
Own sl client i j p = (same_ip p.src_ip client ≡ true) × (get_elem? sl.peers i ≡ some p)

module _ (ratio : ℕ → ℕ → ℕ) (sl : ServerList) (client : IpAddress) (port manager : ℕ)
    (clock : Clock) where
  session_of-Own : NamesIf (Own sl client) (session_of ratio sl client port clock)
  session_of-Own =
      if_cases (NamesIf (Own sl client)) sl.reconnect_lost_sessions
        (find_session-Names sl client port clock.session (Own sl client) 0 none sl.peers own tt) tt
    where
      own :
          (k j : ℕ) (p : PeerInfo)
          → get_elem? sl.peers k ≡ some p
          → session_server sl client (clock.session (0 + k)) p ≡ some (some j)
          → Own sl client (0 + k) j p
      own k j p at e =
          ((session_server_status sl client (clock.session (0 + k)) p j e).1, rw zero-add at)

  assign_new-IsServed :
      (t : ServerList) (q : PeerInfo)
      → assign_new ratio sl client port manager clock ≡ some (t, some q)
      → IsServed client port manager t q
  unfolding assign_new
  assign_new-IsServed t q e =
      let (c, f, p) = assign_new-IsPlaced ratio sl t client port manager clock q e in
      place-IsServed (started sl) t client port manager clock.made p.last p.info q p.placed

  by_session-IsServed :
      (x : Session) (t : ServerList) (q : PeerInfo)
      → Names (Own sl client) x
      → by_session ratio x sl client port manager clock ≡ some (t, some q)
      → IsServed client port manager t q
  unfolding by_session
  by_session-IsServed (same_port i j p) t q (own, at) e =
      ground (arith, reuse-IsServed sl client port manager clock.made i j p own at)
  by_session-IsServed (lost l) t q own e =
      ground (arith, recreate-IsServed sl client port manager clock.made l)
  by_session-IsServed no_session t q own e = assign_new-IsServed t q e

  -- A call of `getServer` that returns a connection, on whichever of its three paths (a session at
  -- the same port, a session at another port, a server that is chosen), returns one whose source is
  -- the client's address and port, which is being made, which the named manager serves, and which
  -- is an entry of the list afterwards.
  pub get_server-IsServed :
      (t : ServerList) (q : PeerInfo)
      → get_server ratio sl client port manager clock ≡ some (t, some q)
      → IsServed client port manager t q
  unfolding get_server
  get_server-IsServed t q e = elim (Bool-cases (length sl.servers == 0)) [
    | inl n ↦ ground (arith, n)
    | inr m ↦ elim (Option-cases (session_of ratio sl client port clock)) [
      | inl f ↦ ground (arith, m, f)
      | inr (x, f) ↦
          by_session-IsServed x t q (subst (NamesIf (Own sl client)) f session_of-Own)
            (ground (arith, m, f))
    ]
  ]
