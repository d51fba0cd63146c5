-- ===== src/ServerList/Answer.antt =====
-- `ServerList::getServer` always returns.
use relb.Prelude.{
  ℕ, ◌<◌, ◌≡◌, ◌≢◌, refl, inl, inr, Option, none, some, length, get_elem?-lt, ◌==◌, leb,
  if◌then◌else◌, Bool-cases, arith,
}
use relb.Address.{IpAddress}
use relb.ServerList.State.{PeerInfo, ServerList}
use relb.ServerList.Select.{Candidate}
use relb.ServerList.Choice.{choose_total}
use relb.ServerList.Sessions.{Session, same_port, lost, no_session, reuse_session, recreate_session}
use relb.ServerList.Persistence.{Names}
use relb.ServerList.Searched.{Listed, find_session-Listed}
use relb.ServerList.GetServer.{
  Clock, first_index, place, assign, assign_new, session_of, by_session, get_server,
}

pub first_index_lt : (sl : ServerList) → length sl.servers ≢ 0 → first_index sl < length sl.servers
unfolding first_index
first_index_lt sl h = ground arith

assign_total :
    (sl : ServerList) (client : IpAddress) (port manager now : ℕ) (c : Candidate)
    → length sl.servers ≢ 0
    → (r : ServerList × Option PeerInfo) × (assign sl client port manager now c ≡ some r)
unfolding assign
assign_total sl client port manager now c h = elim (Bool-cases c.assigned) [
  | inl a ↦
      let last = (if leb (length sl.servers) c.server then 0 else c.server) in
      let (s, at) = get_elem?-lt sl.servers last (ground arith) in
      (place sl client port manager now last s, ground (arith, at, a))
  | inr n ↦ ((sl, none), ground (arith, n))
]

module _ (ratio : ℕ → ℕ → ℕ) where
  assign_new_total :
      (sl : ServerList) (client : IpAddress) (port manager : ℕ) (clock : Clock)
      → length sl.servers ≢ 0
      → (r : ServerList × Option PeerInfo) × (assign_new ratio sl client port manager clock
          ≡ some r)
  unfolding assign_new
  assign_new_total sl client port manager clock h =
      let started = record sl { last_server_assigned = first_index sl } in
      let (c, e) =
        choose_total ratio started client clock.server (first_index sl) (first_index_lt sl h) in
      let (r, f) = assign_total started client port manager clock.made c h in
      (r, ground (arith, e, f))

  by_session_total :
      (x : Session) (sl : ServerList) (client : IpAddress) (port manager : ℕ) (clock : Clock)
      → length sl.servers ≢ 0
      → Names (Listed sl) x
      → (r : ServerList × Option PeerInfo) × (by_session ratio x sl client port manager clock
          ≡ some r)
  unfolding by_session
  by_session_total (same_port i j p) sl client port manager clock h v =
      let (s, at) = get_elem?-lt sl.servers j v in
      let (t, q) = reuse_session sl port manager clock.made i p j in
      ((t, some q), simp (by_session, at) refl)
  by_session_total (lost l) sl client port manager clock h v =
      let (s, at) = get_elem?-lt sl.servers l.server v in
      let (t, q) = recreate_session sl client port manager clock.made l in
      ((t, some q), simp (by_session, at) refl)
  by_session_total no_session sl client port manager clock h v =
      assign_new_total sl client port manager clock h

  session_of_total :
      (sl : ServerList) (client : IpAddress) (port : ℕ) (clock : Clock)
      → (x : Session) × (session_of ratio sl client port clock ≡ some x) × Names (Listed sl) x
  session_of_total sl client port clock = elim (Bool-cases sl.reconnect_lost_sessions) [
    | inl b ↦
        let (x, f, u) = find_session-Listed sl client port clock.session 0 none sl.peers tt in
        (x, simp b f, u)
    | inr b ↦ (no_session, simp b refl, tt)
  ]

  -- A call of `getServer` ends with a result for every list of servers, sessions and filters: both
  -- searches end, the one for a session and the one for a server, and neither they nor the change
  -- of the server of a session read an entry beyond the list of servers.
  pub get_server_total :
      (sl : ServerList) (client : IpAddress) (port manager : ℕ) (clock : Clock)
      → (r : ServerList × Option PeerInfo) × (get_server ratio sl client port manager clock
          ≡ some r)
  unfolding get_server
  get_server_total sl client port manager clock = elim (Bool-cases (length sl.servers == 0)) [
    | inl e ↦ ((sl, none), rw e refl)
    | inr n ↦
        let (x, e, u) = session_of_total sl client port clock in
        let (r, f) = by_session_total x sl client port manager clock (ground arith) u in
        (r, simp (get_server, n, e) f)
  ]
