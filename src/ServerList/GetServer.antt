-- ===== src/ServerList/GetServer.antt =====
-- `ServerList::getServer` (src/ServerList.cpp).
use relb.Prelude.{
  given, ℕ, suc, ◌+◌, Option, none, some, [], ◌∷◌, ◌++◌, get_elem?, update_at, length, leb, ◌==◌,
  if◌then◌else◌,
}
use relb.Address.{IpAddress}
use relb.ServerList.State.{ServerInfo, PeerInfo, ServerList}
use relb.ServerList.Select.{Candidate, choose}
use relb.ServerList.Sessions.{
  Session, same_port, lost, no_session, find_session, reuse_session, recreate_session, new_peer,
  announce, start_connecting,
}

-- The readings of the clock in one call: when each connection and each server is looked at, and when
-- the connection is made.
pub record Clock : Type 0 where
  pub session : ℕ → ℕ
  pub server : ℕ → ℕ
  pub made : ℕ

-- `last_server_assigned++`, and back to 0 at the end of the list.
unfoldable pub first_index : ServerList → ℕ
first_index sl =
    if leb (length sl.servers) (sl.last_server_assigned + 1) then 0 else sl.last_server_assigned + 1

-- A new connection to the server `s` at the index `last`.
unfoldable pub place :
    ServerList → IpAddress → ℕ → ℕ → ℕ → ℕ → ServerInfo → ServerList × Option PeerInfo
place sl client port manager now last s =
    let known = announce (new_peer sl.next_address client port s.ip s.port manager now) (record sl {
      last_server_assigned = last;
      servers = update_at start_connecting last sl.servers;
      next_address = suc sl.next_address;
    }) in
    (record known.1 { peers = known.1.peers ++ known.0 ∷ [] }, some known.0)

-- The candidate gets the connection, if it was assigned. `none` is a read beyond the list.
unfoldable pub assign :
    ServerList → IpAddress → ℕ → ℕ → ℕ → Candidate → Option (ServerList × Option PeerInfo)
unfolding place
assign sl client port manager now c =
    let last = (if leb (length sl.servers) c.server then 0 else c.server) in
    if c.assigned
    then elim (get_elem? sl.servers last) [
      | none ↦ none
      | some s ↦ some (place sl client port manager now last s)
    ]
    else some (sl, none)

module _ (ratio : ℕ → ℕ → ℕ) where
  -- The server that the search chooses, from the one behind the last assigned on.
  unfoldable pub assign_new :
      ServerList → IpAddress → ℕ → ℕ → Clock → Option (ServerList × Option PeerInfo)
  unfolding first_index assign choose
  assign_new sl client port manager clock =
      let started = record sl { last_server_assigned = first_index sl } in
      elim (choose ratio started client clock.server (first_index sl)) [
        | none ↦ none
        | some c ↦ assign started client port manager clock.made c
      ]

  abbrev pub session_of : ServerList → IpAddress → ℕ → Clock → Option Session
  session_of sl client port clock =
      if sl.reconnect_lost_sessions
      then find_session sl client port clock.session 0 none sl.peers
      else some no_session

  -- The server of a session is read: `none` is a read beyond the list.
  unfoldable pub by_session :
      Session → ServerList → IpAddress → ℕ → ℕ → Clock → Option (ServerList × Option PeerInfo)
  unfolding reuse_session recreate_session assign_new
  by_session (same_port i j p) sl client port manager clock =
      let (t, q) = reuse_session sl port manager clock.made i p j in
      given (get_elem? sl.servers j) λ s. some (t, some q)
  by_session (lost l) sl client port manager clock =
      let (t, q) = recreate_session sl client port manager clock.made l in
      given (get_elem? sl.servers l.server) λ s. some (t, some q)
  by_session no_session sl client port manager clock = assign_new sl client port manager clock

  -- The client's address and port, the manager that will serve it, and the clock. No connection is
  -- returned when there is no server, or none for this client. The outer `none` is a fault.
  unfoldable pub get_server :
      ServerList → IpAddress → ℕ → ℕ → Clock → Option (ServerList × Option PeerInfo)
  unfolding by_session find_session
  get_server sl client port manager clock =
      if length sl.servers == 0
      then some (sl, none)
      else given (session_of sl client port clock) (λ x. by_session x sl client port manager clock)
