-- ===== src/ServerList/Sessions.antt =====
-- The search of `ServerList::getServer` (src/ServerList.cpp) for an earlier session of the client.
use relb.Prelude.{
  given, ℕ, zero, suc, ◌+◌, ◌-◌, false, not, ◌&&◌, ◌||◌, Option, none, some, List, [], ◌∷◌, ◌++◌,
  get_elem?, update_at, length, ◌==◌, ltb, if◌then◌else◌,
}
use relb.Address.{IpAddress, same_ip}
use relb.ServerList.State.{
  ServerInfo, PeerInfo, ServerList, post_parallel, request_close, set_parallel,
}
use relb.Status.{connecting_server, connection_failed, peer_disconnected, peer_not_connected, has}

-- The server with this address that stands last in the list: the two loops over server_index, which
-- go down from the end. `n` is the number of servers not looked at yet. In this search the outer `none`
-- is a read beyond the list, and the inner one that there is no such server.
unfoldable pub find_server : List ServerInfo → IpAddress → ℕ → Option (Option ℕ)
find_server servers ip zero = some none
find_server servers ip (suc n) =
    let lower = find_server servers ip n in
    elim (get_elem? servers n) [
      | none ↦ none
      | some s ↦ if same_ip s.ip ip then some (some n) else lower
    ]

-- Discarded if the time to try it again after a failure has not passed at `now`.
unfoldable pub discard_failed : ServerList → ℕ → Option ℕ → Option (Option ℕ)
discard_failed sl now none = some none
discard_failed sl now (some j) = elim (get_elem? sl.servers j) [
  | none ↦ none
  | some s ↦ some (
      if s.last_connection_failed
        && ltb now (s.last_connection_attempt + sl.server_retry_milliseconds)
      then none
      else some j)
]

-- The server of this connection, if the client may be taken back to it.
unfoldable pub session_server : ServerList → IpAddress → ℕ → PeerInfo → Option (Option ℕ)
unfolding find_server discard_failed
session_server sl client now p =
    if same_ip p.src_ip client && not (p.status == connection_failed)
    then given (find_server sl.servers p.dst_ip (length sl.servers)) (discard_failed sl now)
    else some none

-- lostsessionindex and lostsessionserver, which are set together, and the connection at that index.
pub record Lost : Type 0 where
  pub index : ℕ
  pub server : ℕ
  pub peer : PeerInfo

-- A later connection is preferred to the one found before, and any to one that failed.
unfoldable pub prefer : ℕ → ℕ → PeerInfo → Option Lost → Option Lost
prefer index server p none = some (record { index = index; server = server; peer = p })
prefer index server p (some l) =
    if (ltb l.peer.modified p.modified && not (l.peer.status == connection_failed))
      || l.peer.status == connection_failed
    then some (record { index = index; server = server; peer = p })
    else some l

-- What the loop over the connections ends with: one from the same address and port, with its index
-- and its server, or the best one from the same address, or nothing.
pub data Session : Type 0 where
  same_port : ℕ → ℕ → PeerInfo → Session
  lost : Lost → Session
  no_session : Session

abbrev pub to_session : Option Lost → Session
to_session none = no_session
to_session (some l) = lost l

-- `clock i` is the time at which the connection at index `i` is looked at.
unfoldable pub find_session :
    ServerList → IpAddress → ℕ → (ℕ → ℕ) → ℕ → Option Lost → List PeerInfo → Option Session
unfolding session_server prefer
find_session sl client port clock i best [] = some (to_session best)
find_session sl client port clock i best (p ∷ ps) =
    let skip = find_session sl client port clock (suc i) best ps in
    given (session_server sl client (clock i) p) λ found. elim found [
      | none ↦ skip
      | some j ↦
          let more = find_session sl client port clock (suc i) (prefer i j p best) ps in
          if p.src_port == port then some (same_port i j p) else more
    ]

-- `servers_list[server]->connecting++`.
abbrev pub start_connecting : ServerInfo → ServerInfo
start_connecting s = record s { connecting = suc s.connecting }

-- The same address and port: the object is used again. The call of `closePInfo` passes `pinfo`, which
-- is still NULL here.
unfoldable pub reuse_session : ServerList → ℕ → ℕ → ℕ → ℕ → PeerInfo → ℕ → ServerList × PeerInfo
unfolding request_close post_parallel
reuse_session sl port manager now i p server =
    let again = record p {
      src_port = port;
      status = connecting_server;
      modified = now;
      manager = some manager;
    } in
    let t = request_close p.manager none sl in
    (
      post_parallel connecting_server p.parallel (record t {
        servers = update_at start_connecting server t.servers;
        peers = update_at (λ _. again) i t.peers;
      }),
      again,
    )

-- A connection that is over leaves its server's count; `MAX( n - 1, 0 )` is `n - 1` here.
abbrev pub forget : ℕ → ServerInfo → ServerInfo
forget status s =
    if has status peer_disconnected
    then record s { disconnected = s.disconnected - 1 }
    else record s { finished = s.finished - 1 }

-- The client's connections that are over are deleted, and each is taken off the counts of the server
-- of the session.
unfoldable pub drop_lost :
    IpAddress → ℕ → List PeerInfo → List ServerInfo → List PeerInfo × List ServerInfo
drop_lost client server [] servers = ([], servers)
drop_lost client server (p ∷ ps) servers =
    let over = same_ip p.src_ip client && has p.status peer_not_connected in
    let rest =
      drop_lost client server ps
        (if over then update_at (forget p.status) server servers else servers) in
    (if over then rest.0 else p ∷ rest.0, rest.1)

-- The constructor of a connection that is being made.
abbrev pub new_peer : ℕ → IpAddress → ℕ → IpAddress → ℕ → ℕ → ℕ → PeerInfo
new_peer address src_ip src_port dst_ip dst_port manager now = record {
  address = address;
  src_ip = src_ip;
  src_port = src_port;
  dst_ip = dst_ip;
  dst_port = dst_port;
  status = connecting_server;
  parallel = none;
  manager = some manager;
  created = now;
  modified = now;
  ban_this = false;
  ban_all = false;
}

-- A new connection is announced to the other list, if there is one, as a copy of its own.
unfoldable pub announce : PeerInfo → ServerList → PeerInfo × ServerList
unfolding set_parallel
announce p sl = if sl.parallel_list then set_parallel p sl else (p, sl)

-- Another port: a new connection to the server of the session takes the place of those that are over.
unfoldable pub recreate_session : ServerList → IpAddress → ℕ → ℕ → ℕ → Lost → ServerList × PeerInfo
unfolding drop_lost announce
recreate_session sl client port manager now l =
    let fresh = new_peer sl.next_address client port l.peer.dst_ip l.peer.dst_port manager now in
    let left =
      drop_lost client l.server sl.peers (update_at start_connecting l.server sl.servers) in
    let known = announce fresh (record sl { next_address = suc sl.next_address }) in
    (record known.1 { peers = left.0 ++ known.0 ∷ []; servers = left.1 }, known.0)
