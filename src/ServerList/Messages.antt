-- ===== src/ServerList/Messages.antt =====
-- `ServerList::processMessage` (src/ServerList.cpp): what the connections and the administration
-- report changes the lists.
use relb.Prelude.{
  ℕ, suc, ◌-◌, Bool, true, false, not, ◌&&◌, ◌||◌, Option, none, some, List, [], ◌∷◌, get_elem?,
  update_at, delete_at, ◌==◌, ltb, if◌then◌else◌,
}
use relb.Address.{IpAddress, same_ip}
use relb.ServerList.State.{ServerInfo, PeerInfo, ServerList, post_parallel, request_close}
use relb.Status.{
  connection_established, disconnected_ok, connection_lost, connection_failed,
  peer_connection_cancelled, peer_connection_kicked, peer_disconnected, peer_not_connected, has,
  event_of, to_byte,
}

-- The index of the connection that the message names, counted from `i`.
unfoldable pub find_peer : ℕ → ℕ → List PeerInfo → Option ℕ
find_peer address i [] = none
find_peer address i (p ∷ ps) =
    let more = find_peer address (suc i) ps in if p.address == address then some i else more

-- The first server with this address and port, counted from `i`.
unfoldable pub server_at : IpAddress → ℕ → ℕ → List ServerInfo → Option ℕ
server_at ip port i [] = none
server_at ip port i (s ∷ ss) =
    let more = server_at ip port (suc i) ss in
    if same_ip s.ip ip && s.port == port then some i else more

-- Another connection of the client, at an index that is not `skip`, is not over.
unfoldable pub other_connected : IpAddress → ℕ → ℕ → List PeerInfo → Bool
other_connected client skip i [] = false
other_connected client skip i (p ∷ ps) =
    (not (i == skip) && (not (has p.status peer_not_connected) && same_ip p.src_ip client))
    || other_connected client skip (suc i) ps

-- The first `switch`: a cancellation changes nothing, a kick asks the manager to close, and any other
-- message is the connection's new status, which is passed on.
unfoldable pub record_status : ℕ → ℕ → ℕ → PeerInfo → ServerList → ServerList
unfolding post_parallel request_close
record_status id now i p sl =
    if id == peer_connection_cancelled
    then sl
    else if id == peer_connection_kicked
    then request_close p.manager (some p.address) sl
    else (post_parallel (to_byte id) p.parallel (record sl {
      peers = update_at (λ q. record q { status = to_byte id; modified = now }) i sl.peers;
    }))

-- A failure is remembered with its time.
abbrev pub note_failure : ℕ → ℕ → ServerInfo → ServerInfo
note_failure id now s =
    if id == connection_failed
    then record s { last_connection_failed = true; last_connection_attempt = now }
    else s

-- `MAX( n - 1, 0 )` is `n - 1` here.
abbrev pub leave : ℕ → ServerInfo → ServerInfo
leave id s =
    if has id connection_failed
    then record s { connecting = s.connecting - 1 }
    else record s { connected = s.connected - 1 }

abbrev pub keep_count : ℕ → ServerInfo → ServerInfo
keep_count id s =
    if has id peer_disconnected
    then record s { disconnected = suc s.disconnected }
    else record s { finished = suc s.finished }

-- A connection is over. It is deleted if its client has another one, or if it is older than the last
-- purge; otherwise it is kept as a session, and counted.
unfoldable pub end_connection : ℕ → ℕ → ℕ → PeerInfo → ServerList → ServerList
unfolding server_at other_connected
end_connection id now i p sl = elim (server_at p.dst_ip p.dst_port 0 sl.servers) [
  | none ↦ sl
  | some j ↦
      if other_connected p.src_ip i 0 sl.peers || ltb p.created sl.last_connections_cleanup
      then record sl {
        servers = update_at (λ s. leave id (note_failure id now s)) j sl.servers;
        peers = delete_at i sl.peers;
      }
      else record sl {
        servers = update_at (λ s. keep_count id (leave id (note_failure id now s))) j sl.servers;
      }
]

abbrev pub establish : ℕ → ServerInfo → ServerInfo
establish now s = record s {
  connected = suc s.connected;
  connecting = s.connecting - 1;
  last_connection_failed = false;
  last_connection_attempt = now;
}

unfoldable pub establish_connection : ℕ → PeerInfo → ServerList → ServerList
unfolding server_at
establish_connection now p sl = elim (server_at p.dst_ip p.dst_port 0 sl.servers) [
  | none ↦ sl
  | some j ↦ record sl { servers = update_at (establish now) j sl.servers }
]

-- The second `switch`, on the event without the side.
unfoldable pub account : ℕ → ℕ → ℕ → PeerInfo → ServerList → ServerList
unfolding end_connection establish_connection
account id now i p sl =
    let event = event_of id in
    if event == connection_lost || (event == disconnected_ok || event == connection_failed)
    then end_connection id now i p sl
    else if event == connection_established
    then establish_connection now p sl
    else sl

-- `id` and `address` are the message; `noted` and `now` are the readings of the clock in the two
-- parts.
unfoldable pub process_message : ℕ → ℕ → ℕ → ℕ → ServerList → ServerList
unfolding find_peer record_status account
process_message id address noted now sl = elim (find_peer address 0 sl.peers) [
  | none ↦ sl
  | some i ↦ elim (get_elem? sl.peers i) [
    | none ↦ sl
    | some p ↦ account id now i p (record_status id noted i p sl)
  ]
]
