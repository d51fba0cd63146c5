-- ===== src/Connection/Manage.antt =====
-- `manageConnections` and `manageConnectingPeer` of src/ConnectionPeer.cpp, which a connection
-- manager calls after each `select`.
use relb.Prelude.{
  ℕ, Bool, true, false, ◌&&◌, Option, none, some, is_some, List, ◌==◌, if◌then◌else◌,
}
use relb.Socket.{Socket, Reply, is_in_fdset}
use relb.Connection.Peer.{Peer, post, close_client, close_server}
use relb.Connection.Transfer.{
  get_missing_data_from_client, get_missing_data_from_server, send_missing_data_to_client,
  send_missing_data_to_server,
}
use relb.Status.{connection_established, peer_connection_cancelled}

-- What `select` and the system calls answer in one round: which descriptor is in which set, and the
-- four calls.
pub record Round : Type 0 where
  pub client_readable : Bool
  pub client_writable : Bool
  pub server_readable : Bool
  pub server_writable : Bool
  pub recv_client : ℕ → Reply (List ℕ)
  pub recv_server : ℕ → Reply (List ℕ)
  pub send_client : ℕ → Reply ℕ
  pub send_server : ℕ → Reply ℕ

-- `socket->isInFDSET( set )` on a pointer that was tested before.
abbrev pub ready : Option Socket → Bool → Bool
ready none b = false
ready (some s) b = is_in_fdset s b

-- Client to server, first half of the case that both sides are there.
unfoldable pub relay_up : Round → Peer → Peer
relay_up r p =
    if ready p.client r.client_readable
    then send_missing_data_to_server (get_missing_data_from_client p r.recv_client) r.send_server
    else if ready p.server r.server_writable
    then send_missing_data_to_server p r.send_server
    else p

-- Server to client, second half. `pServer` is tested again and `pClient` is not: `none` is the call
-- of a method on a NULL `pClient`.
unfoldable pub relay_down : Round → Peer → Option Peer
relay_down r p =
    if is_some p.server
    then (if ready p.server r.server_readable
        then some (
            send_missing_data_to_client (get_missing_data_from_server p r.recv_server)
              r.send_client)
        else elim p.client [
          | none ↦ none
          | some s ↦ some (
              if is_in_fdset s r.client_writable
              then send_missing_data_to_client p r.send_client
              else p)
        ])
    else some p

-- The case that one side is gone.
unfoldable pub finish_client : Round → Peer → Peer
finish_client r p =
    let q =
      if ready p.client r.client_writable then send_missing_data_to_client p r.send_client else p in
    if is_some p.client
    then (if q.for_client.bytes_to_send == 0
        then post peer_connection_cancelled (close_client q)
        else q)
    else p

unfoldable pub finish_server : Round → Peer → Peer
finish_server r p =
    let q =
      if ready p.server r.server_writable then send_missing_data_to_server p r.send_server else p in
    if is_some p.server
    then (if q.for_server.bytes_to_send == 0
        then post peer_connection_cancelled (close_server q)
        else q)
    else p

unfoldable pub manage_connections : Round → Peer → Option Peer
unfolding relay_up relay_down finish_client finish_server
manage_connections r p =
    if is_some p.client && is_some p.server
    then relay_down r (relay_up r p)
    else some (finish_server r (finish_client r p))

-- While the server is being connected only the client is read.
unfoldable pub connecting_both : Round → Peer → Peer × Bool
connecting_both r p =
    let q =
      if ready p.client r.client_readable
      then get_missing_data_from_client p r.recv_client
      else p in
    if ready q.server r.server_writable
    then (post connection_established (record q { server_connected = true }), true)
    else (q, false)

unfoldable pub connecting_client : Round → Peer → Peer × Bool
connecting_client r p =
    let q =
      if ready p.client r.client_writable then send_missing_data_to_client p r.send_client else p in
    if is_some p.client
    then (if q.for_client.bytes_to_send == 0
        then (post peer_connection_cancelled (close_client q), true)
        else (q, false))
    else (p, false)

unfoldable pub connecting_server : Peer × Bool → Peer × Bool
connecting_server (p, ret) =
    if is_some p.server then (post peer_connection_cancelled (close_server p), false) else (p, ret)

-- The result says whether the connection moves to the list of those that are connected.
unfoldable pub manage_connecting_peer : Round → Peer → Peer × Bool
unfolding connecting_both connecting_client connecting_server
manage_connecting_peer r p =
    if is_some p.client && is_some p.server
    then connecting_both r p
    else connecting_server (connecting_client r p)
