-- ===== src/Connection/Transfer.antt =====
-- The four transfers of src/ConnectionPeer.cpp between a socket and a buffer, and the socket checks.
-- A transfer's last argument is the system call, which is asked for the number of bytes it is given.
use relb.Prelude.{ℕ, Bool, ◌&&◌, not, none, some, is_some, List, ◌++◌, ◌==◌, if◌then◌else◌}
use relb.Socket.{
  Socket, Reply, Outcome, moved, blocked, broken, peer_closed, receive_nb, send_nb, check_failed,
}
use relb.Connection.Buffer.{store, drain, sent}
use relb.Connection.Peer.{Peer, post, close_client, close_server}
use relb.Status.{
  client_disconnected_ok, server_disconnected_ok, client_connection_lost, server_connection_lost,
  connection_failed, peer_connection_cancelled,
}

unfoldable pub client_received : Peer → Socket × Outcome (List ℕ) → Peer
unfolding store
client_received p (s, moved xs) = record p {
  client = some s;
  for_server = store p.for_server xs;
  from_client = p.from_client ++ xs;
}
client_received p (s, blocked) = record p { client = some s }
client_received p (s, broken) =
    let q = close_client (record p { client = some s }) in
    post (if q.server_connected then client_connection_lost else connection_failed) q
client_received p (s, peer_closed) =
    let q = close_client (record p { client = some s }) in
    post (if q.server_connected then client_disconnected_ok else connection_failed) q

unfoldable pub get_missing_data_from_client : Peer → (ℕ → Reply (List ℕ)) → Peer
unfolding client_received
get_missing_data_from_client p call = elim p.client [
  | none ↦ p
  | some s ↦
      if p.for_server.bytes_to_receive == 0
      then p
      else client_received p (receive_nb s call p.for_server.bytes_to_receive)
]

unfoldable pub server_received : Peer → Socket × Outcome (List ℕ) → Peer
unfolding store
server_received p (s, moved xs) = record p {
  server = some s;
  for_client = store p.for_client xs;
  from_server = p.from_server ++ xs;
}
server_received p (s, blocked) = record p { server = some s }
server_received p (s, broken) =
    post server_connection_lost (close_server (record p { server = some s }))
server_received p (s, peer_closed) =
    post server_disconnected_ok (close_server (record p { server = some s }))

unfoldable pub get_missing_data_from_server : Peer → (ℕ → Reply (List ℕ)) → Peer
unfolding server_received
get_missing_data_from_server p call = elim p.server [
  | none ↦ p
  | some s ↦
      if p.for_client.bytes_to_receive == 0
      then p
      else server_received p (receive_nb s call p.for_client.bytes_to_receive)
]

-- A client whose server is gone is closed with its last byte.
unfoldable pub client_sent : Peer → Socket × Outcome ℕ → Peer
unfolding drain
client_sent p (s, moved n) =
    let q = record p {
      client = some s;
      for_client = drain p.for_client n;
      to_client = p.to_client ++ sent p.for_client n;
    } in
    if not (is_some q.server) && q.for_client.bytes_to_send == 0
    then post peer_connection_cancelled (close_client q)
    else q
client_sent p (s, blocked) = record p { client = some s }
client_sent p (s, broken) =
    post client_connection_lost (close_client (record p { client = some s }))
client_sent p (s, peer_closed) =
    post client_disconnected_ok (close_client (record p { client = some s }))

unfoldable pub send_missing_data_to_client : Peer → (ℕ → Reply ℕ) → Peer
unfolding client_sent
send_missing_data_to_client p call = elim p.client [
  | none ↦ p
  | some s ↦
      if p.for_client.bytes_to_send == 0
      then p
      else client_sent p (send_nb s call p.for_client.bytes_to_send)
]

unfoldable pub server_sent : Peer → Socket × Outcome ℕ → Peer
unfolding drain
server_sent p (s, moved n) =
    let q = record p {
      server = some s;
      for_server = drain p.for_server n;
      to_server = p.to_server ++ sent p.for_server n;
    } in
    if not (is_some q.client) && q.for_server.bytes_to_send == 0
    then post peer_connection_cancelled (close_server q)
    else q
server_sent p (s, blocked) = record p { server = some s }
server_sent p (s, broken) =
    post server_connection_lost (close_server (record p { server = some s }))
server_sent p (s, peer_closed) =
    post server_disconnected_ok (close_server (record p { server = some s }))

unfoldable pub send_missing_data_to_server : Peer → (ℕ → Reply ℕ) → Peer
unfolding server_sent
send_missing_data_to_server p call = elim p.server [
  | none ↦ p
  | some s ↦
      if p.for_server.bytes_to_send == 0
      then p
      else server_sent p (send_nb s call p.for_server.bytes_to_send)
]

unfoldable pub check_server : Peer → Bool → Peer
check_server p refused = elim p.server [
  | none ↦ p
  | some s ↦ if check_failed s refused then post server_connection_lost (close_server p) else p
]

unfoldable pub check_client : Peer → Bool → Peer
check_client p refused = elim p.client [
  | none ↦ p
  | some s ↦ if check_failed s refused then post client_connection_lost (close_client p) else p
]

-- `checkPeers`: the arguments say whether `select` refuses the server's and the client's socket. The
-- client is checked after the server may have been closed.
unfoldable pub check_peers : Peer → Bool → Bool → Peer
unfolding check_server check_client
check_peers p server_refused client_refused =
    check_client (check_server p server_refused) client_refused

-- `checkConnectingPeers` has the same body.
unfoldable pub check_connecting_peers : Peer → Bool → Bool → Peer
unfolding check_server check_client
check_connecting_peers p server_refused client_refused =
    check_client (check_server p server_refused) client_refused
