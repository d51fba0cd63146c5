-- ===== src/Admin/Messages.antt =====
-- What `AdminHTTPServer::execute` (src/AdminHTTPServer.cpp) does with a message from the list of servers.
-- The searches and the changes of a server's counters are those of `processMessage`.
use relb.Prelude.{
  ℕ, suc, ◌&&◌, ◌||◌, Option, none, some, List, [], ◌∷◌, ◌++◌, get_elem?, update_at, delete_at,
  ◌==◌, if◌then◌else◌,
}
use relb.Address.{IpAddress, same_ip}
use relb.Status.{
  connecting_server, connection_established, disconnected_ok, connection_lost, connection_failed,
  peer_connection_deleted, peer_not_connected, has, event_of, to_byte,
}
use relb.ServerList.State.{ServerInfo, PeerInfo}
use relb.ServerList.Messages.{
  find_peer, server_at, other_connected, note_failure, leave, keep_count, establish,
}
use relb.ServerList.Cleaning.{uncount_first}
use relb.Admin.State.{AdminServer}

-- A new connection: those of the same client that are over are forgotten.
unfoldable pub forget_client :
    IpAddress → List PeerInfo → List ServerInfo → List PeerInfo × List ServerInfo
unfolding uncount_first
forget_client client [] ss = ([], ss)
forget_client client (p ∷ ps) ss =
    let over = same_ip p.src_ip client && has p.status peer_not_connected in
    let rest = forget_client client ps (if over then uncount_first p ss else ss) in
    (if over then rest.0 else p ∷ rest.0, rest.1)

unfoldable pub add_peer : PeerInfo → AdminServer → AdminServer
unfolding forget_client
add_peer p a =
    let (ps, ss) = forget_client p.src_ip a.peers a.servers in
    record a { peers = ps ++ p ∷ []; servers = ss }

-- A connection is over. A message that it is deleted asks for no other connection.
unfoldable pub end_peer : ℕ → ℕ → ℕ → PeerInfo → AdminServer → AdminServer
unfolding server_at other_connected
end_peer id now i p a =
    let others = id == peer_connection_deleted || other_connected p.src_ip i 0 a.peers in
    elim (server_at p.dst_ip p.dst_port 0 a.servers) [
      | none ↦ a
      | some j ↦
          if others
          then record a {
            servers = update_at (λ s. leave id (note_failure id now s)) j a.servers;
            peers = delete_at i a.peers;
          }
          else record a {
            servers = update_at (λ s. keep_count id (leave id (note_failure id now s))) j a.servers;
          }
    ]

-- The first server with the connection's address and port.
unfoldable pub change_server : (ServerInfo → ServerInfo) → PeerInfo → AdminServer → AdminServer
unfolding server_at
change_server f p a = elim (server_at p.dst_ip p.dst_port 0 a.servers) [
  | none ↦ a
  | some j ↦ record a { servers = update_at f j a.servers }
]

abbrev pub count_connecting : ServerInfo → ServerInfo
count_connecting s = record s { connecting = suc s.connecting }

-- The `switch` on the event without the side.
unfoldable pub account_peer : ℕ → ℕ → ℕ → PeerInfo → AdminServer → AdminServer
unfolding end_peer change_server
account_peer id now i p a =
    let event = event_of id in
    if event == connection_lost
      || (event == disconnected_ok
          || (event == connection_failed || event == peer_connection_deleted))
    then end_peer id now i p a
    else if event == connection_established
    then change_server (establish now) p a
    else if event == connecting_server
    then change_server count_connecting p a
    else a

-- A message about a connection that is in the list.
unfoldable pub follow : ℕ → ℕ → ℕ → Option ℕ → AdminServer → AdminServer
unfolding account_peer
follow id noted now none a = a
follow id noted now (some i) a = elim (get_elem? a.peers i) [
  | none ↦ a
  | some p ↦ account_peer id now i p (record a {
    peers = update_at (λ q. record q { status = to_byte id; modified = noted }) i a.peers;
  })
]

-- `p` is the object that the message names, and `index` what an earlier message left as its index.
unfoldable pub handle_message : ℕ → PeerInfo → ℕ → ℕ → ℕ → AdminServer → AdminServer
unfolding find_peer follow add_peer account_peer
handle_message id p index noted now a =
    if id == connecting_server
    then account_peer id now index p (add_peer p a)
    else follow id noted now (find_peer p.address 0 a.peers) a
