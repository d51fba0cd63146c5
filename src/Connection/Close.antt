-- ===== src/Connection/Close.antt =====
-- What `closeClient`, `closeServer` and `close` of src/ConnectionPeer.cpp leave behind.
use relb.Prelude.{◌≡◌, false, not, ◌&&◌, ◌||◌, is_some, ◌==◌, arith}
use relb.Connection.Peer.{Peer, is_active, close_client, close_server, close_peer}

-- After `close` neither side of a connection is left.
pub close_peer-is_active : (p : Peer) → is_active (close_peer p) ≡ false
unfolding close_peer close_client close_server is_active
close_peer-is_active p = ground arith

-- `closeClient` takes the client away, and the server too, unless bytes wait for a server that is
-- connected; a server stays untouched when there was no client to close.
pub close_client_keeps_server :
    (p : Peer)
    → (is_some (close_client p).client ≡ false)
      × (is_some (close_client p).server ≡ (
          is_some p.server
          && (not (is_some p.client)
              || (p.server_connected && not (p.for_server.bytes_to_send == 0)))))
unfolding close_client
close_client_keeps_server p = ground arith

-- `closeServer` takes the server away, and the client too, unless bytes wait for the client; a client
-- stays untouched when there was no server to close.
pub close_server_keeps_client :
    (p : Peer)
    → (is_some (close_server p).server ≡ false)
      × (is_some (close_server p).client
          ≡ (is_some p.client && (not (is_some p.server) || not (p.for_client.bytes_to_send == 0))))
unfolding close_server
close_server_keeps_client p = ground arith
