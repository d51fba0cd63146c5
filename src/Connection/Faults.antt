-- ===== src/Connection/Faults.antt =====
-- The NULL dereference of `manageConnections` (src/ConnectionPeer.cpp): when it happens and when it
-- cannot.
use relb.Prelude.{
  ℕ, ◌≡◌, ◌≢◌, true, none, some, is_some, ◌==◌, List, [], ◌⊎◌, false, if_cases, arith,
}
use relb.Socket.{
  Socket, Reply, amount, would_block, Outcome, moved, blocked, broken, peer_closed, receive_nb,
  send_nb, is_in_fdset,
}
use relb.Connection.Peer.{Peer, post, close_client, close_server}
use relb.Connection.Relay.{attempt_cases}
use relb.Connection.Transfer.{
  client_received, server_sent, get_missing_data_from_client, send_missing_data_to_server,
}
use relb.Connection.Manage.{Round, relay_up, relay_down, manage_connections}

-- A server that is still there has its client.
record HasClient (p : Peer) : Type 0 where
  there : is_some p.server ≡ true → is_some p.client ≡ true

module _ (p : Peer) (s : Socket) where
  client_received-HasClient :
      (o : Outcome (List ℕ))
      → (p.for_server.bytes_to_send ≡ 0) ⊎ (p.server_connected ≡ false)
      → HasClient (client_received p (s, o))
  unfolding client_received close_client post
  client_received-HasClient (moved xs) e = ground arith
  client_received-HasClient blocked e = ground arith
  client_received-HasClient broken e = ground arith
  client_received-HasClient peer_closed e = ground arith

  server_sent-HasClient :
      (o : Outcome ℕ) → is_some p.client ≡ true → HasClient (server_sent p (s, o))
  unfolding server_sent close_server post
  server_sent-HasClient (moved n) e = ground arith
  server_sent-HasClient blocked e = ground arith
  server_sent-HasClient broken e = ground arith
  server_sent-HasClient peer_closed e = ground arith

open-HasClient : (p : Peer) → is_some p.client ≡ true → HasClient p
open-HasClient p c = record { there = λ _. c }

get_missing_data-HasClient :
    (p : Peer) (recv : ℕ → Reply (List ℕ))
    → is_some p.client ≡ true
    → (p.for_server.bytes_to_send ≡ 0) ⊎ (p.server_connected ≡ false)
    → HasClient (get_missing_data_from_client p recv)
unfolding get_missing_data_from_client
get_missing_data-HasClient p recv c e =
    attempt_cases HasClient p p.client (p.for_server.bytes_to_receive == 0) _ (open-HasClient p c)
      (λ s _. client_received-HasClient p _ _ e)

send_missing_data-HasClient :
    (p : Peer) (send : ℕ → Reply ℕ) → HasClient p → HasClient (send_missing_data_to_server p send)
unfolding send_missing_data_to_server
send_missing_data-HasClient p send h =
    attempt_cases HasClient p p.server (p.for_server.bytes_to_send == 0) _ h
      (λ s e. server_sent-HasClient p _ _ (h.there (rw e)))

relay_up-HasClient :
    (r : Round) (p : Peer)
    → is_some p.client ≡ true
    → (p.for_server.bytes_to_send ≡ 0) ⊎ (p.server_connected ≡ false)
    → HasClient (relay_up r p)
unfolding relay_up
relay_up-HasClient r p c e =
    if_cases HasClient _
      (send_missing_data-HasClient _ _ (get_missing_data-HasClient p r.recv_client c e))
      (if_cases HasClient _ (send_missing_data-HasClient p _ (open-HasClient p c))
        (open-HasClient p c))

relay_down-HasClient : (r : Round) (p : Peer) → HasClient p → relay_down r p ≢ none
unfolding relay_down
relay_down-HasClient r p h e = ground (arith, h.there)

-- When no byte waits for the server, or the server has not answered yet, a round of
-- `manageConnections` never calls a method on a client that it deleted.
pub manage_connections-ne-none :
    (r : Round) (p : Peer)
    → (p.for_server.bytes_to_send ≡ 0) ⊎ (p.server_connected ≡ false)
    → manage_connections r p ≢ none
unfolding manage_connections
manage_connections-ne-none r p e f =
    ground (arith, relay_down-HasClient r (relay_up r p) (relay_up-HasClient r p (ground arith) e))

-- Both sockets are open, the server is connected, its buffer has room and bytes wait in it; the
-- client ends its stream, and the server has nothing to say and cannot take the bytes now. Then the
-- round of `manageConnections` calls a method on the client that it deleted.
pub null_client :
    (r : Round) (p : Peer) (s t : Socket)
    → p.client ≡ some s
    → p.server ≡ some t
    → s.open_fd ≡ true
    → t.open_fd ≡ true
    → p.server_connected ≡ true
    → p.for_server.bytes_to_receive ≢ 0
    → p.for_server.bytes_to_send ≢ 0
    → r.client_readable ≡ true
    → r.server_readable ≡ false
    → r.recv_client p.for_server.bytes_to_receive ≡ amount []
    → r.send_server p.for_server.bytes_to_send ≡ would_block
    → manage_connections r p ≡ none
unfolding manage_connections get_missing_data_from_client send_missing_data_to_server receive_nb
    send_nb is_in_fdset close_client post
null_client r p s t c d so to connected room waiting readable silent ended full = ground arith
