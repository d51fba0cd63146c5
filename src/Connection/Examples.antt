-- ===== src/Connection/Examples.antt =====
-- Concrete connections, on which the theorems of this part apply.
use relb.Prelude.{
  ℕ, ◌+◌, ◌≡◌, ◌≢◌, refl, true, false, none, some, inl, List, [], ◌∷◌, leb, if◌then◌else◌, arith,
}
use relb.Socket.{Socket, Reply, amount, would_block, is_in_fdset, receive_nb}
use relb.Connection.Transfer.{get_missing_data_from_client}
use relb.Connection.Buffer.{Buffer, IsValid}
use relb.Connection.Peer.{Peer, connect}
use relb.Connection.Manage.{Round, manage_connections, manage_connecting_peer}
use relb.Connection.Relay.{Relays}
use relb.Connection.Rounds.{IsBounded, here, next, manage_connecting, life_of_connection}
use relb.Connection.Making.{start, made}
use relb.Connection.Interest.{Watched, never_stuck}
use relb.Connection.Faults.{manage_connections-ne-none, null_client}

abbrev line : Socket
line = record { open_fd = true; fd = 5 }

abbrev three_bytes : ℕ → Reply (List ℕ)
three_bytes max = if leb 3 max then amount (71 ∷ 69 ∷ 84 ∷ []) else would_block

abbrev two_of_them : ℕ → Reply ℕ
two_of_them max = if leb 2 max then amount 2 else would_block

abbrev greeting : Round
greeting = record {
  client_readable = true;
  client_writable = true;
  server_readable = false;
  server_writable = true;
  recv_client = three_bytes;
  recv_server = λ max. would_block;
  send_client = λ max. would_block;
  send_server = two_of_them;
}

greeting-IsBounded : IsBounded greeting
greeting-IsBounded = record {
  recv_client = λ max. ground arith;
  recv_server = λ max. tt;
  send_client = λ max. tt;
  send_server = λ max. ground arith;
}

abbrev fresh : Peer
fresh = connect line line true (some 7)

-- Six bytes have come and four have gone.
abbrev half_full : Buffer
half_full = record {
  cells = λ i. i + 60;
  w_offset = 6;
  r_offset = 4;
  bytes_to_receive = 16378;
  bytes_to_send = 2;
}

half_full-IsValid : IsValid half_full
half_full-IsValid = record { space = refl; content = refl; all_space = λ e. cc }

-- The server answered, and two bytes wait for it.
abbrev busy : Peer
busy = record fresh { server_connected = true; for_server = half_full }

life_of_connection_example : Relays (manage_connecting_peer greeting fresh).0
life_of_connection_example =
    life_of_connection line line true (some 7) (manage_connecting_peer greeting fresh).0
      (next here (manage_connecting greeting greeting-IsBounded))

manage_connections-ne-none_example : manage_connections greeting fresh ≢ none
manage_connections-ne-none_example =
    manage_connections-ne-none greeting fresh (inl (unfold connect in refl))

-- The client hangs up while the server cannot take what waits for it.
abbrev hang_up : Round
hang_up = record greeting { recv_client = λ max. amount []; send_server = λ max. would_block }

null_client_example : manage_connections hang_up busy ≡ none
unfolding connect
null_client_example =
    null_client hang_up busy line line refl refl refl refl refl (omega arith) (omega arith) refl
      refl refl refl

greeting_connects : (manage_connecting_peer greeting fresh).1 ≡ true
unfolding manage_connecting_peer connect is_in_fdset get_missing_data_from_client receive_nb
greeting_connects = refl

never_stuck_example : Watched true (manage_connecting_peer greeting fresh).0
never_stuck_example =
    never_stuck line line true (some 7) true (manage_connecting_peer greeting fresh).0
      (made greeting greeting-IsBounded start greeting_connects)
