-- ===== src/Connection/Peer.antt =====
-- The state of `ConnectionPeer` (src/ConnectionPeer.h), its close functions and its message posts.
use relb.Prelude.{
  ℕ, zero, suc, Bool, true, false, not, ◌&&◌, ◌||◌, Option, none, some, is_some, List, [], ◌∷◌,
  ◌++◌, ◌==◌, if◌then◌else◌,
}
use relb.Socket.{Socket}
use relb.Connection.Buffer.{Buffer, reset}
use relb.Status.{server_disconnected_ok}

-- The last five fields are what has left the object: the messages that it posted to `pjq`, and the
-- bytes that its sockets have carried so far, in either direction.
pub record Peer : Type 0 where
  pub client : Option Socket
  pub server : Option Socket
  pub for_server : Buffer
  pub for_client : Buffer
  pub queue : Bool
  pub info : Option ℕ
  pub server_connected : Bool
  pub posted : List (ℕ × ℕ)
  pub from_client : List ℕ
  pub to_server : List ℕ
  pub from_server : List ℕ
  pub to_client : List ℕ

abbrev blank : Buffer
blank = record {
  cells = λ i. 0;
  w_offset = 0;
  r_offset = 0;
  bytes_to_receive = 16384;
  bytes_to_send = 0;
}

-- The constructor.
unfoldable pub connect : Socket → Socket → Bool → Option ℕ → Peer
connect client server queue info = record {
  client = some client;
  server = some server;
  for_server = blank;
  for_client = blank;
  queue = queue;
  info = info;
  server_connected = false;
  posted = [];
  from_client = [];
  to_server = [];
  from_server = [];
  to_client = [];
}

-- `if( pjq && pinfo ) pjq->post( status, pinfo )`.
unfoldable pub post : ℕ → Peer → Peer
post status p = elim p.info [
  | none ↦ p
  | some id ↦ if p.queue then record p { posted = p.posted ++ (status, id) ∷ [] } else p
]

unfoldable pub is_active : Peer → Bool
is_active p = is_some p.client || is_some p.server

drop_client : Peer → Peer
unfolding reset
drop_client p = record p { client = none; for_client = reset p.for_client }

drop_server : Peer → Peer
unfolding reset
drop_server p = record p { server = none; for_server = reset p.for_server }

-- `closeClient` and `closeServer` call one another. Each call takes a socket away, so the fuel 3
-- never runs out (`close_client_fuel`).
unfoldable mutual
  unfolding drop_client drop_server

  pub close_client_fuel : ℕ → Peer → Peer
  close_client_fuel zero p = p
  close_client_fuel (suc n) p =
      let q = drop_client p in
      let other = close_server_fuel n q in
      if is_some p.client
      then (if is_some q.server && q.for_server.bytes_to_send == 0
          then other
          else if not q.server_connected
          then other
          else q)
      else p

  pub close_server_fuel : ℕ → Peer → Peer
  close_server_fuel zero p = p
  close_server_fuel (suc n) p =
      let q = drop_server p in
      let other = close_client_fuel n q in
      if is_some p.server
      then (if is_some q.client && q.for_client.bytes_to_send == 0 then other else q)
      else p

unfoldable pub close_client : Peer → Peer
unfolding close_client_fuel close_server_fuel
close_client p = close_client_fuel 3 p

unfoldable pub close_server : Peer → Peer
unfolding close_client_fuel close_server_fuel
close_server p = close_server_fuel 3 p

unfoldable pub close_peer : Peer → Peer
close_peer p = close_server (close_client p)

-- `closePInfo`: a pointer is `none` where it is NULL.
abbrev pub same_info : Option ℕ → Option ℕ → Bool
same_info none none = true
same_info (some a) (some b) = a == b
same_info _ _ = false

unfoldable pub close_p_info : Option ℕ → Peer → Peer
close_p_info check p =
    if same_info check p.info then post server_disconnected_ok (close_peer p) else p
