-- ===== src/Connection/Making.antt =====
-- A connection while it is being made, in the list of `ThreadedConnectionManager` for such connections, and
-- afterwards (src/ThreadedConnectionManager.cpp, src/ConnectionPeer.cpp).
use relb.Prelude.{
  ℕ, ◌≡◌, Bool, true, false, ◌&&◌, Option, is_some, ◌==◌, List, if◌then◌else◌, if_cases,
  Option-cases, inl, inr, arith,
}
use relb.Socket.{
  Socket, Reply, Outcome, moved, blocked, broken, peer_closed, receive_nb, check_failed,
}
use relb.Connection.Peer.{Peer, post, close_client, close_server, close_peer, close_p_info}
use relb.Status.{peer_connection_cancelled, server_connection_lost, client_connection_lost}
use relb.Connection.Transfer.{
  client_received, get_missing_data_from_client, send_missing_data_to_client, check_client,
  check_server, check_connecting_peers,
}
use relb.Connection.Manage.{
  Round, ready, connecting_both, connecting_client, connecting_server, manage_connecting_peer,
}
use relb.Connection.Relay.{Relays, attempt_cases}
use relb.Connection.Rounds.{
  IsBounded, Step, Step-Relays, manage_connecting, check_connecting, close_info, shut,
}

-- No byte waits for the client.
abbrev Idle : Peer → Type 0
Idle p = p.for_client.bytes_to_send ≡ 0

close_client-Idle : (p : Peer) → Idle p → Idle (close_client p)
unfolding close_client
close_client-Idle p v = ground arith

close_server-Idle : (p : Peer) → Idle p → Idle (close_server p)
unfolding close_server
close_server-Idle p v = ground arith

post-Idle : (status : ℕ) (p : Peer) → Idle p → Idle (post status p)
unfolding post
post-Idle status p v = ground arith

client_received-Idle :
    (p : Peer) (r : Socket × Outcome (List ℕ)) → Idle p → Idle (client_received p r)
unfolding client_received
client_received-Idle p (s, moved xs) v = v
client_received-Idle p (s, blocked) v = v
client_received-Idle p (s, broken) v = post-Idle _ _ (close_client-Idle _ v)
client_received-Idle p (s, peer_closed) v = post-Idle _ _ (close_client-Idle _ v)

get_missing_data_from_client-Idle :
    (p : Peer) (call : ℕ → Reply (List ℕ)) → Idle p → Idle (get_missing_data_from_client p call)
unfolding get_missing_data_from_client
get_missing_data_from_client-Idle p call v =
    attempt_cases Idle p p.client (p.for_server.bytes_to_receive == 0) _ v
      (λ s e. client_received-Idle p (receive_nb s call p.for_server.bytes_to_receive) v)

-- There is nothing to send.
send_missing_data_to_client_nothing :
    (p : Peer) (call : ℕ → Reply ℕ) → Idle p → send_missing_data_to_client p call ≡ p
unfolding send_missing_data_to_client
send_missing_data_to_client_nothing p call v = ground (arith, v)

connecting_both-Idle : (r : Round) (p : Peer) → Idle p → Idle (connecting_both r p).0
unfolding connecting_both
connecting_both-Idle r p v =
    let read = get_missing_data_from_client p r.recv_client in
    let q =
      if_cases Idle (ready p.client r.client_readable) {x = read} {y = p}
        (get_missing_data_from_client-Idle p r.recv_client v) v in
    if_cases (λ (t : Peer × Bool). Idle t.0) _
      (post-Idle _
        (record (if ready p.client r.client_readable then read else p) { server_connected = true })
        q)
      q

connecting_client-Idle : (r : Round) (p : Peer) → Idle p → Idle (connecting_client r p).0
unfolding connecting_client
connecting_client-Idle r p v =
    let sent = send_missing_data_to_client p r.send_client in
    let still : Idle sent = rw (send_missing_data_to_client_nothing p r.send_client v) v in
    let q = if_cases Idle (ready p.client r.client_writable) {x = sent} {y = p} still v in
    let s = if ready p.client r.client_writable then sent else p in
    let closed = post peer_connection_cancelled (close_client s) in
    let P : Peer × Bool → Type 0 = λ t. Idle t.0 in
    if_cases P (is_some p.client)
      {x = if s.for_client.bytes_to_send == 0 then (closed, true) else (s, false)} {y = (p, false)}
      (if_cases P (s.for_client.bytes_to_send == 0) {x = (closed, true)} {y = (s, false)}
        (post-Idle peer_connection_cancelled (close_client s) (close_client-Idle s q)) q)
      v

connecting_server-Idle : (p : Peer) (ret : Bool) → Idle p → Idle (connecting_server (p, ret)).0
unfolding connecting_server
connecting_server-Idle p ret v =
    if_cases (λ (t : Peer × Bool). Idle t.0) (is_some p.server)
      (post-Idle _ _ (close_server-Idle p v)) v

manage_connecting_peer-Idle : (r : Round) (p : Peer) → Idle p → Idle (manage_connecting_peer r p).0
unfolding manage_connecting_peer
manage_connecting_peer-Idle r p v =
    if_cases (λ (t : Peer × Bool). Idle t.0) (is_some p.client && is_some p.server)
      (connecting_both-Idle r p v)
      (connecting_server-Idle (connecting_client r p).0 (connecting_client r p).1
        (connecting_client-Idle r p v))

check_server-Idle : (p : Peer) (refused : Bool) → Idle p → Idle (check_server p refused)
unfolding check_server
check_server-Idle p refused v = elim (Option-cases p.server) [
  | inl e ↦ simp (check_server, e) v
  | inr (s, e) ↦
      simp (check_server, e)
        (if_cases Idle (check_failed s refused)
          (post-Idle server_connection_lost (close_server p) (close_server-Idle p v)) v)
]

check_client-Idle : (p : Peer) (refused : Bool) → Idle p → Idle (check_client p refused)
unfolding check_client
check_client-Idle p refused v = elim (Option-cases p.client) [
  | inl e ↦ simp (check_client, e) v
  | inr (s, e) ↦
      simp (check_client, e)
        (if_cases Idle (check_failed s refused)
          (post-Idle client_connection_lost (close_client p) (close_client-Idle p v)) v)
]

close_peer-Idle : (p : Peer) → Idle p → Idle (close_peer p)
unfolding close_peer
close_peer-Idle p v = close_server-Idle _ (close_client-Idle p v)

close_p_info-Idle : (info : Option ℕ) (p : Peer) → Idle p → Idle (close_p_info info p)
unfolding close_p_info
close_p_info-Idle info p v = if_cases Idle _ (post-Idle _ _ (close_peer-Idle p v)) v

-- The life of a connection, with `false` while it stands in the list of those that are being made, and
-- `true` from the round on that moves it to the other list.
pub data Life (p : Peer) : Bool → Peer → Type 0 where
  start : Life p false p
  wait :
      (r : Round) {q : Peer}
      → IsBounded r
      → Life p false q
      → (manage_connecting_peer r q).1 ≡ false
      → Life p false (manage_connecting_peer r q).0
  made :
      (r : Round) {q : Peer}
      → IsBounded r
      → Life p false q
      → (manage_connecting_peer r q).1 ≡ true
      → Life p true (manage_connecting_peer r q).0
  checked : (s c : Bool) {q : Peer} → Life p false q → Life p false (check_connecting_peers q s c)
  told : (info : Option ℕ) {q : Peer} → Life p false q → Life p false (close_p_info info q)
  ended : {q : Peer} → Life p false q → Life p false (close_peer q)
  serve : {q r : Peer} → Life p true q → Step q r → Life p true r

pub Life-Relays : {p q : Peer} (b : Bool) → Relays p → Life p b q → Relays q
Life-Relays b v start = v
Life-Relays b v (wait r m l e) = Step-Relays (manage_connecting r m) (Life-Relays false v l)
Life-Relays b v (made r m l e) = Step-Relays (manage_connecting r m) (Life-Relays false v l)
Life-Relays b v (checked s c l) = Step-Relays (check_connecting s c) (Life-Relays false v l)
Life-Relays b v (told i l) = Step-Relays (close_info i) (Life-Relays false v l)
Life-Relays b v (ended l) = Step-Relays shut (Life-Relays false v l)
Life-Relays b v (serve l s) = Step-Relays s (Life-Relays true v l)

-- While it is being made.
abbrev pub IdleAt : Bool → Peer → Type 0
IdleAt false p = p.for_client.bytes_to_send ≡ 0
IdleAt true p = Unit

pub Life-IdleAt : {p q : Peer} (b : Bool) → Idle p → Life p b q → IdleAt b q
unfolding check_connecting_peers
Life-IdleAt b v start = v
Life-IdleAt b v (wait r {q} m l e) = manage_connecting_peer-Idle r q (Life-IdleAt false v l)
Life-IdleAt b v (made r m l e) = tt
Life-IdleAt b v (checked s c {q} l) =
    check_client-Idle _ c (check_server-Idle q s (Life-IdleAt false v l))
Life-IdleAt b v (told i {q} l) = close_p_info-Idle i q (Life-IdleAt false v l)
Life-IdleAt b v (ended {q} l) = close_peer-Idle q (Life-IdleAt false v l)
Life-IdleAt b v (serve l s) = tt
