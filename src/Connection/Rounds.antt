-- ===== src/Connection/Rounds.antt =====
-- Every round of a connection keeps `Relays`, and so does any life of a connection.
use relb.Prelude.{ℕ, ◌≡◌, Bool, true, Option, some, is_some, ◌&&◌, length, if_cases, arith}
use relb.Socket.{Socket, Bounded}
use relb.Connection.Buffer.{pending}
use relb.Connection.Peer.{Peer, connect, close_peer, close_p_info}
use relb.Connection.Transfer.{check_peers, check_connecting_peers, check_server, check_client}
use relb.Connection.Manage.{
  Round, ready, relay_up, relay_down, finish_client, finish_server, manage_connections,
  connecting_both, connecting_client, connecting_server, manage_connecting_peer,
}
use relb.Connection.Relay.{Relays, post-Relays, close_client-Relays, close_server-Relays}
use relb.Connection.Moves.{
  get_missing_data_from_client-Relays, get_missing_data_from_server-Relays,
  send_missing_data_to_client-Relays, send_missing_data_to_server-Relays,
}

-- The system calls of the round keep to their contract.
pub record IsBounded (r : Round) : Type 0 where
  pub recv_client : Bounded length r.recv_client
  pub recv_server : Bounded length r.recv_server
  pub send_client : Bounded (λ n. n) r.send_client
  pub send_server : Bounded (λ n. n) r.send_server

module _ (r : Round) (b : IsBounded r) where
  relay_up-Relays : (p : Peer) → Relays p → Relays (relay_up r p)
  unfolding relay_up
  relay_up-Relays p v =
      if_cases Relays _
        (send_missing_data_to_server-Relays _ _ b.send_server
          (get_missing_data_from_client-Relays p _ b.recv_client v))
        (if_cases Relays _ (send_missing_data_to_server-Relays p _ b.send_server v) v)

  relay_down-Relays : (p q : Peer) → Relays p → relay_down r p ≡ some q → Relays q
  unfolding relay_down
  relay_down-Relays p q v e = ground (
    arith,
    send_missing_data_to_client-Relays _ _ b.send_client
        (get_missing_data_from_server-Relays p _ b.recv_server v),
    send_missing_data_to_client-Relays p _ b.send_client v,
  )

  finish_client-Relays : (p : Peer) → Relays p → Relays (finish_client r p)
  unfolding finish_client
  finish_client-Relays p v =
      let q =
        if_cases Relays (ready p.client r.client_writable)
          (send_missing_data_to_client-Relays p _ b.send_client v) v in
      if_cases Relays _ (if_cases Relays _ (post-Relays _ _ (close_client-Relays _ q)) q) v

  finish_server-Relays : (p : Peer) → Relays p → Relays (finish_server r p)
  unfolding finish_server
  finish_server-Relays p v =
      let q =
        if_cases Relays (ready p.server r.server_writable)
          (send_missing_data_to_server-Relays p _ b.send_server v) v in
      if_cases Relays _ (if_cases Relays _ (post-Relays _ _ (close_server-Relays _ q)) q) v

  -- A round of a connection, whatever the sockets answer, keeps the guarantees.
  pub manage_connections-Relays :
      (p q : Peer) → Relays p → manage_connections r p ≡ some q → Relays q
  unfolding manage_connections
  manage_connections-Relays p q v e = ground (
    arith,
    relay_down-Relays (relay_up r p) q (relay_up-Relays p v),
    finish_server-Relays _ (finish_client-Relays p v),
  )

  connecting_client-Relays : (p : Peer) → Relays p → Relays (connecting_client r p).0
  unfolding connecting_client
  connecting_client-Relays p v =
      let q =
        if_cases Relays (ready p.client r.client_writable)
          (send_missing_data_to_client-Relays p _ b.send_client v) v in
      let P : Peer × Bool → Type 0 = λ t. Relays t.0 in
      if_cases P _ (if_cases P _ (post-Relays _ _ (close_client-Relays _ q)) q) v

  connecting_server-Relays :
      (p : Peer) (ret : Bool) → Relays p → Relays (connecting_server (p, ret)).0
  unfolding connecting_server
  connecting_server-Relays p ret v =
      if_cases (λ (t : Peer × Bool). Relays t.0) (is_some p.server)
        (post-Relays _ _ (close_server-Relays p v)) v

  connecting_both-Relays : (p : Peer) → Relays p → Relays (connecting_both r p).0
  unfolding connecting_both
  connecting_both-Relays p v =
      let q =
        if_cases Relays (ready p.client r.client_readable)
          (get_missing_data_from_client-Relays p _ b.recv_client v) v in
      if_cases (λ (t : Peer × Bool). Relays t.0) _ (post-Relays _ _ (connected _ q)) q
    where
      connected : (p : Peer) → Relays p → Relays (record p { server_connected = true })
      connected p v = ground arith

  pub manage_connecting_peer-Relays : (p : Peer) → Relays p → Relays (manage_connecting_peer r p).0
  unfolding manage_connecting_peer
  manage_connecting_peer-Relays p v =
      if_cases (λ (t : Peer × Bool). Relays t.0) (is_some p.client && is_some p.server)
        (connecting_both-Relays p v)
        (connecting_server-Relays (connecting_client r p).0 (connecting_client r p).1
          (connecting_client-Relays p v))

check_server-Relays : (p : Peer) (refused : Bool) → Relays p → Relays (check_server p refused)
unfolding check_server
check_server-Relays p refused v = ground (arith, post-Relays 16 _ (close_server-Relays p v))

check_client-Relays : (p : Peer) (refused : Bool) → Relays p → Relays (check_client p refused)
unfolding check_client
check_client-Relays p refused v = ground (arith, post-Relays 17 _ (close_client-Relays p v))

-- What a connection manager does with a connection.
pub data Step : Peer → Peer → Type 0 where
  manage : (r : Round) {p q : Peer} → IsBounded r → manage_connections r p ≡ some q → Step p q
  manage_connecting : (r : Round) {p : Peer} → IsBounded r → Step p (manage_connecting_peer r p).0
  check : (s c : Bool) {p : Peer} → Step p (check_peers p s c)
  check_connecting : (s c : Bool) {p : Peer} → Step p (check_connecting_peers p s c)
  close_info : (info : Option ℕ) {p : Peer} → Step p (close_p_info info p)
  shut : {p : Peer} → Step p (close_peer p)

pub data Reach (p : Peer) : Peer → Type 0 where
  here : Reach p p
  next : {q r : Peer} → Reach p q → Step q r → Reach p r

pub Step-Relays : {p q : Peer} → Step p q → Relays p → Relays q
unfolding check_peers check_connecting_peers close_p_info close_peer
Step-Relays (manage r {p} {q} b e) v = manage_connections-Relays r b p q v e
Step-Relays (manage_connecting r {p} b) v = manage_connecting_peer-Relays r b p v
Step-Relays (check s c {p}) v = check_client-Relays _ c (check_server-Relays p s v)
Step-Relays (check_connecting s c {p}) v = check_client-Relays _ c (check_server-Relays p s v)
Step-Relays (close_info info {p}) v =
    if_cases Relays _ (post-Relays _ _ (close_server-Relays _ (close_client-Relays p v))) v
Step-Relays (shut {p}) v = close_server-Relays _ (close_client-Relays p v)

Reach-Relays : {p q : Peer} → Relays p → Reach p q → Relays q
Reach-Relays v here = v
Reach-Relays v (next w s) = Step-Relays s (Reach-Relays v w)

pub connect-Relays :
    (c s : Socket) (queue : Bool) (info : Option ℕ) → Relays (connect c s queue info)
unfolding connect pending
connect-Relays c s queue info = ground arith

-- Over the whole life of a connection, from its constructor through any rounds, checks and closes,
-- with system calls that keep to their contract: the buffers stay well formed; what an open server
-- has still to get is exactly what waits for it, in order, and the same for an open client; what
-- either side was sent is always the beginning of what the other side sent; and a side is there
-- without the other only while bytes wait for it.
pub life_of_connection :
    (c s : Socket) (queue : Bool) (info : Option ℕ) (p : Peer)
    → Reach (connect c s queue info) p
    → Relays p
life_of_connection c s queue info p r = Reach-Relays (connect-Relays c s queue info) r
