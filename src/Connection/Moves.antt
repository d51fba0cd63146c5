-- ===== src/Connection/Moves.antt =====
-- The four transfers of src/ConnectionPeer.cpp keep what a connection guarantees of its bytes.
use relb.Prelude.{
  ℕ, some, ◌≡◌, true, is_some, List, ◌++◌, length, ◌≤◌, take-append, take-append_more, append_assoc,
  arith, ◌==◌, refl, Bool-cases, inl, inr, not, ◌&&◌,
}
use relb.Socket.{
  Socket, Reply, Outcome, moved, blocked, broken, peer_closed, amount, would_block, failure,
  Bounded, AtMost, receive_nb, send_nb,
}
use relb.Connection.Buffer.{
  pending, sent, drain, store-IsValid, drain-IsValid, pending-store, pending-drain,
}
use relb.Connection.Peer.{Peer}
use relb.Connection.Transfer.{
  client_received, server_received, server_sent, client_sent, get_missing_data_from_client,
  get_missing_data_from_server, send_missing_data_to_server, send_missing_data_to_client,
}
use relb.Connection.Relay.{
  Carries, Relays, close_client-Relays, close_server-Relays, close_open_client-Relays,
  close_open_server-Relays, post-Relays, attempt_cases,
}

-- What a call of `receiveNB` can return for the space that it was offered.
abbrev pub Received : ℕ → Outcome (List ℕ) → Type 0
Received max (moved xs) = length xs ≤ max
Received max _ = Unit {0}

receive_nb-Received :
    (s : Socket) (recv : ℕ → Reply (List ℕ)) (max : ℕ)
    → Bounded length recv
    → Received max (receive_nb s recv max).1
unfolding receive_nb
receive_nb-Received s recv max b = go (recv max) (b max)
  where
    go : (r : Reply (List ℕ)) → AtMost length max r → Received max (receive_nb s (λ m. r) max).1
    go (amount xs) h = ground arith
    go would_block h = ground arith
    go failure h = ground arith

client_received-Relays :
    (p : Peer) (s : Socket) (o : Outcome (List ℕ))
    → Received p.for_server.bytes_to_receive o
    → is_some p.client ≡ true
    → Relays p
    → Relays (client_received p (s, o))
unfolding client_received
client_received-Relays p s (moved xs) h c v = ground (
  arith,
  store-IsValid p.for_server xs,
  pending-store p.for_server xs,
  append_assoc p.to_server (pending p.for_server) xs,
  take-append_more p.to_server p.from_client xs,
)
client_received-Relays p s blocked h c v = ground arith
client_received-Relays p s broken h c v =
    post-Relays _ _ (close_client-Relays (record p { client = some s }) (ground arith))
client_received-Relays p s peer_closed h c v =
    post-Relays _ _ (close_client-Relays (record p { client = some s }) (ground arith))

pub get_missing_data_from_client-Relays :
    (p : Peer) (recv : ℕ → Reply (List ℕ))
    → Bounded length recv
    → Relays p
    → Relays (get_missing_data_from_client p recv)
unfolding get_missing_data_from_client
get_missing_data_from_client-Relays p recv b v =
    attempt_cases Relays p p.client (p.for_server.bytes_to_receive == 0) _ v (λ s e.
      client_received-Relays p _ _ (receive_nb-Received s recv p.for_server.bytes_to_receive b)
        (rw e) v)

server_received-Relays :
    (p : Peer) (s : Socket) (o : Outcome (List ℕ))
    → Received p.for_client.bytes_to_receive o
    → is_some p.server ≡ true
    → Relays p
    → Relays (server_received p (s, o))
unfolding server_received
server_received-Relays p s (moved xs) h c v = ground (
  arith,
  store-IsValid p.for_client xs,
  pending-store p.for_client xs,
  append_assoc p.to_client (pending p.for_client) xs,
  take-append_more p.to_client p.from_server xs,
)
server_received-Relays p s blocked h c v = ground arith
server_received-Relays p s broken h c v =
    post-Relays _ _ (close_server-Relays (record p { server = some s }) (ground arith))
server_received-Relays p s peer_closed h c v =
    post-Relays _ _ (close_server-Relays (record p { server = some s }) (ground arith))

pub get_missing_data_from_server-Relays :
    (p : Peer) (recv : ℕ → Reply (List ℕ))
    → Bounded length recv
    → Relays p
    → Relays (get_missing_data_from_server p recv)
unfolding get_missing_data_from_server
get_missing_data_from_server-Relays p recv b v =
    attempt_cases Relays p p.server (p.for_client.bytes_to_receive == 0) _ v (λ s e.
      server_received-Relays p _ _ (receive_nb-Received s recv p.for_client.bytes_to_receive b)
        (rw e) v)

-- What a call of `sendNB` can return for the bytes that it was given.
abbrev Sent : ℕ → Outcome ℕ → Type 0
Sent max (moved n) = n ≤ max
Sent max _ = Unit {0}

send_nb-Sent :
    (s : Socket) (send : ℕ → Reply ℕ) (max : ℕ)
    → Bounded (λ n. n) send
    → Sent max (send_nb s send max).1
unfolding send_nb
send_nb-Sent s send max b = go (send max) (b max)
  where
    go : (r : Reply ℕ) → AtMost (λ n. n) max r → Sent max (send_nb s (λ m. r) max).1
    go (amount n) h = ground arith
    go would_block h = ground arith
    go failure h = ground arith

-- The bytes that are sent move from the buffer to the wire.
to_server-Carries :
    (p : Peer) (s : Socket) (n : ℕ)
    → n ≤ p.for_server.bytes_to_send
    → is_some p.server ≡ true
    → Carries p
    → Carries (record p {
      server = some s;
      for_server = drain p.for_server n;
      to_server = p.to_server ++ sent p.for_server n;
    })
to_server-Carries p s n h c v = ground (
  arith,
  drain-IsValid p.for_server n,
  pending-drain p.for_server n,
  append_assoc p.to_server (sent p.for_server n) (pending (drain p.for_server n)),
  take-append (p.to_server ++ sent p.for_server n) (pending (drain p.for_server n)),
)

server_sent-Relays :
    (p : Peer) (s : Socket) (o : Outcome ℕ)
    → Sent p.for_server.bytes_to_send o
    → is_some p.server ≡ true
    → Relays p
    → Relays (server_sent p (s, o))
unfolding server_sent
server_sent-Relays p s (moved n) h c v =
    let q = record p {
      server = some s;
      for_server = drain p.for_server n;
      to_server = p.to_server ++ sent p.for_server n;
    } in
    let w = to_server-Carries p s n h c v.carries in
    elim (Bool-cases (not (is_some q.client) && q.for_server.bytes_to_send == 0)) [
      | inl e ↦ rw e (post-Relays _ _ (close_open_server-Relays q refl w))
      | inr e ↦ rw e (ground (arith, w))
    ]
server_sent-Relays p s blocked h c v = ground arith
server_sent-Relays p s broken h c v =
    post-Relays _ _ (close_server-Relays (record p { server = some s }) (ground arith))
server_sent-Relays p s peer_closed h c v =
    post-Relays _ _ (close_server-Relays (record p { server = some s }) (ground arith))

pub send_missing_data_to_server-Relays :
    (p : Peer) (send : ℕ → Reply ℕ)
    → Bounded (λ n. n) send
    → Relays p
    → Relays (send_missing_data_to_server p send)
unfolding send_missing_data_to_server
send_missing_data_to_server-Relays p send b v =
    attempt_cases Relays p p.server (p.for_server.bytes_to_send == 0) _ v
      (λ s e. server_sent-Relays p _ _ (send_nb-Sent s send p.for_server.bytes_to_send b) (rw e) v)

to_client-Carries :
    (p : Peer) (s : Socket) (n : ℕ)
    → n ≤ p.for_client.bytes_to_send
    → is_some p.client ≡ true
    → Carries p
    → Carries (record p {
      client = some s;
      for_client = drain p.for_client n;
      to_client = p.to_client ++ sent p.for_client n;
    })
to_client-Carries p s n h c v = ground (
  arith,
  drain-IsValid p.for_client n,
  pending-drain p.for_client n,
  append_assoc p.to_client (sent p.for_client n) (pending (drain p.for_client n)),
  take-append (p.to_client ++ sent p.for_client n) (pending (drain p.for_client n)),
)

client_sent-Relays :
    (p : Peer) (s : Socket) (o : Outcome ℕ)
    → Sent p.for_client.bytes_to_send o
    → is_some p.client ≡ true
    → Relays p
    → Relays (client_sent p (s, o))
unfolding client_sent
client_sent-Relays p s (moved n) h c v =
    let q = record p {
      client = some s;
      for_client = drain p.for_client n;
      to_client = p.to_client ++ sent p.for_client n;
    } in
    let w = to_client-Carries p s n h c v.carries in
    elim (Bool-cases (not (is_some q.server) && q.for_client.bytes_to_send == 0)) [
      | inl e ↦ rw e (post-Relays _ _ (close_open_client-Relays q refl w))
      | inr e ↦ rw e (ground (arith, w))
    ]
client_sent-Relays p s blocked h c v = ground arith
client_sent-Relays p s broken h c v =
    post-Relays _ _ (close_client-Relays (record p { client = some s }) (ground arith))
client_sent-Relays p s peer_closed h c v =
    post-Relays _ _ (close_client-Relays (record p { client = some s }) (ground arith))

pub send_missing_data_to_client-Relays :
    (p : Peer) (send : ℕ → Reply ℕ)
    → Bounded (λ n. n) send
    → Relays p
    → Relays (send_missing_data_to_client p send)
unfolding send_missing_data_to_client
send_missing_data_to_client-Relays p send b v =
    attempt_cases Relays p p.client (p.for_client.bytes_to_send == 0) _ v
      (λ s e. client_sent-Relays p _ _ (send_nb-Sent s send p.for_client.bytes_to_send b) (rw e) v)
