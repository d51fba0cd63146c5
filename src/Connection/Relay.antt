-- ===== src/Connection/Relay.antt =====
-- What a connection guarantees of the bytes that it carries.
use relb.Prelude.{
  ℕ, some, ◌≡◌, ◌≢◌, true, is_some, ◌++◌, length, take, arith, refl, Option, none, Bool, false,
  if◌then◌else◌,
}
use relb.Socket.{Socket}
use relb.Connection.Buffer.{IsValid, pending}
use relb.Connection.Peer.{Peer, post, close_client, close_server}

-- Both buffers are well formed. While the server is open, the bytes read from the client are those
-- sent to the server followed by those that wait, and so the other way round. Whatever is closed,
-- the bytes sent to a side are the first of those read from the other.
pub record Carries (p : Peer) : Type 0 where
  pub server_buffer : IsValid p.for_server
  pub client_buffer : IsValid p.for_client
  pub up : is_some p.server ≡ true → p.from_client ≡ p.to_server ++ pending p.for_server
  pub down : is_some p.client ≡ true → p.from_server ≡ p.to_client ++ pending p.for_client
  pub up_prefix : take (length p.to_server) p.from_client ≡ p.to_server
  pub down_prefix : take (length p.to_client) p.from_server ≡ p.to_client

-- With that, a side is there alone only while bytes wait for it.
pub record Relays (p : Peer) : Type 0 where
  pub carries : Carries p
  pub last_up : is_some p.server ≡ true → is_some p.client ≡ false → p.for_server.bytes_to_send ≢ 0
  pub last_down :
      is_some p.client ≡ true → is_some p.server ≡ false → p.for_client.bytes_to_send ≢ 0

pub close_client-Relays : (p : Peer) → Relays p → Relays (close_client p)
unfolding close_client
close_client-Relays p v = ground arith

pub close_server-Relays : (p : Peer) → Relays p → Relays (close_server p)
unfolding close_server
close_server-Relays p v = ground arith

-- Closing a side restores the second part.
pub close_open_client-Relays :
    (p : Peer) → is_some p.client ≡ true → Carries p → Relays (close_client p)
unfolding close_client
close_open_client-Relays p c v = ground arith

pub close_open_server-Relays :
    (p : Peer) → is_some p.server ≡ true → Carries p → Relays (close_server p)
unfolding close_server
close_open_server-Relays p c v = ground arith

pub post-Relays : (status : ℕ) (p : Peer) → Relays p → Relays (post status p)
unfolding post
post-Relays status p v = ground arith

-- A transfer does nothing without its socket, nor when there is nothing to ask for.
pub attempt_cases :
    (P : Peer → Type 0) (p : Peer) (o : Option Socket) (idle : Bool) (f : Socket → Peer)
    → P p
    → ((s : Socket) → o ≡ some s → P (f s))
    → P (elim o [ none ↦ p | some s ↦ if idle then p else f s ])
attempt_cases P p none idle f h k = h
attempt_cases P p (some s) true f h k = h
attempt_cases P p (some s) false f h k = k s refl
