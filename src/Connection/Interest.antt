-- ===== src/Connection/Interest.antt =====
-- What a connection asks `select` to watch: `addToFDSETR`, `addToFDSETW` and `addToFDSETC` of
-- src/ConnectionPeer.cpp. Each returns which sockets it adds, the client's first.
use relb.Prelude.{refl, false, ℕ, ◌≡◌, Bool, true, not, ◌&&◌, ◌||◌, Option, is_some, ◌==◌, arith}
use relb.Socket.{Socket}
use relb.Connection.Peer.{Peer, connect, is_active}
use relb.Connection.Relay.{Relays}
use relb.Connection.Rounds.{connect-Relays}
use relb.Connection.Making.{Life, Life-Relays, IdleAt, Life-IdleAt}

-- For reading, where there is space.
unfoldable pub add_to_fdset_r : Peer → Bool × Bool
add_to_fdset_r p = (
  is_some p.client && not (p.for_server.bytes_to_receive == 0),
  is_some p.server && not (p.for_client.bytes_to_receive == 0),
)

-- For writing, where bytes wait.
unfoldable pub add_to_fdset_w : Peer → Bool × Bool
add_to_fdset_w p = (
  is_some p.client && not (p.for_client.bytes_to_send == 0),
  is_some p.server && not (p.for_server.bytes_to_send == 0),
)

-- Before the server has answered: the client for reading, the server for writing.
unfoldable pub add_to_fdset_c : Peer → Bool × Bool
add_to_fdset_c p = (is_some p.client && not (p.for_server.bytes_to_receive == 0), is_some p.server)

-- Whether a side that is there can get on: it can be written to, or its source can be read from.
abbrev pub IsFed : Bool → Bool → Bool → Type 0
IsFed there source_read side_written = (not there || (source_read || side_written)) ≡ true

Relays-IsFed :
    (p : Peer)
    → Relays p
    → IsFed (is_some p.server) (add_to_fdset_r p).0 (add_to_fdset_w p).1
      × IsFed (is_some p.client) (add_to_fdset_r p).1 (add_to_fdset_w p).0
unfolding add_to_fdset_r add_to_fdset_w
Relays-IsFed p v = ground arith

-- What `select` is asked about for a connection of one of the two lists: `addToFDSETC` for one that is
-- being made, the other two for one that is served. The first equation says that the server is watched
-- for the end of its connecting exactly if a side is there.
abbrev pub Watched : Bool → Peer → Type 0
Watched false p = (add_to_fdset_c p).1 ≡ is_active p
Watched true p =
    IsFed (is_some p.server) (add_to_fdset_r p).0 (add_to_fdset_w p).1
    × IsFed (is_some p.client) (add_to_fdset_r p).1 (add_to_fdset_w p).0

-- Nothing waits for the client, so that it is not there without the server.
making-Watched : (p : Peer) → Relays p → p.for_client.bytes_to_send ≡ 0 → Watched false p
unfolding add_to_fdset_c is_active
making-Watched p v e = ground arith

Watched-cases : (b : Bool) (p : Peer) → Relays p → IdleAt b p → Watched b p
Watched-cases false p v e = making-Watched p v e
Watched-cases true p v e = Relays-IsFed p v

-- At every point of the life of a connection, with system calls that keep to their contract,
-- `select` is asked about an event that brings it on. While it is being made, the server is
-- watched, for the end of its connecting, exactly if a side is there. Once it is served: for a
-- server that is there, that bytes can be sent to it or read from the client; for a client that is
-- there, that bytes can be sent to it or read from the server.
pub never_stuck :
    (c s : Socket) (queue : Bool) (info : Option ℕ) (served : Bool) (p : Peer)
    → Life (connect c s queue info) served p
    → Watched served p
unfolding connect
never_stuck c s queue info served p l =
    Watched-cases served p (Life-Relays served (connect-Relays c s queue info) l)
      (Life-IdleAt served refl l)
