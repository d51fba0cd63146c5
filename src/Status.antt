-- ===== src/Status.antt =====
-- The status codes of src/utiles.h: bit 0 tells the client's side from the server's, the higher bits
-- are the event.
use relb.Prelude.{ℕ, ◌*◌, ◌/◌, ◌%◌, ◌≡◌, Bool, not, bit_and, ◌==◌, arith, ◌+◌, if◌then◌else◌}
use Prim.Native.String.{String}

abbrev pub connecting : ℕ
connecting = 2

abbrev pub connecting_server : ℕ
connecting_server = 2

abbrev pub connection_established : ℕ
connection_established = 4

abbrev pub disconnected_ok : ℕ
disconnected_ok = 8

abbrev pub server_disconnected_ok : ℕ
server_disconnected_ok = 8

abbrev pub client_disconnected_ok : ℕ
client_disconnected_ok = 9

abbrev pub connection_lost : ℕ
connection_lost = 16

abbrev pub server_connection_lost : ℕ
server_connection_lost = 16

abbrev pub client_connection_lost : ℕ
client_connection_lost = 17

abbrev pub connection_failed : ℕ
connection_failed = 32

abbrev pub peer_connection_cancelled : ℕ
peer_connection_cancelled = 65

abbrev pub peer_connection_kicked : ℕ
peer_connection_kicked = 64

abbrev pub peer_connection_deleted : ℕ
peer_connection_deleted = 128

-- STATUS_PEER_DISCONNECTED: failed or lost.
abbrev pub peer_disconnected : ℕ
peer_disconnected = 48

-- STATUS_PEER_NOT_CONNECTED: failed, lost or finished.
abbrev pub peer_not_connected : ℕ
peer_not_connected = 56

-- `status & mask` as a condition.
abbrev pub has : ℕ → ℕ → Bool
has status mask = not (bit_and status mask == 0)

-- `status & STATUS_CLIENT_SERVER_MASK`: bit 0 is cleared.
abbrev pub event_of : ℕ → ℕ
event_of status = status / 2 * 2

-- An `unsigned char` keeps the low byte.
abbrev pub to_byte : ℕ → ℕ
to_byte n = n % 256

pub get_status_description : ℕ → String
get_status_description status =
    let event = event_of status in
    if event == connecting
    then "connecting"
    else if event == connection_established
    then "connected"
    else if event == connection_failed
    then "refused"
    else if event == connection_lost
    then "connection lost"
    else if event == disconnected_ok
    then "finished"
    else ""

-- The description of a status is the same for the client's side and the server's side of an event.
pub description_of_event :
    (n : ℕ) → get_status_description (2 * n) ≡ get_status_description (2 * n + 1)
unfolding get_status_description
description_of_event n = ground arith
