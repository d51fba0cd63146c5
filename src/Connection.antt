-- ===== src/Connection.antt =====
-- A connection between a client and a server: src/ConnectionPeer.cpp.
pub mod Buffer
pub mod Peer
pub mod Close
pub mod Transfer
pub mod Relay
pub mod Moves
pub mod Manage
pub mod Rounds
pub mod Faults
pub mod Interest
mod Examples
pub mod Making
