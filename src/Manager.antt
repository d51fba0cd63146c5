-- ===== src/Manager.antt =====
-- The threads that serve connections: src/ThreadedConnectionManager.cpp and
-- src/ThreadedConnectionManagerList.cpp.
pub mod Rounds
pub mod Counting
pub mod Pool
pub mod Watch
pub mod Choice
mod Examples
pub mod Asked
