-- ===== src/ServerList.antt =====
-- The list of servers, sessions and tasks: src/ServerList.cpp.
pub mod State
pub mod Select
pub mod Scan
pub mod Choice
pub mod Unserved
pub mod Sessions
pub mod GetServer
pub mod Persistence
pub mod Searched
pub mod Answer
pub mod Assigned
pub mod Served
pub mod Messages
pub mod Cleaning
pub mod Setup
pub mod Sharing
pub mod Tasks
pub mod Schedule
pub mod Accounts
pub mod Balance
pub mod CleanUp
pub mod Frame
pub mod TaskRound
pub mod Agenda
pub mod SetServer
pub mod LateTask
pub mod Loop
pub mod Finish
pub mod Drained
pub mod Wake
mod Examples
mod LoopExamples
