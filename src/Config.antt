-- ===== src/Config.antt =====
-- The configuration file: src/AppConfig.cpp, and what src/main.cpp does with it.
pub mod State
pub mod Endpoint
pub mod Servers
pub mod Rules
pub mod Tasks
pub mod Lines
pub mod Faults
pub mod Masks
pub mod Times
pub mod Usable
pub mod Sound
pub mod Kept
pub mod Start
pub mod Fallback
pub mod Decimal
pub mod Written
pub mod RoundTrip
pub mod Cursor
pub mod Getters
pub mod Examples
