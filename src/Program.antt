-- ===== src/Program.antt =====
-- The program, `main` of src/main.cpp, as it is built for Unix.
pub mod Arguments
pub mod Run
pub mod Order
mod Examples
