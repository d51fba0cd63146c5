-- ===== src/Bind.antt =====
-- The object that listens, src/Bind.cpp, and how src/main.cpp fills it from the configuration.
pub mod Loop
pub mod State
pub mod Main
pub mod Execute
pub mod Live
pub mod Serving
pub mod Room
pub mod Together
pub mod Visits
pub mod Filled
pub mod Composed
pub mod Examples
mod LiveExamples
