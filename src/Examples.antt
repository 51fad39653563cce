-- ===== src/Examples.antt =====
-- Concrete runs: the theorems at inputs where their hypotheses hold.
pub mod Data
mod Stored
mod Chosen
pub mod Run
mod Notified
pub mod Resolved
mod Hooked
mod History
pub mod Served
mod Held
mod Waited
mod Interleaved
pub mod Started
mod Process
