-- ===== src/Infra.antt =====
-- infra/: the scripts that inject faults into the flight segment and into the ground's audit chain.
pub mod Cascade
pub mod Chaining
pub mod Restarts
pub mod Spikes
pub mod Logged
pub mod Spiking
pub mod Drops
pub mod Recovery
pub mod Script
pub mod Answers
pub mod BadSignature
pub mod Rules
pub mod Counts
pub mod Verdict
mod Tests
