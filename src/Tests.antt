-- ===== src/Tests.antt =====
-- Runs of the model at concrete inputs, and the theorems at inputs that meet their hypotheses.
mod Crates
mod Wire
mod Streams
mod Sessions
mod Opening
mod Tasks
mod Links
mod Calls
mod Failing
mod Unit
