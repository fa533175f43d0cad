-- ===== src/Crates.antt =====
-- The third-party crates that the program calls, each as a record of the operations that it uses
-- and of the documented behaviour that it relies on. Nothing here defines what a crate does.
pub mod Bytes
pub mod Flume
pub mod DashMap
