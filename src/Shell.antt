-- ===== src/Shell.antt =====
-- hw2: the shell.
pub mod Words
pub mod Process
pub mod Scan
pub mod Spec
pub mod Laws
pub mod Waiting
pub mod Main
pub mod Session
mod Tests
