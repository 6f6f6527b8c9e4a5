-- ===== src/PageTable.antt =====
-- hw1/pt.c over the simulated physical memory of hw1/os.c.
pub mod Memory
pub mod Walk
pub mod Tree
pub mod Query
pub mod Link
pub mod Ensure
pub mod Update
pub mod Leaf
pub mod Laws
pub mod Contract
pub mod Root
pub mod Growth
pub mod Calls
pub mod Main
pub mod Spec
pub mod Refine
pub mod Runs
pub mod Loops
pub mod Passes
mod Tests
mod Samples
