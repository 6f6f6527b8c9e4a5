-- ===== src/Queue.antt =====
-- hw4/queue.c
pub mod Chain
pub mod State
pub mod Rep
pub mod Waiters
pub mod Threads
pub mod System
pub mod Spec
pub mod Operations
pub mod Outcomes
pub mod Changes
pub mod Refine
pub mod Invariant
pub mod Runs
pub mod Laws
pub mod Wakeups
pub mod Destroy
pub mod Programs
pub mod Single
pub mod Passes
pub mod Mixed
mod Tests
mod Samples
