-- ===== src/Clients.antt =====
-- hw4/test2.c and hw4/test_queue.c: programs whose threads share the queue of hw4/queue.c.
pub mod Programs
pub mod Threads
pub mod Steps
pub mod Invariant
pub mod Progress
pub mod Ends
pub mod Suites
pub mod Groups
pub mod Fairness
pub mod Main
mod Tests
