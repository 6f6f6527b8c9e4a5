-- ===== src/Counter.antt =====
-- hw5: the client sends a file, the server counts its printable characters.
pub mod Wire
pub mod Server
pub mod Count
pub mod Laws
pub mod Contract
pub mod Serve
pub mod Interrupt
mod Tests
pub mod Client
pub mod Main
pub mod Whole
pub mod Tester
pub mod Files
pub mod Meetings
pub mod Passes
mod Exam
