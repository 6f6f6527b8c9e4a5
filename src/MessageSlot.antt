-- ===== src/MessageSlot.antt =====
-- hw3/message_slot.c: a character device that keeps one message for each channel of each minor.
pub mod Driver
pub mod Place
pub mod Write
pub mod Content
pub mod Contract
pub mod Failed
pub mod Reading
pub mod Reach
pub mod Cleanup
pub mod Users
pub mod Programs
mod Tests
mod Samples
