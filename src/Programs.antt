-- ===== src/Programs.antt =====
-- Programs that use the wrapper.
pub mod Session
pub mod Scratch
pub mod Window
pub mod Trigger
pub mod Shared
pub mod Latency
pub mod Beside
