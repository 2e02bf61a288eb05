-- ===== src/Core.antt =====
-- The shm-core crate.
pub mod Error
pub mod Desc
pub mod Ctrl
pub mod Pool
pub mod Journal
