-- ===== src/Task.antt =====
-- The shm-task crate.
pub mod Error
pub mod Lease
pub mod Slot
pub mod Queue
pub mod Submit
pub mod Worker
pub mod Requester
pub mod Reap
pub mod Stacks
pub mod Invariant
