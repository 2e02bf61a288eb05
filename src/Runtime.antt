-- ===== src/Runtime.antt =====
-- The shm-runtime crate: the control protocol between the coordinator and its actors.
pub mod Wire
pub mod Protocol
