-- ===== src/Artifact.antt =====
-- crates/shm-artifact: versioned artifacts.
pub mod Error
pub mod Head
pub mod Manifest
