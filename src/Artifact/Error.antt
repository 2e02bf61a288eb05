-- ===== src/Artifact/Error.antt =====
-- crates/shm-artifact/src/error.rs
use shm_actors.Prelude.{ℕ, Result}
use shm_actors.Core.Error as CoreError

-- The messages of `Unsupported` that manifest.rs has.
pub data Message : Type 0 where
  too_many_chunks too_many_batches too_many_kept : Message
  not_older linked_window too_deep malformed_window : Message

-- The error of the Arrow crate is without its detail.
pub data Error : Type 0 where
  core : CoreError.Error → Error
  arrow write_locked fenced : Error
  conflict : (expected actual : ℕ) → Error
  stale : Error
  unsupported : Message → Error
  bad_magic version_gone stale_manifest : Error

abbrev pub ArtifactResult : Type 0 → Type 0
ArtifactResult A = Result Error A
