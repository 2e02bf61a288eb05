-- ===== src/Task/Error.antt =====
-- crates/shm-task/src/error.rs. `Core`, an error passed on, is raised by none of the operations.
use shm_actors.Prelude.{ℕ, Result}

pub data Error : Type 0 where
  bad_capacity : ℕ → Error
  region_too_small : (need have : ℕ) → Error
  misaligned bad_magic queue_full stale_handle lost lease_table_full not_terminal : Error

abbrev pub TaskResult {ℓ} : Type ℓ → Type ℓ
TaskResult A = Result Error A
