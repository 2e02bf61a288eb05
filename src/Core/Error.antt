-- ===== src/Core/Error.antt =====
-- crates/shm-core/src/error.rs, and `Result` of the crate.
use shm_actors.Prelude.{Result}

-- `LayoutOverflow` carries the text of its message, which is not kept. `Platform`, an
-- operating-system failure, is raised only by code that is not modelled.
pub data Error : Type 0 where
  stale_descriptor layout_mismatch out_of_bounds misaligned : Error
  pool_exhausted journal_full invalid_state layout_overflow : Error

abbrev pub CoreResult {ℓ} : Type ℓ → Type ℓ
CoreResult A = Result Error A
