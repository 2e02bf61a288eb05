-- ===== src/Core/Ctrl/History.antt =====
-- Any sequence of calls on one chunk, and what becomes of the descriptors minted before it.
use shm_actors.Prelude.{ℕ, ◌+◌, ◌%◌, ◌^◌, ◌≡◌, List, [], ◌∷◌, ok, err, ◌==◌, if◌then◌else◌, arith}
use shm_actors.Core.Error.{stale_descriptor}
use shm_actors.Core.Desc.{ChunkDesc}
use shm_actors.Core.Ctrl.{ChunkCtrl, validate}
use shm_actors.Core.Ctrl.Machine.{
  Call, step, Allowed, IsValid, step-IsValid, is_freed, generation-step,
}

unfoldable pub run : ChunkCtrl → List Call → ChunkCtrl
run c [] = c
run c (k ∷ ks) = run (step c k) ks

abbrev pub AllowedRun : ChunkCtrl → List Call → Type 0
AllowedRun c [] = Unit {0}
AllowedRun c (k ∷ ks) = Allowed c k × AllowedRun (step c k) ks

-- How often the chunk is freed along the way.
unfoldable pub recycles : ChunkCtrl → List Call → ℕ
recycles c [] = 0
recycles c (k ∷ ks) = (if is_freed c k then 1 else 0) + recycles (step c k) ks

pub run-IsValid :
    (c : ChunkCtrl) (ks : List Call) → IsValid c → AllowedRun c ks → IsValid (run c ks)
unfolding run
run-IsValid c [] v a = v
run-IsValid c (k ∷ ks) v a = run-IsValid (step c k) ks (step-IsValid c k v a.0) a.1

pub generation-run :
    (c : ChunkCtrl) (ks : List Call)
    → IsValid c
    → AllowedRun c ks
    → (run c ks).generation ≡ (c.generation + recycles c ks) % 2 ^ 32
unfolding run recycles
generation-run c [] v a = omega (arith, v.generation_fits)
generation-run c (k ∷ ks) v a =
    omega
      (arith, generation-run (step c k) ks (step-IsValid c k v a.0) a.1, generation-step c k v a.0)

-- After any allowed calls a descriptor minted before them is accepted if the chunk was not freed
-- (or a multiple of 2^32 times), and is rejected as stale otherwise.
pub validate-run :
    (c : ChunkCtrl) (ks : List Call) (desc : ChunkDesc)
    → IsValid c
    → AllowedRun c ks
    → desc.generation ≡ c.generation
    → validate (run c ks) desc
      ≡ (if recycles c ks % 2 ^ 32 == 0 then ok tt else err stale_descriptor)
unfolding validate
validate-run c ks desc v a e = ground (arith, generation-run c ks v a, v.generation_fits)
