-- ===== src/Tests/CtrlTests.antt =====
-- Control words, descriptors and packed references at concrete values.
use shm_actors.Prelude.{ℕ, ◌+◌, ◌*◌, ◌^◌, ◌≡◌, refl, List, [], ◌∷◌, err, arith}
use shm_actors.Core.Error.{stale_descriptor}
use shm_actors.Core.Desc.{ChunkDesc, zero_desc}
use shm_actors.Core.Ctrl.{
  ChunkCtrl, validate, published, free, owner_none, pack_word, state, refcount,
}
use shm_actors.Core.Ctrl.Machine.{releases, owner_releases, step}
use shm_actors.Core.Ctrl.History.{run, recycles, validate-run}
use shm_actors.Core.Ctrl.Interleaving
use shm_actors.Core.Ctrl.Interleaving.{start}
use shm_actors.Core.Ctrl.Interleaving.Tally.{tally}
use shm_actors.Core.Ctrl.Interleaving.Election.{freed_once, pinned_kept}

-- Published by actor 7, with one pin.
abbrev shared : ChunkCtrl
shared = record { word = 2 * 2 ^ 32 + 1; owner_actor = 7; generation = 3 }

abbrev minted : ChunkDesc
minted = record zero_desc { generation = 3; offset = 128; len = 64 }

-- The pin goes, then the owner: the chunk is freed once, and the descriptor is stale.
validate-run_example :
    validate (run shared (releases ∷ owner_releases ∷ [])) minted ≡ err stale_descriptor
unfolding recycles step
validate-run_example =
    validate-run shared (releases ∷ owner_releases ∷ []) minted (omega arith)
      (omega arith, (omega arith, tt)) refl

-- Thread 0 is the owner, 1 holds a pin, 2 borrows late.
abbrev order : List ℕ
order = 2 ∷ 2 ∷ 0 ∷ 0 ∷ 0 ∷ 1 ∷ 1 ∷ 1 ∷ 2 ∷ 2 ∷ 2 ∷ 2 ∷ []

freed_once_example :
    ((Interleaving.run (start 7 3 1 1) order).ctrl
      ≡ record { word = pack_word free 0; owner_actor = owner_none; generation = 4 })
    × ((tally (Interleaving.run (start 7 3 1 1) order).threads).freed ≡ 1)
unfolding Interleaving.run Interleaving.schedule Interleaving.advance start tally
freed_once_example = freed_once 7 3 1 1 (omega arith) (omega arith) (omega arith) order refl

pinned_kept_example :
    let s = Interleaving.run (start 7 3 1 1) (2 ∷ 2 ∷ 0 ∷ 0 ∷ 0 ∷ []) in
    (state s.ctrl ≡ published)
    × (refcount s.ctrl ≡ (tally s.threads).pins)
    × (s.ctrl.generation ≡ 3)
unfolding Interleaving.run Interleaving.schedule Interleaving.advance start tally
pinned_kept_example =
    pinned_kept 7 3 1 1 (omega arith) (omega arith) (omega arith) (2 ∷ 2 ∷ 0 ∷ 0 ∷ 0 ∷ [])
      (omega arith)
