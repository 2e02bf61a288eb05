-- ===== src/Core/Ctrl/Machine.antt =====
-- The borrow state machine: what every method keeps, and when a generation ends.
use shm_actors.Prelude.{
  ℕ, ◌+◌, ◌%◌, ◌^◌, ◌≤◌, ◌<◌, ◌≡◌, ◌⊎◌, Bool, true, ok, err, ◌==◌, ◌&&◌, not, if◌then◌else◌, arith,
}
use shm_actors.Core.Error.{CoreResult}
use shm_actors.Core.Ctrl.{
  ChunkCtrl, free, published, owner_none, state, refcount, init_at, try_loan, publish, drop_loan,
  borrow_shared, try_reclaim, release_shared, owner_release, force_free,
}

-- The calls that change a control word.
pub data Call : Type 0 where
  loans : ℕ → Call
  publishes drops borrows releases owner_releases reclaims forces : Call

-- A call that fails leaves the word as it was.
abbrev after : ChunkCtrl → CoreResult ChunkCtrl → ChunkCtrl
after c (ok c') = c'
after c (err e) = c

unfoldable pub step : ChunkCtrl → Call → ChunkCtrl
unfolding try_loan publish drop_loan borrow_shared try_reclaim release_shared owner_release
    force_free
step c (loans owner) = after c (try_loan c owner)
step c publishes = after c (publish c)
step c drops = after c (drop_loan c)
step c borrows = after c (borrow_shared c)
step c releases = (release_shared c).1
step c owner_releases = (owner_release c).1
step c reclaims = (try_reclaim c).1
step c forces = (force_free c).1

-- What the callers keep to: an owner has an id, a count does not overflow, and only a pin that is
-- held is released. Owner and administrative releases are for published chunks.
abbrev pub Allowed : ChunkCtrl → Call → Type 0
Allowed c (loans owner) = (0 < owner) × (owner < 2 ^ 32)
Allowed c borrows = refcount c + 1 < 2 ^ 32
Allowed c releases = (state c ≡ published) × (0 < refcount c)
Allowed c owner_releases = state c ≡ published
Allowed c _ = Unit {0}

pub record IsValid (c : ChunkCtrl) : Type 0 where
  pub word_fits : c.word < 2 ^ 64
  pub owner_fits : c.owner_actor < 2 ^ 32
  pub generation_fits : c.generation < 2 ^ 32
  pub state_known : state c ≤ published
  pub unshared : (state c ≡ published) ⊎ (refcount c ≡ 0)
  pub unowned : (0 < state c) ⊎ (c.owner_actor ≡ owner_none)

pub init_at-IsValid : (g : ℕ) → g < 2 ^ 32 → IsValid (init_at g)
unfolding init_at
init_at-IsValid g h = omega arith

-- Every allowed call keeps the control word well formed: a known state, no count outside
-- PUBLISHED, and no owner in FREE.
pub step-IsValid : (c : ChunkCtrl) (k : Call) → IsValid c → Allowed c k → IsValid (step c k)
unfolding step
step-IsValid c (loans owner) v a = ground arith
step-IsValid c publishes v a = ground arith
step-IsValid c _ v a = ground arith

-- A chunk is freed by a step that ends in FREE and did not begin there, or by force.
abbrev pub is_freed : ChunkCtrl → Call → Bool
is_freed c forces = true
is_freed c k = not (state c == free) && state (step c k) == free

-- The generation moves, by one, exactly when the chunk is freed.
pub generation-step :
    (c : ChunkCtrl) (k : Call)
    → IsValid c
    → Allowed c k
    → (step c k).generation ≡ (c.generation + (if is_freed c k then 1 else 0)) % 2 ^ 32
unfolding step
generation-step c (loans owner) v a = ground arith
generation-step c publishes v a = ground arith
generation-step c _ v a = ground arith
