-- ===== src/Core/Ctrl.antt =====
-- crates/shm-core/src/ctrl.rs: the control word of a chunk and its borrow state machine.
-- Each method is a function of the word, run with no other party between its accesses, so that
-- a compare-and-swap loop ends in its first round. `Interleaving` takes the methods apart.
-- Debug assertions are off, and u32 arithmetic wraps.
pub mod Machine
pub mod History
pub mod Interleaving
use shm_actors.Prelude.{
  ℕ, ◌+◌, ◌-◌, ◌*◌, ◌/◌, ◌%◌, ◌^◌, Bool, true, false, Result, ok, err, ◌==◌, ◌&&◌, if◌then◌else◌,
}
use shm_actors.Core.Error.{Error, invalid_state, stale_descriptor, CoreResult}
use shm_actors.Core.Desc.{ChunkDesc}

-- FREE, LOANED and PUBLISHED, and OWNER_NONE
abbrev pub free : ℕ
free = 0

abbrev pub loaned : ℕ
loaned = 1

abbrev pub published : ℕ
published = 2

abbrev pub owner_none : ℕ
owner_none = 0

pub record ChunkCtrl : Type 0 where
  pub word : ℕ
  pub owner_actor : ℕ
  pub generation : ℕ

-- The halves are disjoint for u32 arguments, so `|` is `+`.
abbrev pub pack_word : ℕ → ℕ → ℕ
pack_word state refcount = state * 2 ^ 32 + refcount

abbrev pub word_state : ℕ → ℕ
word_state word = word / 2 ^ 32 % 2 ^ 32

abbrev pub word_refcount : ℕ → ℕ
word_refcount word = word % 2 ^ 32

-- `fetch_add(1)` on the generation
abbrev pub bump : ChunkCtrl → ChunkCtrl
bump c = record c { generation = (c.generation + 1) % 2 ^ 32 }

unfoldable pub init_at : ℕ → ChunkCtrl
init_at generation = record {
  word = pack_word free 0;
  owner_actor = owner_none;
  generation = generation;
}

abbrev pub state : ChunkCtrl → ℕ
state c = word_state c.word

abbrev pub refcount : ChunkCtrl → ℕ
refcount c = word_refcount c.word

unfoldable pub try_loan : ChunkCtrl → ℕ → CoreResult ChunkCtrl
try_loan c owner =
    if c.word == pack_word free 0
    then ok (record c { word = pack_word loaned 0; owner_actor = owner })
    else err invalid_state

unfoldable pub publish : ChunkCtrl → CoreResult ChunkCtrl
publish c =
    if state c == loaned
    then ok (record c { word = pack_word published (refcount c) })
    else err invalid_state

unfoldable pub drop_loan : ChunkCtrl → CoreResult ChunkCtrl
drop_loan c =
    if state c == loaned
    then ok (bump (record c { word = pack_word free 0; owner_actor = owner_none }))
    else err invalid_state

unfoldable pub borrow_shared : ChunkCtrl → CoreResult ChunkCtrl
borrow_shared c =
    if state c == published
    then ok (record c { word = pack_word published ((refcount c + 1) % 2 ^ 32) })
    else err invalid_state

unfoldable pub try_reclaim : ChunkCtrl → Bool × ChunkCtrl
try_reclaim c =
    if c.owner_actor == owner_none
    then if c.word == pack_word published 0
      then (true, bump (record c { word = pack_word free 0 }))
      else (false, c)
    else (false, c)

-- `n - 1` of a u32
abbrev pub pred32 : ℕ → ℕ
pred32 n = (n + 2 ^ 32 - 1) % 2 ^ 32

unfoldable pub release_shared : ChunkCtrl → Bool × ChunkCtrl
unfolding try_reclaim
release_shared c =
    if refcount c == 1 && c.owner_actor == owner_none
    then (true, bump (record c { word = pack_word free 0 }))
    else let c' : ChunkCtrl = record c { word = pack_word published (pred32 (refcount c)) } in
      if refcount c == 1 then try_reclaim c' else (false, c')

unfoldable pub owner_release : ChunkCtrl → Bool × ChunkCtrl
unfolding try_reclaim
owner_release c = try_reclaim (record c { owner_actor = owner_none })

unfoldable pub force_free : ChunkCtrl → ℕ × ChunkCtrl
force_free c = (
  (c.generation + 1) % 2 ^ 32,
  bump (record { word = pack_word free 0; owner_actor = owner_none; generation = c.generation }),
)

unfoldable pub validate : ChunkCtrl → ChunkDesc → CoreResult (Unit {0})
validate c desc = if desc.generation == c.generation then ok tt else err stale_descriptor
