-- ===== src/Core/Ctrl/Interleaving.antt =====
-- The methods of ctrl.rs that race for a published chunk, one shared access at a time:
-- `borrow_shared`, `release_shared`, `owner_release` and `try_reclaim`, run by any number of
-- threads in any order. Memory is sequentially consistent, which the SeqCst fences of
-- `release_shared` and `owner_release` are there for.
pub mod Tally
pub mod Election
use shm_actors.Prelude.{
  ◌%◌, ◌^◌, ℕ, ◌+◌, ◌*◌, ◌^◌, Bool, true, false, Option, none, some, List, [], ◌∷◌, ◌++◌, ◌==◌,
  ◌&&◌, if◌then◌else◌, get_elem?, set, replicate,
}
use shm_actors.Core.Ctrl.{
  ChunkCtrl, free, published, owner_none, pack_word, word_state, word_refcount, bump, pred32,
}

-- Where a thread stands, with its live local variables.
pub data Pc : Type 0 where
  borrowing : Pc  -- before the load of `borrow_shared`
  borrow_loaded : (cur : ℕ) → Pc  -- head of its loop
  refused : Pc  -- it returned an error
  holding : Pc  -- it returned a pin: before the load of `release_shared`
  loaded : (cur : ℕ) → Pc  -- head of the loop of `release_shared`
  checked : (cur : ℕ) → (owner_gone : Bool) → Pc  -- before its compare-exchange
  storing : Pc  -- before the store of `owner_release`
  reclaiming : Pc  -- before the load of `try_reclaim`
  swapping : Pc  -- before its compare-exchange
  bumping : Pc  -- before `generation.fetch_add`
  finished : (freed : Bool) → Pc

-- The new word of the compare-exchange in `release_shared`.
abbrev pub released : ℕ → Bool → ℕ
released cur owner_gone =
    if word_refcount cur == 1 && owner_gone
    then pack_word free 0
    else pack_word published (pred32 (word_refcount cur))

unfoldable pub advance : Pc → ChunkCtrl → Pc × ChunkCtrl
advance borrowing c = (borrow_loaded c.word, c)
advance (borrow_loaded cur) c =
    if word_state cur == published
    then if c.word == cur
      then (holding, record c { word = pack_word published ((word_refcount cur + 1) % 2 ^ 32) })
      else (borrow_loaded c.word, c)
    else (refused, c)
advance refused c = (refused, c)
advance holding c = (loaded c.word, c)
advance (loaded cur) c = (checked cur (c.owner_actor == owner_none), c)
advance (checked cur owner_gone) c =
    if c.word == cur
    then (
      if word_state (released cur owner_gone) == free
          then bumping
          else if word_refcount cur == 1
          then reclaiming
          else finished false,
      record c { word = released cur owner_gone },
    )
    else (loaded c.word, c)
advance storing c = (reclaiming, record c { owner_actor = owner_none })
advance reclaiming c = (if c.owner_actor == owner_none then swapping else finished false, c)
advance swapping c =
    if c.word == pack_word published 0
    then (bumping, record c { word = pack_word free 0 })
    else (finished false, c)
advance bumping c = (finished true, bump c)
advance (finished freed) c = (finished freed, c)

pub record System : Type 0 where
  pub ctrl : ChunkCtrl
  pub threads : List Pc

-- The scheduler lets thread `i` make its next access.
unfoldable pub schedule : System → ℕ → System
schedule s i = elim (get_elem? s.threads i) [
  | none ↦ s
  | some p ↦ record { ctrl = (advance p s.ctrl).1; threads = set s.threads i (advance p s.ctrl).0 }
]

unfoldable pub run : System → List ℕ → System
run s [] = s
run s (i ∷ is) = run (schedule s i) is

-- A published chunk of generation `g` that actor `o` owns and `n` readers have pinned; `m` more
-- threads are about to borrow it, and the owner is about to release it.
unfoldable pub start : ℕ → ℕ → ℕ → ℕ → System
start o g n m = record {
  ctrl = record { word = pack_word published n; owner_actor = o; generation = g };
  threads = storing ∷ (replicate n holding ++ replicate m borrowing);
}
