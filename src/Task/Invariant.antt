-- ===== src/Task/Invariant.antt =====
-- The invariant of the queue's stacks: every slot is on one stack at most, free slots are
-- reusable, ready slots are queued or cancelled, and every queued slot is ready. A slot that a
-- party has popped and not yet put anywhere is held.
pub mod Moves
use shm_actors.Prelude.{
  ℕ, zero, suc, ◌+◌, ◌≤◌, ◌<◌, ◌≡◌, ◌≢◌, ◌⊎◌, inl, inr, refl, sym, ap, subst, ◌∙◌, List, [], ◌∷◌,
  arith, length, get_or, set, length-set, get_or-set_ne, get_or-set_self, ◌==◌, if◌then◌else◌,
  ==_refl, ne→==_false, ℕ_discrete,
}
use shm_actors.Core.Pool.{empty}
use shm_actors.Task.Slot
use shm_actors.Task.Slot.{TaskSlot, new_slot, queued, done, failed, cancelled}
use shm_actors.Task.Queue.{TaskQueue, slot_at}
use shm_actors.Task.Stacks.{Chains, count, occurs, occurs-set}

-- A state in which a slot is on a free stack.
abbrev pub Reusable : ℕ → Type 0
Reusable s = (s ≡ Slot.empty) ⊎ ((s ≡ done) ⊎ ((s ≡ failed) ⊎ (s ≡ cancelled)))

-- A state in which a slot is on a ready stack.
abbrev pub Live : ℕ → Type 0
Live s = (s ≡ queued) ⊎ (s ≡ cancelled)

abbrev pub state_of : List TaskSlot → ℕ → ℕ
state_of slots i = (get_or slots i new_slot).state

pub record IsShape (capacity : ℕ) (slots : List TaskSlot) (links free_heads ready_heads : List ℕ)
    (free ready : List (List ℕ)) (held : List ℕ) : Type 0 where
  pub slots_sized : length slots ≡ capacity
  pub links_sized : length links ≡ capacity
  pub addressable : capacity ≤ empty
  pub free_shards : length free ≡ 8
  pub ready_shards : length ready ≡ 8
  pub free_chains : Chains links free_heads free
  pub ready_chains : Chains links ready_heads ready
  pub once : (i : ℕ) → occurs i free + occurs i ready + count i held ≤ 1
  pub in_range : (i : ℕ) → 0 < occurs i free + occurs i ready + count i held → i < capacity
  pub free_reusable : (i : ℕ) → 0 < occurs i free → Reusable (state_of slots i)
  pub ready_live : (i : ℕ) → 0 < occurs i ready → Live (state_of slots i)
  pub queued_found : (i : ℕ) → state_of slots i ≡ queued → 0 < occurs i ready + count i held

-- A queue with these free and ready slots, the next of a shard first, and these held.
abbrev pub IsQueue : TaskQueue → List (List ℕ) → List (List ℕ) → List ℕ → Type 0
IsQueue q free ready held =
    IsShape q.capacity q.slots q.links q.free_heads q.ready_heads free ready held

-- There are stacks for which the queue is well formed.
abbrev pub HasStacks : TaskQueue → Type 0
HasStacks q = (free : List (List ℕ)) × (ready : List (List ℕ)) × IsQueue q free ready []
