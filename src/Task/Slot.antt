-- ===== src/Task/Slot.antt =====
-- crates/shm-task/src/queue.rs, the slot of one task and the elections on its state.
use shm_actors.Prelude.{ℕ, Bool, true, false, ◌==◌, if◌then◌else◌}
use shm_actors.Core.Desc.{ChunkDesc, zero_desc}

-- EMPTY, QUEUED, CLAIMED, DONE, FAILED, CANCELLED, RESERVED and COMPLETING
abbrev pub empty : ℕ
empty = 0

abbrev pub queued : ℕ
queued = 1

abbrev pub claimed : ℕ
claimed = 2

abbrev pub done : ℕ
done = 3

abbrev pub failed : ℕ
failed = 4

abbrev pub cancelled : ℕ
cancelled = 5

abbrev pub reserved : ℕ
reserved = 6

abbrev pub completing : ℕ
completing = 7

abbrev pub owner_none : ℕ
owner_none = 0

-- The link `next` is kept by the queue, beside its slots.
pub record TaskSlot : Type 0 where
  pub state : ℕ
  pub owner : ℕ
  pub seq : ℕ
  pub deadline : ℕ
  pub retry : ℕ
  pub cancel : ℕ
  pub request : ChunkDesc
  pub result : ChunkDesc

-- A slot as `init` writes it.
abbrev pub new_slot : TaskSlot
new_slot = record {
  state = empty;
  owner = owner_none;
  seq = 0;
  deadline = 0;
  retry = 0;
  cancel = 0;
  request = zero_desc;
  result = zero_desc;
}

-- A compare-and-swap of the state.
abbrev pub swap_state : TaskSlot → ℕ → ℕ → Bool × TaskSlot
swap_state s from to = if s.state == from then (true, record s { state = to }) else (false, s)

unfoldable pub try_claim : TaskSlot → Bool × TaskSlot
try_claim s = swap_state s queued claimed

unfoldable pub try_begin_complete : TaskSlot → Bool × TaskSlot
try_begin_complete s = swap_state s claimed completing

unfoldable pub try_begin_reap_requeue : TaskSlot → Bool × TaskSlot
try_begin_reap_requeue s = swap_state s claimed reserved

unfoldable pub try_fail : TaskSlot → Bool × TaskSlot
try_fail s = swap_state s claimed failed

unfoldable pub try_cancel_queued : TaskSlot → Bool × TaskSlot
try_cancel_queued s = swap_state s queued cancelled
