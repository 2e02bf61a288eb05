-- ===== src/Task/Lease.antt =====
-- crates/shm-task/src/queue.rs, the lease records: a pin that is tied to a task, and the election
-- of the one party that releases it. Debug assertions are off.
pub mod Election
use shm_actors.Prelude.{ℕ, ◌+◌, ◌*◌, ◌/◌, ◌%◌, ◌^◌, Bool, true, false, ◌==◌, if◌then◌else◌}

-- LEASE_NONE, LEASE_ARMED, LEASE_RELEASED and LEASE_ACKED
abbrev pub lease_none : ℕ
lease_none = 0

abbrev pub lease_armed : ℕ
lease_armed = 1

abbrev pub lease_released : ℕ
lease_released = 2

abbrev pub lease_acked : ℕ
lease_acked = 3

-- The halves are disjoint for u32 arguments, so `|` is `+`.
abbrev pub pack_lease_word : ℕ → ℕ → ℕ
pack_lease_word gen state = gen * 2 ^ 32 + state

abbrev pub lease_word_gen : ℕ → ℕ
lease_word_gen word = word / 2 ^ 32 % 2 ^ 32

abbrev pub lease_word_state : ℕ → ℕ
lease_word_state word = word % 2 ^ 32

pub record LeaseBinding : Type 0 where
  pub artifact_id : ℕ
  pub incarnation : ℕ
  pub version : ℕ

-- The link of the free list is left out.
pub record LeaseSlot : Type 0 where
  pub word : ℕ
  pub version : ℕ
  pub seq : ℕ
  pub deadline : ℕ
  pub artifact_id : ℕ
  pub incarnation : ℕ
  pub slot_idx : ℕ

unfoldable pub arm : LeaseSlot → LeaseBinding → ℕ → ℕ → ℕ → LeaseSlot
arm l binding slot_idx seq deadline = record {
  word = pack_lease_word ((lease_word_gen l.word + 1) % 2 ^ 32) lease_armed;
  version = binding.version;
  seq = seq;
  deadline = deadline;
  artifact_id = binding.artifact_id;
  incarnation = binding.incarnation;
  slot_idx = slot_idx;
}

-- A compare-and-swap of the word to another state of the observed generation.
abbrev pub swap_state : LeaseSlot → ℕ → ℕ → Bool × LeaseSlot
swap_state l observed state =
    if l.word == observed
    then (true, record l { word = pack_lease_word (lease_word_gen observed) state })
    else (false, l)

unfoldable pub try_ack : LeaseSlot → ℕ → Bool × LeaseSlot
try_ack l observed = swap_state l observed lease_acked

unfoldable pub try_release : LeaseSlot → ℕ → Bool × LeaseSlot
try_release l observed = swap_state l observed lease_released

unfoldable pub retire : LeaseSlot → LeaseSlot
retire l = record l { word = pack_lease_word (lease_word_gen l.word) lease_none }
