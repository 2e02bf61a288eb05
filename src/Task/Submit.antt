-- ===== src/Task/Submit.antt =====
-- crates/shm-task/src/queue.rs, the submitter: a slot is reserved, filled and published.
pub mod Doorbell
pub mod Accept
pub mod Publish
pub mod Reserve
use shm_actors.Prelude.{
  ℕ, zero, suc, ◌+◌, ◌-◌, ◌%◌, ◌^◌, Option, none, some, List, [], ◌∷◌, ok, err, ◌==◌, ◌||◌, ltb,
  if◌then◌else◌, set,
}
use shm_actors.Core.Desc.{ChunkDesc, zero_desc}
use shm_actors.Task.Error.{TaskResult, queue_full, lease_table_full}
use shm_actors.Task.Lease.{LeaseBinding, arm}
use shm_actors.Task.Slot.{TaskSlot, owner_none, queued, reserved, cancelled}
use shm_actors.Task.Queue.{
  TaskQueue, shards, drain_dig, slot_at, put_slot, pop_from, pop_free, push_ready, lease_at,
  pop_lease, push_lease, ring_work,
}

pub record TaskHandle : Type 0 where
  pub slot_idx : ℕ
  pub seq : ℕ

-- A node off a ready shard.
abbrev pub pop_ready : TaskQueue → ℕ → Option ℕ × TaskQueue
pop_ready q s =
    let r = pop_from q.ready_heads q.links s in
    (r.0, record q { ready_heads = set q.ready_heads s r.1 })

abbrev pub with_state : TaskQueue → ℕ → ℕ → TaskQueue
with_state q idx state = put_slot q idx (record (slot_at q idx) { state = state })

-- `fetch_sub(1)` of a u32
abbrev pub less_riding : TaskQueue → TaskQueue
less_riding q = record q { cancelled_riding = (q.cancelled_riding + 2 ^ 32 - 1) % 2 ^ 32 }

-- The dig for a cancelled slot in one ready shard: what was found, the nodes held aside, the last
-- popped first, and the queue.
abbrev pub Dug : Type 0
Dug = Option ℕ × List ℕ × TaskQueue

-- One pop of the dig, and the dig that follows it.
abbrev pub dig_step : Option ℕ × TaskQueue → List ℕ → (List ℕ → TaskQueue → Dug) → Dug
dig_step (none, q) held more = (none, held, q)
dig_step (some idx, q) held more =
    let rest = more (idx ∷ held) q in
    if (slot_at q idx).state == cancelled
    then (some idx, held, less_riding (with_state q idx reserved))
    else rest

unfoldable pub dig : ℕ → ℕ → List ℕ → TaskQueue → Dug
dig s zero held q = (none, held, q)
dig s (suc n) held q = dig_step (pop_ready q s) held (dig s n)

-- The held nodes go back in reverse pop order.
abbrev pub push_back : TaskQueue → ℕ → List ℕ → TaskQueue
push_back q s [] = q
push_back q s (idx ∷ held) = push_back (push_ready q s idx) s held

-- What the dig found, or the shards that follow.
abbrev pub found_or : Option ℕ → TaskQueue → Option ℕ × TaskQueue → Option ℕ × TaskQueue
found_or none q rest = rest
found_or (some idx) q rest = (some idx, q)

-- The loop over the shards, `n` of them from `s` on.
unfoldable pub recover : ℕ → ℕ → TaskQueue → Option ℕ × TaskQueue
unfolding dig
recover s zero q = (none, q)
recover s (suc n) q =
    let dug = dig s drain_dig [] q in
    let back = push_back dug.2 s dug.1 in
    let rest = recover (suc s) n back in
    if q.cancelled_riding == 0 || ltb q.capacity q.cancelled_riding
    then (none, q)
    else found_or dug.0 back rest

-- A slot off the free stack, reserved.
abbrev pub reserve_popped : Option ℕ × TaskQueue → Option ℕ × TaskQueue
reserve_popped (none, q) = (none, q)
reserve_popped (some idx, q) = (some idx, with_state q idx reserved)

-- `home` is the shard of the second pop of the free stack.
abbrev pub recover_or_pop : ℕ → Option ℕ × TaskQueue → Option ℕ × TaskQueue
recover_or_pop home (some idx, q) = (some idx, q)
recover_or_pop home (none, q) = reserve_popped (pop_free q home)

unfoldable pub reserve_cancelled_ready : TaskQueue → ℕ → Option ℕ × TaskQueue
unfolding recover pop_free
reserve_cancelled_ready q home =
    let found = recover_or_pop home (recover 0 shards q) in (found.0, ring_work found.1)

-- The shards that the calling thread takes: for the free stack, for a second pop of it, and for
-- the ready stack.
pub record Shards : Type 0 where
  pub first : ℕ
  pub second : ℕ
  pub ready : ℕ

abbrev pub or_recover : ℕ → Option ℕ × TaskQueue → Option ℕ × TaskQueue
or_recover home (some idx, q) = (some idx, q)
or_recover home (none, q) = reserve_cancelled_ready q home

unfoldable pub reserve_submit_slot : TaskQueue → Shards → Option ℕ × TaskQueue
unfolding pop_free reserve_cancelled_ready
reserve_submit_slot q at = or_recover at.second (reserve_popped (pop_free q at.first))

-- The lease record that an input binding takes, if there is one.
abbrev pub take_lease : TaskQueue → Option LeaseBinding → TaskResult (Option ℕ × TaskQueue)
take_lease q none = ok (none, q)
take_lease q (some binding) =
    let r = pop_lease q in elim r.0 [ none ↦ err lease_table_full | some li ↦ ok (some li, r.1) ]

abbrev pub arm_input : TaskQueue → Option LeaseBinding → Option ℕ → ℕ → ℕ → ℕ → TaskQueue
arm_input q (some binding) (some li) idx seq deadline = record q {
  leases = set q.leases li (arm (lease_at q li) binding idx seq deadline);
}
arm_input q _ _ idx seq deadline = q

-- The fields of a reserved slot for a new task.
abbrev pub fresh_task : TaskSlot → ChunkDesc → ℕ → TaskSlot
fresh_task s request deadline = record {
  state = s.state;
  owner = owner_none;
  seq = (s.seq + 1) % 2 ^ 64;
  deadline = deadline;
  retry = 0;
  cancel = 0;
  request = request;
  result = zero_desc;
}

unfoldable pub publish_queued : TaskQueue → ℕ → ℕ → TaskQueue
unfolding push_ready
publish_queued q s idx = push_ready (with_state q idx queued) s idx

-- The rest of a submit, on the reserved slot.
abbrev pub publish_task :
    TaskQueue → ℕ → ChunkDesc → ℕ → Option LeaseBinding → Option ℕ → ℕ → TaskHandle × TaskQueue
publish_task q s request deadline input lease_idx idx =
    let seq = ((slot_at q idx).seq + 1) % 2 ^ 64 in
    let filled = put_slot q idx (fresh_task (slot_at q idx) request deadline) in
    let armed = arm_input filled input lease_idx idx seq deadline in
    (record { slot_idx = idx; seq = seq }, ring_work (publish_queued armed s idx))

-- A lease record that no task took goes back.
abbrev pub give_back : TaskQueue → Option ℕ → TaskQueue
give_back q none = q
give_back q (some li) = push_lease q li

abbrev pub submit_reserved :
    ℕ
    → ChunkDesc
    → ℕ
    → Option LeaseBinding
    → Option ℕ
    → Option ℕ × TaskQueue
    → TaskResult TaskHandle × TaskQueue
submit_reserved s request deadline input lease_idx (none, q) =
    (err queue_full, give_back q lease_idx)
submit_reserved s request deadline input lease_idx (some idx, q) =
    let r = publish_task q s request deadline input lease_idx idx in (ok r.0, r.1)

abbrev pub submit_leased :
    TaskQueue
    → Shards
    → ChunkDesc
    → ℕ
    → Option LeaseBinding
    → TaskResult (Option ℕ × TaskQueue)
    → TaskResult TaskHandle × TaskQueue
submit_leased q at request deadline input (err e) = (err e, q)
submit_leased q at request deadline input (ok (lease_idx, q')) =
    submit_reserved at.ready request deadline input lease_idx (reserve_submit_slot q' at)

unfoldable pub submit_inner :
    TaskQueue → Shards → ChunkDesc → ℕ → Option LeaseBinding → TaskResult TaskHandle × TaskQueue
unfolding reserve_submit_slot publish_queued pop_lease push_lease arm
submit_inner q at request deadline input =
    submit_leased q at request deadline input (take_lease q input)

unfoldable pub submit : TaskQueue → Shards → ChunkDesc → ℕ → TaskResult TaskHandle × TaskQueue
unfolding submit_inner
submit q at request deadline = submit_inner q at request deadline none

unfoldable pub submit_with_binding :
    TaskQueue → Shards → ChunkDesc → ℕ → LeaseBinding → TaskResult TaskHandle × TaskQueue
unfolding submit_inner
submit_with_binding q at request deadline input = submit_inner q at request deadline (some input)
