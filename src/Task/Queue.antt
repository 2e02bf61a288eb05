-- ===== src/Task/Queue.antt =====
-- crates/shm-task/src/queue.rs, the queue: its region, and the stacks of free and of ready slots.
-- The links of the slots and of the lease records are lists of their own, indexed as these are.
-- Every operation runs with no other party between its accesses. Where the sources take the
-- calling thread's next shard, the operation has the shard as an argument; a doorbell is rung by
-- counting the ring.
pub mod Created
use shm_actors.Prelude.{
  ℕ, zero, suc, ◌+◌, ◌-◌, ◌*◌, ◌%◌, ◌^◌, not, ◌||◌, Option, none, some, List, ◌∷◌, ok, err, ◌==◌,
  ltb, if◌then◌else◌, get_or, set, replicate,
}
use shm_actors.Core.Pool.{align_up, treiber_pop, treiber_push, link_chain}
use shm_actors.Ring.{is_power_below}
use shm_actors.Task.Error.{TaskResult, bad_capacity, region_too_small, misaligned, bad_magic}
use shm_actors.Task.Lease.{LeaseSlot, lease_none, pack_lease_word}
use shm_actors.Task.Slot.{TaskSlot, new_slot}

-- b"SHMTASK4", little-endian
abbrev pub task_magic : ℕ
task_magic = 0x344b5341544d4853

abbrev pub stack_nil : ℕ
stack_nil = 2 ^ 32 - 1

-- The halves are disjoint for u32 arguments, so `|` is `+`.
abbrev pub pack_stack_head : ℕ → ℕ → ℕ
pack_stack_head idx tag = tag * 2 ^ 32 + idx

abbrev pub default_max_retries : ℕ
default_max_retries = 3

abbrev pub drain_dig : ℕ
drain_dig = 4

abbrev pub shards : ℕ
shards = 8

-- The header's fields, the slots and the lease table with their links, and how often the two
-- doorbells were rung. The futex word and the padding are left out.
pub record TaskQueue : Type 0 where
  pub magic : ℕ
  pub capacity : ℕ
  pub cancelled_riding : ℕ
  pub waiters_work : ℕ
  pub waiters_done : ℕ
  pub max_retries : ℕ
  pub lease_free_head : ℕ
  pub free_heads : List ℕ
  pub ready_heads : List ℕ
  pub slots : List TaskSlot
  pub links : List ℕ
  pub leases : List LeaseSlot
  pub lease_links : List ℕ
  pub work_rings : ℕ
  pub done_rings : ℕ

-- size_of::<TaskQueueHeader>() is 1088, of TaskSlot 128, and of LeaseSlot 48.
abbrev pub slots_offset : ℕ
slots_offset = align_up 1088 64

abbrev pub lease_table_offset : ℕ → ℕ
lease_table_offset capacity = align_up (slots_offset + capacity * 128) 64

-- `saturating_mul`
abbrev pub lease_capacity : ℕ → ℕ
lease_capacity capacity = if ltb (2 ^ 32 - 1) (capacity * 2) then 2 ^ 32 - 1 else capacity * 2

abbrev pub required_bytes : ℕ → ℕ
required_bytes capacity = lease_table_offset capacity + lease_capacity capacity * 48

abbrev pub new_lease : LeaseSlot
new_lease = record {
  word = pack_lease_word 0 lease_none;
  version = 0;
  seq = 0;
  deadline = 0;
  artifact_id = 0;
  incarnation = 0;
  slot_idx = 0;
}

abbrev pub new_queue : ℕ → ℕ → TaskQueue
new_queue capacity max_retries = record {
  magic = task_magic;
  capacity = capacity;
  cancelled_riding = 0;
  waiters_work = 0;
  waiters_done = 0;
  max_retries = max_retries;
  lease_free_head = pack_stack_head 0 0;
  free_heads = pack_stack_head 0 0 ∷ replicate 7 (pack_stack_head stack_nil 0);
  ready_heads = replicate 8 (pack_stack_head stack_nil 0);
  slots = replicate capacity new_slot;
  links = link_chain capacity 0 capacity;
  leases = replicate (lease_capacity capacity) new_lease;
  lease_links = link_chain (lease_capacity capacity) 0 (lease_capacity capacity);
  work_rings = 0;
  done_rings = 0;
}

-- `base` is the address of the region.
unfoldable pub init_with_max_retries : ℕ → ℕ → ℕ → ℕ → TaskResult TaskQueue
init_with_max_retries base region_len capacity max_retries =
    if capacity == 0 || not (is_power_below 32 capacity)
    then err (bad_capacity capacity)
    else if not (base % 8 == 0)
    then err misaligned
    else if ltb region_len (required_bytes capacity)
    then err (region_too_small (required_bytes capacity) region_len)
    else ok (new_queue capacity max_retries)

unfoldable pub init : ℕ → ℕ → ℕ → TaskResult TaskQueue
unfolding init_with_max_retries
init base region_len capacity = init_with_max_retries base region_len capacity default_max_retries

unfoldable pub attach : TaskQueue → ℕ → ℕ → TaskResult TaskQueue
attach q base region_len =
    if not (base % 8 == 0)
    then err misaligned
    else if ltb region_len 1088
    then err (region_too_small 1088 region_len)
    else if not (q.magic == task_magic)
    then err bad_magic
    else if ltb region_len (required_bytes q.capacity)
    then err (region_too_small (required_bytes q.capacity) region_len)
    else ok q

abbrev pub slot_at : TaskQueue → ℕ → TaskSlot
slot_at q idx = get_or q.slots idx new_slot

abbrev pub put_slot : TaskQueue → ℕ → TaskSlot → TaskQueue
put_slot q idx s = record q { slots = set q.slots idx s }

-- The loops on the stacks' heads, over the links of the slots.
abbrev pub pop_from : List ℕ → List ℕ → ℕ → Option ℕ × ℕ
pop_from heads links s = treiber_pop (get_or heads s 0) (λ i. get_or links i stack_nil)

abbrev pub push_links : List ℕ → List ℕ → ℕ → ℕ → List ℕ × ℕ
push_links heads links s idx = treiber_push (get_or heads s 0) idx (set links)

-- A pop off a shard that had a node, or the shards that follow.
abbrev pub popped_free : TaskQueue → ℕ → Option ℕ × ℕ → Option ℕ × TaskQueue → Option ℕ × TaskQueue
popped_free q s (none, head) rest = rest
popped_free q s (some idx, head) rest =
    (some idx, record q { free_heads = set q.free_heads s head })

-- The sweep of `pop_free`, `n` shards from the `k`-th on.
abbrev pub sweep_free : TaskQueue → ℕ → ℕ → ℕ → Option ℕ × TaskQueue
sweep_free q home k zero = (none, q)
sweep_free q home k (suc n) =
    let rest = sweep_free q home (suc k) n in
    let s = (home + k) % shards in popped_free q s (pop_from q.free_heads q.links s) rest

unfoldable pub pop_free : TaskQueue → ℕ → Option ℕ × TaskQueue
unfolding treiber_pop
pop_free q home = sweep_free q home 0 shards

unfoldable pub push_free : TaskQueue → ℕ → ℕ → TaskQueue
unfolding treiber_push
push_free q s idx =
    let pushed = push_links q.free_heads q.links s idx in
    record q { links = pushed.0; free_heads = set q.free_heads s pushed.1 }

unfoldable pub push_ready : TaskQueue → ℕ → ℕ → TaskQueue
unfolding treiber_push
push_ready q s idx =
    let pushed = push_links q.ready_heads q.links s idx in
    record q { links = pushed.0; ready_heads = set q.ready_heads s pushed.1 }

abbrev pub lease_at : TaskQueue → ℕ → LeaseSlot
lease_at q i = get_or q.leases i new_lease

unfoldable pub pop_lease : TaskQueue → Option ℕ × TaskQueue
unfolding treiber_pop
pop_lease q =
    let r = treiber_pop q.lease_free_head (λ i. get_or q.lease_links i stack_nil) in
    (r.0, record q { lease_free_head = r.1 })

unfoldable pub push_lease : TaskQueue → ℕ → TaskQueue
unfolding treiber_push
push_lease q idx =
    let pushed = treiber_push q.lease_free_head idx (set q.lease_links) in
    record q { lease_links = pushed.0; lease_free_head = pushed.1 }

-- The doorbells, rung only for parked parties.
abbrev pub ring_work : TaskQueue → TaskQueue
ring_work q = if ltb 0 q.waiters_work then record q { work_rings = suc q.work_rings } else q

abbrev pub notify_done_if_waiters : TaskQueue → TaskQueue
notify_done_if_waiters q =
    if ltb 0 q.waiters_done then record q { done_rings = suc q.done_rings } else q
