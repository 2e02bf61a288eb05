-- ===== src/Task/Worker.antt =====
-- crates/shm-task/src/queue.rs, the worker: a task is claimed, and completed or failed.
pub mod Blocking
pub mod Shard
pub mod Sweep
pub mod Claim
pub mod Finish
use shm_actors.Prelude.{
  ℕ, zero, suc, ◌+◌, ◌*◌, ◌%◌, Bool, not, Option, none, some, ok, err, ◌==◌, if◌then◌else◌, set,
  ◌>>=◌, ok_or,
}
use shm_actors.Core.Desc.{ChunkDesc}
use shm_actors.Task.Error.{TaskResult, lease_table_full, stale_handle, lost}
use shm_actors.Task.Lease.{LeaseBinding, arm}
use shm_actors.Task.Slot.{TaskSlot, done, try_claim, try_begin_complete, try_fail}
use shm_actors.Task.Queue.{
  TaskQueue, shards, slot_at, put_slot, push_free, lease_at, pop_lease, notify_done_if_waiters,
}
use shm_actors.Task.Submit.{pop_ready, less_riding}

-- The outcome of one pop of `claim_pop`: out of fuel, empty, or claimed.
pub data Popped : Type 0 where
  no_fuel : Popped
  is_empty : Popped
  took : ℕ → Popped

-- A popped node is claimed, or, if it was cancelled, handed to the free stack.
abbrev pub claim_node :
    ℕ → Option ℕ × TaskQueue → (TaskQueue → Popped × TaskQueue) → Popped × TaskQueue
claim_node s (none, q) more = (is_empty, q)
claim_node s (some idx, q) more =
    let won = try_claim (slot_at q idx) in
    let rest = more (less_riding (push_free q s idx)) in
    if won.0 then (took idx, put_slot q idx won.1) else rest

-- The loop, on fuel: a round for each node of the shard.
unfoldable pub claim_pop : ℕ → ℕ → TaskQueue → Popped × TaskQueue
unfolding push_free try_claim
claim_pop s zero q = (no_fuel, q)
claim_pop s (suc fuel) q = claim_node s (pop_ready q s) (claim_pop s fuel)

abbrev pub stride : ℕ → ℕ
stride worker_id = 1 + 2 * (worker_id % 4)

abbrev pub claim_more : Popped × TaskQueue → (TaskQueue → Popped × TaskQueue) → Popped × TaskQueue
claim_more (took idx, q) more = (took idx, q)
claim_more (no_fuel, q) more = (no_fuel, q)
claim_more (is_empty, q) more = more q

-- The sweep, `n` shards from the `k`-th on.
unfoldable pub sweep_ready : ℕ → ℕ → ℕ → TaskQueue → Popped × TaskQueue
unfolding claim_pop
sweep_ready worker_id k zero q = (is_empty, q)
sweep_ready worker_id k (suc n) q =
    claim_more (claim_pop ((worker_id % shards + k * stride worker_id) % shards) (suc q.capacity) q)
      (sweep_ready worker_id (suc k) n)

pub record ClaimedTask : Type 0 where
  pub idx : ℕ
  pub seq : ℕ
  pub worker_id : ℕ
  pub request : ChunkDesc

-- The owner, and a fresh deadline if one was asked for.
abbrev pub leased_to : TaskSlot → ℕ → Option ℕ → TaskSlot
leased_to s worker_id none = record s { owner = worker_id }
leased_to s worker_id (some deadline) = record s { owner = worker_id; deadline = deadline }

-- What a worker got: nothing for the two other outcomes of the sweep.
abbrev pub hand_out : ℕ → Option ℕ → Popped × TaskQueue → Option ClaimedTask × TaskQueue
hand_out worker_id deadline (took idx, q) = (
  some (record {
    idx = idx;
    seq = (slot_at q idx).seq;
    worker_id = worker_id;
    request = (slot_at q idx).request;
  }),
  put_slot q idx (leased_to (slot_at q idx) worker_id deadline),
)
hand_out worker_id deadline (_, q) = (none, q)

unfoldable pub claim_inner : TaskQueue → ℕ → Option ℕ → Option ClaimedTask × TaskQueue
unfolding sweep_ready
claim_inner q worker_id deadline = hand_out worker_id deadline (sweep_ready worker_id 0 shards q)

unfoldable pub claim : TaskQueue → ℕ → Option ClaimedTask × TaskQueue
unfolding claim_inner
claim q worker_id = claim_inner q worker_id none

unfoldable pub claim_with_lease : TaskQueue → ℕ → ℕ → Option ClaimedTask × TaskQueue
unfolding claim_inner
claim_with_lease q worker_id deadline = claim_inner q worker_id (some deadline)

abbrev pub attempt : TaskQueue → ClaimedTask → ℕ
attempt q t = (slot_at q t.idx).retry

abbrev pub is_cancelled : TaskQueue → ClaimedTask → Bool
is_cancelled q t = not ((slot_at q t.idx).cancel == 0)

unfoldable pub bind_output : TaskQueue → ClaimedTask → LeaseBinding → TaskResult TaskQueue
unfolding pop_lease arm
bind_output q t binding =
    let r = pop_lease q in
    ok_or r.0 lease_table_full >>= λ li. ok (record r.1 {
      leases = set q.leases li (arm (lease_at q li) binding t.idx t.seq (slot_at q t.idx).deadline);
    })

-- The slot goes to the free stack, and the requesters are told.
abbrev pub finish : TaskQueue → ℕ → ℕ → TaskSlot → TaskQueue
finish q s idx slot = notify_done_if_waiters (push_free (put_slot q idx slot) s idx)

-- `s` is the shard of the calling thread.
unfoldable pub complete : TaskQueue → ClaimedTask → ℕ → ChunkDesc → TaskResult TaskQueue
unfolding try_begin_complete push_free
complete q t s result =
    let won = try_begin_complete (slot_at q t.idx) in
    if not ((slot_at q t.idx).seq == t.seq)
    then err stale_handle
    else if won.0
    then ok (finish q s t.idx (record won.1 { result = result; state = done }))
    else err lost

unfoldable pub fail : TaskQueue → ClaimedTask → ℕ → TaskResult TaskQueue
unfolding try_fail push_free
fail q t s =
    let won = try_fail (slot_at q t.idx) in
    if not ((slot_at q t.idx).seq == t.seq)
    then err stale_handle
    else if won.0
    then ok (finish q s t.idx won.1)
    else err lost
