-- ===== src/Task/Reap.antt =====
-- crates/shm-task/src/queue.rs, the coordinator: lapsed claims and the bindings of finished tasks.
pub mod Due
pub mod Bindings
pub mod Lapsed
use shm_actors.Prelude.{
  ℕ, zero, suc, ◌+◌, ◌-◌, ◌%◌, ◌^◌, Bool, true, false, not, Option, none, some, List, [], ◌∷◌, ◌==◌,
  ◌&&◌, ◌||◌, leb, ltb, if◌then◌else◌, set, length,
}
use shm_actors.Task.Lease.{
  LeaseBinding, LeaseSlot, lease_armed, lease_acked, lease_word_state, try_release, retire,
}
use shm_actors.Task.Slot.{
  TaskSlot, owner_none, queued, claimed, completing, try_fail, try_begin_reap_requeue,
}
use shm_actors.Task.Queue.{
  TaskQueue, shards, slot_at, put_slot, push_free, lease_at, push_lease, ring_work,
  notify_done_if_waiters,
}
use shm_actors.Task.Submit.{publish_queued}

pub record ReapReport : Type 0 where
  pub requeued : ℕ
  pub failed : ℕ

-- What happens to one slot: it stays, fails, or is queued again.
pub data Fate : Type 0 where
  stays fails requeues : Fate

abbrev pub fate_of : TaskSlot → (max_retries now : ℕ) → Fate
fate_of s max_retries now =
    if not (s.state == claimed)
    then stays
    else if leb now s.deadline
    then stays
    else if leb max_retries s.retry
    then fails
    else requeues

-- The slot after the requeue election, with its fields written.
abbrev pub retried : TaskSlot → TaskSlot
retried s = record s { retry = (s.retry + 1) % 2 ^ 32; owner = owner_none }

-- The two elections are out of CLAIMED, in which the slot was found. `s` is the shard of the
-- calling thread.
unfoldable pub reap_slot : Fate → TaskQueue → ℕ → ℕ → TaskQueue
unfolding try_fail try_begin_reap_requeue push_free publish_queued
reap_slot stays q s idx = q
reap_slot fails q s idx = push_free (put_slot q idx (try_fail (slot_at q idx)).1) s idx
reap_slot requeues q s idx =
    publish_queued (put_slot q idx (retried (try_begin_reap_requeue (slot_at q idx)).1))
      (idx % shards) idx

abbrev pub add_report : Fate → ReapReport → ReapReport
add_report stays r = r
add_report fails r = record r { failed = suc r.failed }
add_report requeues r = record r { requeued = suc r.requeued }

-- The loop over the slots, `n` of them from `idx` on; `home` gives the thread's shard for a slot.
unfoldable pub reap_slots :
    (home : ℕ → ℕ) (now idx n : ℕ) → ReapReport → TaskQueue → ReapReport × TaskQueue
unfolding reap_slot
reap_slots home now idx zero report q = (report, q)
reap_slots home now idx (suc n) report q =
    let fate = fate_of (slot_at q idx) q.max_retries now in
    reap_slots home now (suc idx) n (add_report fate report) (reap_slot fate q (home idx) idx)

abbrev pub ring_if : Bool → TaskQueue → (TaskQueue → TaskQueue) → TaskQueue
ring_if true q ring = ring q
ring_if false q ring = q

unfoldable pub reap : (ℕ → ℕ) → TaskQueue → ℕ → ReapReport × TaskQueue
unfolding reap_slots
reap home q now =
    let swept = reap_slots home now 0 q.capacity (record { requeued = 0; failed = 0 }) q in
    let rung = ring_if (ltb 0 swept.0.requeued) swept.1 ring_work in
    (swept.0, ring_if (ltb 0 swept.0.failed) rung notify_done_if_waiters)

abbrev pub binding_at : LeaseSlot → LeaseBinding
binding_at l = record {
  artifact_id = l.artifact_id;
  incarnation = l.incarnation;
  version = l.version;
}

unfoldable pub release_lease_record : TaskQueue → ℕ → ℕ → Option LeaseBinding × TaskQueue
unfolding try_release retire push_lease
release_lease_record q i word =
    let won = try_release (lease_at q i) word in
    if won.0
    then (
      some (binding_at won.1),
      push_lease (record q { leases = set q.leases i (retire won.1) }) i,
    )
    else (none, q)

-- `saturating_add` of u64
abbrev pub saturating_add : ℕ → ℕ → ℕ
saturating_add a b = if ltb (2 ^ 64 - 1) (a + b) then 2 ^ 64 - 1 else a + b

-- The task can still run, or is being published.
abbrev pub is_needed : TaskQueue → LeaseSlot → Bool
is_needed q l =
    let s = slot_at q l.slot_idx in
    ltb l.slot_idx q.capacity
    && (s.seq == l.seq && (s.state == queued || (s.state == claimed || s.state == completing)))

abbrev pub is_releasable : TaskQueue → LeaseSlot → (now grace : ℕ) → Bool
is_releasable q l now grace =
    lease_word_state l.word == lease_acked
    || (lease_word_state l.word == lease_armed
        && (ltb (saturating_add l.deadline grace) now && not (is_needed q l)))

abbrev pub cons_some : Option LeaseBinding → List LeaseBinding → List LeaseBinding
cons_some none bs = bs
cons_some (some b) bs = b ∷ bs

-- The loop over the lease table, `n` records from `i` on.
unfoldable pub reap_records : (now grace i n : ℕ) → TaskQueue → List LeaseBinding × TaskQueue
unfolding release_lease_record
reap_records now grace i zero q = ([], q)
reap_records now grace i (suc n) q =
    let released =
      if is_releasable q (lease_at q i) now grace
      then release_lease_record q i (lease_at q i).word
      else (none, q) in
    let rest = reap_records now grace (suc i) n released.1 in (cons_some released.0 rest.0, rest.1)

unfoldable pub reap_bindings : TaskQueue → (now grace : ℕ) → List LeaseBinding × TaskQueue
unfolding reap_records
reap_bindings q now grace = reap_records now grace 0 (length q.leases) q
