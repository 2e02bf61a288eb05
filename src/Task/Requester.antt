-- ===== src/Task/Requester.antt =====
-- crates/shm-task/src/queue.rs, the requester: poll, wait, cancel and ack.
pub mod Cancel
pub mod Waiting
use shm_actors.Prelude.{
  ℕ, zero, suc, ◌+◌, ◌-◌, ◌%◌, ◌^◌, Bool, false, not, Option, none, some, List, [], ◌∷◌, ok, err,
  ◌==◌, ◌&&◌, ◌||◌, ltb, if◌then◌else◌,
}
use shm_actors.Core.Desc.{ChunkDesc}
use shm_actors.Task.Error.{Error, TaskResult, stale_handle, not_terminal}
use shm_actors.Task.Lease.{LeaseSlot, lease_armed, lease_word_state, try_ack}
use shm_actors.Task.Slot.{
  TaskSlot, queued, claimed, done, failed, cancelled, reserved, completing, try_cancel_queued,
}
use shm_actors.Task.Queue.{TaskQueue, slot_at, put_slot, notify_done_if_waiters}
use shm_actors.Task.Submit.{TaskHandle, less_riding}

pub data TaskStatus : Type 0 where
  is_queued is_claimed : TaskStatus
  is_done : ChunkDesc → TaskStatus
  is_failed is_cancelled : TaskStatus

pub data Outcome : Type 0 where
  was_done : ChunkDesc → Outcome
  was_failed was_cancelled : Outcome

-- The status that a slot's state stands for. The sequence number is not read again for DONE: it
-- has not changed.
abbrev pub status_of : TaskSlot → TaskResult TaskStatus
status_of s =
    if s.state == queued || s.state == reserved
    then ok is_queued
    else if s.state == claimed || s.state == completing
    then ok is_claimed
    else if s.state == done
    then ok (is_done s.result)
    else if s.state == failed
    then ok is_failed
    else if s.state == cancelled
    then ok is_cancelled
    else err stale_handle

unfoldable pub poll : TaskQueue → TaskHandle → TaskResult TaskStatus
poll q h =
    if not (ltb h.slot_idx q.capacity)
    then err stale_handle
    else if not ((slot_at q h.slot_idx).seq == h.seq)
    then err stale_handle
    else status_of (slot_at q h.slot_idx)

-- The answer of `wait` to a status, or none for a live task.
abbrev pub answer : TaskResult TaskStatus → Option (TaskResult Outcome)
answer (err e) = some (err e)
answer (ok is_queued) = none
answer (ok is_claimed) = none
answer (ok (is_done r)) = some (ok (was_done r))
answer (ok is_failed) = some (ok was_failed)
answer (ok is_cancelled) = some (ok was_cancelled)

abbrev pub add_waiter : TaskQueue → TaskQueue
add_waiter q = record q { waiters_done = (q.waiters_done + 1) % 2 ^ 32 }

abbrev pub remove_waiter : TaskQueue → TaskQueue
remove_waiter q = record q { waiters_done = (q.waiters_done + 2 ^ 32 - 1) % 2 ^ 32 }

-- A round after a poll that found the task live. `raced` is what the other parties do before the
-- second poll, `park` what they do while the requester is parked. Either an error that ends the
-- wait, or the queue for the next round.
abbrev pub recheck :
    (TaskQueue → TaskQueue) → TaskQueue → TaskResult TaskStatus → Option Error × TaskQueue
recheck park q (err e) = (some e, q)
recheck park q (ok is_queued) = (none, remove_waiter (park q))
recheck park q (ok is_claimed) = (none, remove_waiter (park q))
recheck park q (ok status) = (none, remove_waiter q)

unfoldable pub wait_once :
    (raced park : TaskQueue → TaskQueue) → TaskQueue → TaskHandle → Option Error × TaskQueue
unfolding poll
wait_once raced park q h = let q' = raced (add_waiter q) in recheck park q' (poll q' h)

abbrev pub wait_more :
    Option Error × TaskQueue
    → (TaskQueue → Option (TaskResult Outcome) × TaskQueue)
    → Option (TaskResult Outcome) × TaskQueue
wait_more (some e, q) more = (some (err e), q)
wait_more (none, q) more = more q

-- At most `rounds` rounds; none if the task is still live after them.
unfoldable pub wait :
    (raced park : TaskQueue → TaskQueue)
    → ℕ
    → TaskHandle
    → TaskQueue
    → Option (TaskResult Outcome) × TaskQueue
unfolding poll wait_once
wait raced park zero h q = (answer (poll q h), q)
wait raced park (suc rounds) h q =
    let more = wait_more (wait_once raced park q h) (wait raced park rounds h) in
    elim (answer (poll q h)) [ none ↦ more | some r ↦ (some r, q) ]

abbrev pub more_riding : TaskQueue → TaskQueue
more_riding q = record q { cancelled_riding = (q.cancelled_riding + 1) % 2 ^ 32 }

-- The flag that asks a worker to stop.
abbrev pub raise_cancel : TaskQueue → TaskHandle → TaskQueue
raise_cancel q h =
    let s = slot_at q h.slot_idx in
    if s.state == claimed && s.seq == h.seq
    then put_slot q h.slot_idx (record s { cancel = 1 })
    else q

unfoldable pub cancel : TaskQueue → TaskHandle → TaskResult TaskQueue
unfolding try_cancel_queued
cancel q h =
    let counted = more_riding q in
    let won = try_cancel_queued (slot_at counted h.slot_idx) in
    if not (ltb h.slot_idx q.capacity)
    then err stale_handle
    else if not ((slot_at q h.slot_idx).seq == h.seq)
    then err stale_handle
    else if won.0
    then ok (notify_done_if_waiters (put_slot counted h.slot_idx won.1))
    else ok (raise_cancel (less_riding counted) h)

-- An armed record of this task is handed over.
abbrev pub is_tied : LeaseSlot → TaskHandle → Bool
is_tied l h = lease_word_state l.word == lease_armed && (l.slot_idx == h.slot_idx && l.seq == h.seq)

unfoldable pub ack_record : LeaseSlot → TaskHandle → Bool × LeaseSlot
unfolding try_ack
ack_record l h = if is_tied l h then try_ack l l.word else (false, l)

-- The loop over the lease table.
abbrev pub ack_records : List LeaseSlot → TaskHandle → ℕ × List LeaseSlot
ack_records [] h = (0, [])
ack_records (l ∷ ls) h =
    let won = ack_record l h in
    let rest = ack_records ls h in ((if won.0 then suc rest.0 else rest.0), won.1 ∷ rest.1)

abbrev pub is_terminal : ℕ → Bool
is_terminal state = state == done || (state == failed || state == cancelled)

unfoldable pub ack : TaskQueue → TaskHandle → TaskResult (ℕ × TaskQueue)
unfolding ack_record
ack q h =
    let acked = ack_records q.leases h in
    if not (ltb h.slot_idx q.capacity)
    then err stale_handle
    else if (slot_at q h.slot_idx).seq == h.seq && not (is_terminal (slot_at q h.slot_idx).state)
    then err not_terminal
    else ok (acked.0, record q { leases = acked.1 })
