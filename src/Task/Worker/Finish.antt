-- ===== src/Task/Worker/Finish.antt =====
-- A task that is completed or failed, and what a poll then answers.
use shm_actors.Prelude.{
  ℕ, ◌<◌, ◌≡◌, inl, inr, refl, sym, ap, subst, ◌∙◌, [], ◌∷◌, arith, length, ok, err, get_or, set,
  get_or-set_self, ==_iff, ltb, lt→ltb, Bool-cases,
}
use shm_actors.Core.Desc.{ChunkDesc}
use shm_actors.Task.Error.{lost}
use shm_actors.Task.Slot.{TaskSlot, new_slot, claimed, done, failed}
use shm_actors.Task.Queue.{TaskQueue, slot_at, put_slot, push_free, notify_done_if_waiters}
use shm_actors.Task.Submit.{TaskHandle}
use shm_actors.Task.Requester.{is_done, is_failed, poll, status_of}
use shm_actors.Task.Worker.{ClaimedTask, complete, fail, finish}
use shm_actors.Task.Invariant.{HasStacks, Reusable, state_of}
use shm_actors.Task.Invariant.Moves.{claimed_write, push_free-IsQueue, state_of-put}

abbrev pub task_id : ClaimedTask → TaskHandle
task_id t = record { slot_idx = t.idx; seq = t.seq }

-- Ringing a doorbell is no part of the stacks.
pub rung : (q : TaskQueue) → HasStacks q → HasStacks (notify_done_if_waiters q)
rung q h = elim (Bool-cases (ltb 0 q.waiters_done)) [ inl b ↦ rw (b) h | inr b ↦ rw (b) h ]

pub rung_slots : (q : TaskQueue) → (notify_done_if_waiters q).slots ≡ q.slots
rung_slots q = ground arith

pub rung_capacity : (q : TaskQueue) → (notify_done_if_waiters q).capacity ≡ q.capacity
rung_capacity q = ground arith

module _ (q : TaskQueue) (s idx : ℕ) (slot : TaskSlot) where
  pub finish-HasStacks :
      HasStacks q
      → s < 8
      → idx < q.capacity
      → state_of q.slots idx ≡ claimed
      → Reusable slot.state
      → HasStacks (finish q s idx slot)
  finish-HasStacks h l i c r = rung (push_free (put_slot q idx slot) s idx) (
    set h.0 s (idx ∷ get_or h.0 s []),
    h.1,
    push_free-IsQueue (put_slot q idx slot) h.0 h.1 [] s idx
        (claimed_write q h.0 h.1 idx slot h.2 i c) l
        (subst Reusable (sym (state_of-put q.slots idx slot (omega (arith, i, h.2.slots_sized))))
          r),
  )

  pub slot_at-finish : idx < length q.slots → slot_at (finish q s idx slot) idx ≡ slot
  unfolding push_free
  slot_at-finish h =
      ap (λ t. get_or t idx new_slot) (rung_slots (push_free (put_slot q idx slot) s idx))
      ∙ get_or-set_self q.slots idx slot new_slot h

  pub capacity-finish : (finish q s idx slot).capacity ≡ q.capacity
  unfolding push_free
  capacity-finish = rung_capacity (push_free (put_slot q idx slot) s idx)

complete_inv :
    (q : TaskQueue) (t : ClaimedTask) (s : ℕ) (result : ChunkDesc) (q' : TaskQueue)
    → complete q t s result ≡ ok q'
    → ((slot_at q t.idx).seq ≡ t.seq)
      × ((slot_at q t.idx).state ≡ claimed)
      × (q' ≡ finish q s t.idx (record (slot_at q t.idx) { state = done; result = result }))
unfolding complete
complete_inv q t s result q' e = grind arith

fail_inv :
    (q : TaskQueue) (t : ClaimedTask) (s : ℕ) (q' : TaskQueue)
    → fail q t s ≡ ok q'
    → ((slot_at q t.idx).seq ≡ t.seq)
      × ((slot_at q t.idx).state ≡ claimed)
      × (q' ≡ finish q s t.idx (record (slot_at q t.idx) { state = failed }))
unfolding fail
fail_inv q t s q' e = grind arith

-- What a poll answers for a slot of the handle's sequence number.
pub poll-slot :
    (q : TaskQueue) (h : TaskHandle) (slot : TaskSlot)
    → h.slot_idx < q.capacity
    → slot_at q h.slot_idx ≡ slot
    → slot.seq ≡ h.seq
    → poll q h ≡ status_of slot
unfolding poll
poll-slot q h slot l e s = rw (lt→ltb h.slot_idx q.capacity l, e, (==_iff slot.seq h.seq).1 s) refl

-- A completion that succeeds makes a poll of the task answer with the result, and keeps the queue
-- well formed: the slot was claimed under the task's sequence number.
pub poll-complete :
    (q : TaskQueue) (t : ClaimedTask) (s : ℕ) (result : ChunkDesc) (q' : TaskQueue)
    → HasStacks q
    → s < 8
    → t.idx < q.capacity
    → complete q t s result ≡ ok q'
    → HasStacks q' × (poll q' (task_id t) ≡ ok (is_done result))
poll-complete q t s result q' h l i e =
    let inv = complete_inv q t s result q' e in
    let slot : TaskSlot = record (slot_at q t.idx) { state = done; result = result } in
    subst (λ q'. HasStacks q' × (poll q' (task_id t) ≡ ok (is_done result))) (sym inv.2)
      (
        finish-HasStacks q s t.idx slot h l i inv.1 (inr (inl refl)),
        poll-slot (finish q s t.idx slot) (task_id t) slot
            (omega (arith, i, capacity-finish q s t.idx slot))
            (slot_at-finish q s t.idx slot (omega (arith, i, h.2.slots_sized))) inv.0,
      )

-- A failure that succeeds makes a poll of the task answer that it failed, and keeps the queue
-- well formed.
pub poll-fail :
    (q : TaskQueue) (t : ClaimedTask) (s : ℕ) (q' : TaskQueue)
    → HasStacks q
    → s < 8
    → t.idx < q.capacity
    → fail q t s ≡ ok q'
    → HasStacks q' × (poll q' (task_id t) ≡ ok is_failed)
poll-fail q t s q' h l i e =
    let inv = fail_inv q t s q' e in
    let slot : TaskSlot = record (slot_at q t.idx) { state = failed } in
    subst (λ q'. HasStacks q' × (poll q' (task_id t) ≡ ok is_failed)) (sym inv.2)
      (
        finish-HasStacks q s t.idx slot h l i inv.1 (inr (inr (inl refl))),
        poll-slot (finish q s t.idx slot) (task_id t) slot
            (omega (arith, i, capacity-finish q s t.idx slot))
            (slot_at-finish q s t.idx slot (omega (arith, i, h.2.slots_sized))) inv.0,
      )

complete-claimed :
    (q : TaskQueue) (t : ClaimedTask) (s : ℕ) (result : ChunkDesc)
    → (slot_at q t.idx).seq ≡ t.seq
    → (slot_at q t.idx).state ≡ claimed
    → complete q t s result
      ≡ ok (finish q s t.idx (record (slot_at q t.idx) { state = done; result = result }))
unfolding complete
complete-claimed q t s result e c =
    rw ((==_iff (slot_at q t.idx).seq t.seq).1 e, (==_iff (slot_at q t.idx).state claimed).1 c) refl

complete_lost :
    (q : TaskQueue) (t : ClaimedTask) (s : ℕ) (result : ChunkDesc) (slot : TaskSlot)
    → slot_at q t.idx ≡ slot
    → slot.seq ≡ t.seq
    → slot.state ≡ done
    → complete q t s result ≡ err lost
unfolding complete
complete_lost q t s result slot e c d = rw (e, (==_iff slot.seq t.seq).1 c, d) refl

-- A completion goes by the task's handle alone.
complete_same :
    (q : TaskQueue) (t t' : ClaimedTask) (s : ℕ) (result : ChunkDesc)
    → task_id t ≡ task_id t'
    → complete q t s result ≡ complete q t' s result
unfolding complete
complete_same q t t' s result e =
    ap
      (λ h.
        complete q
          (record { idx = h.slot_idx; seq = h.seq; worker_id = t.worker_id; request = t.request }) s
          result)
      e

-- The holder of an earlier claim of the same task, which has lapsed and been handed to another
-- worker since, can complete it: its completion succeeds, and the worker that holds the claim is
-- told that it lost it.
pub late_completion_wins :
    (q : TaskQueue) (early present : ClaimedTask) (s s' : ℕ) (result result' : ChunkDesc)
    → present.idx < length q.slots
    → (slot_at q present.idx).state ≡ claimed
    → (slot_at q present.idx).seq ≡ present.seq
    → task_id early ≡ task_id present
    → (q' : TaskQueue) × (complete q early s result ≡ ok q')
      × (complete q' present s' result' ≡ err lost)
late_completion_wins q early present s s' result result' l c e same =
    let slot : TaskSlot = record (slot_at q present.idx) { state = done; result = result } in
    let q' = finish q s present.idx slot in
    (
      q',
      complete_same q early present s result same ∙ complete-claimed q present s result e c,
      complete_lost q' present s' result' slot (slot_at-finish q s present.idx slot l) e refl,
    )
