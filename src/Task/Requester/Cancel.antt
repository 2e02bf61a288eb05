-- ===== src/Task/Requester/Cancel.antt =====
-- What a cancel does to the task's slot.
use shm_actors.Prelude.{
  ℕ, [], ◌<◌, ◌≡◌, ◌≢◌, ◌⊎◌, inl, inr, refl, sym, ap, subst, ◌∙◌, ok, arith, length, get_or,
  get_or-set_self, get_or-set_ne, ◌==◌, ==_iff, Bool-cases,
}
use shm_actors.Task.Slot.{TaskSlot, new_slot, queued, claimed, cancelled, try_cancel_queued}
use shm_actors.Task.Queue.{TaskQueue, slot_at, put_slot, notify_done_if_waiters}
use shm_actors.Task.Invariant.{HasStacks}
use shm_actors.Task.Invariant.Moves.{put_slot-in_place}
use shm_actors.Task.Submit.{TaskHandle, less_riding}
use shm_actors.Task.Requester.{more_riding, raise_cancel, cancel}
use shm_actors.Task.Worker.Finish.{rung, rung_slots}

-- A cancel that was accepted. A queued task is cancelled, a claimed one has its flag raised, and
-- any other is left alone.
pub data Cancelled (s : TaskSlot) : TaskSlot → Type 0 where
  withdrawn : s.state ≡ queued → Cancelled s (record s { state = cancelled })
  flagged : s.state ≡ claimed → Cancelled s (record s { cancel = 1 })
  too_late : s.state ≢ queued → s.state ≢ claimed → Cancelled s s

cancel_inv :
    (q : TaskQueue) (h : TaskHandle) (q' : TaskQueue)
    → cancel q h ≡ ok q'
    → (h.slot_idx < q.capacity)
      × ((slot_at q h.slot_idx).seq ≡ h.seq)
      × ((((slot_at q h.slot_idx).state ≡ queued)
            × (q'
                ≡ notify_done_if_waiters (
                    put_slot
                      (more_riding q)
                      h.slot_idx
                      (record (slot_at q h.slot_idx) { state = cancelled }))))
          ⊎ (((slot_at q h.slot_idx).state ≢ queued)
              × (q' ≡ raise_cancel (less_riding (more_riding q)) h)))
unfolding cancel try_cancel_queued
cancel_inv q h q' e = grind arith

-- The queue after an accepted cancel.
pub record CancelAnswer (q : TaskQueue) (h : TaskHandle) (q' : TaskQueue) : Type 0 where
  pub valid : HasStacks q'
  pub at_idx : Cancelled (slot_at q h.slot_idx) (slot_at q' h.slot_idx)
  pub others_kept : (i : ℕ) → h.slot_idx ≢ i → slot_at q' i ≡ slot_at q i

-- A queued task, wherever it is.
withdraw-CancelAnswer :
    (q : TaskQueue) (h : TaskHandle)
    → HasStacks q
    → h.slot_idx < q.capacity
    → (slot_at q h.slot_idx).state ≡ queued
    → CancelAnswer q h (
        notify_done_if_waiters (
          put_slot
            (more_riding q)
            h.slot_idx
            (record (slot_at q h.slot_idx) { state = cancelled })))
withdraw-CancelAnswer q h w l c =
    let slot : TaskSlot = record (slot_at q h.slot_idx) { state = cancelled } in
    let written = put_slot (more_riding q) h.slot_idx slot in
    let sized : h.slot_idx < length q.slots = omega (arith, l, w.2.slots_sized) in
    record {
      valid = rung written (
        w.0,
        w.1,
        put_slot-in_place (more_riding q) w.0 w.1 [] h.slot_idx slot w.2 sized
            (λ o. inr (inr (inr refl))) (λ o. inr refl) (λ o. c),
      );
      at_idx =
          subst (Cancelled (slot_at q h.slot_idx))
            (sym (
              ap (λ t. get_or t h.slot_idx new_slot) (rung_slots written)
              ∙ get_or-set_self q.slots h.slot_idx slot new_slot sized))
            (withdrawn c);
      others_kept = λ i n.
          ap (λ t. get_or t i new_slot) (rung_slots written)
          ∙ get_or-set_ne q.slots h.slot_idx i slot new_slot n;
    }

raise-CancelAnswer :
    (q : TaskQueue) (h : TaskHandle)
    → HasStacks q
    → h.slot_idx < q.capacity
    → (slot_at q h.slot_idx).seq ≡ h.seq
    → (slot_at q h.slot_idx).state ≢ queued
    → CancelAnswer q h (raise_cancel (less_riding (more_riding q)) h)
raise-CancelAnswer q h w l e n = elim (Bool-cases ((slot_at q h.slot_idx).state == claimed)) [
  | inl b ↦
      let slot : TaskSlot = record (slot_at q h.slot_idx) { cancel = 1 } in
      let sized : h.slot_idx < length q.slots = omega (arith, l, w.2.slots_sized) in
      rw (b, (==_iff (slot_at q h.slot_idx).seq h.seq).1 e)
        (record {
          valid = (
            w.0,
            w.1,
            put_slot-in_place q w.0 w.1 [] h.slot_idx slot w.2 sized (w.2.free_reusable h.slot_idx)
                (w.2.ready_live h.slot_idx) (λ o. o),
          );
          at_idx =
              subst (Cancelled (slot_at q h.slot_idx))
                (sym (get_or-set_self q.slots h.slot_idx slot new_slot sized))
                (flagged ((==_iff (slot_at q h.slot_idx).state claimed).0 b));
          others_kept = λ i n. get_or-set_ne q.slots h.slot_idx i slot new_slot n;
        })
  | inr b ↦ rw (b) (record {
    valid = w;
    at_idx = too_late n (λ c. ground (arith, b, c));
    others_kept = λ i n. λ j. slot_at q i;
  })
]

-- A cancel that is accepted withdraws a task that is still queued, raises the flag of one that a
-- worker holds, and leaves any other alone. No other slot changes, and the queue stays well
-- formed.
pub cancel-CancelAnswer :
    (q : TaskQueue) (h : TaskHandle) (q' : TaskQueue)
    → HasStacks q
    → cancel q h ≡ ok q'
    → CancelAnswer q h q'
cancel-CancelAnswer q h q' w e =
    let inv = cancel_inv q h q' e in
    elim inv.2 [
      | inl c ↦ subst (CancelAnswer q h) (sym c.1) (withdraw-CancelAnswer q h w inv.0 c.0)
      | inr c ↦ subst (CancelAnswer q h) (sym c.1) (raise-CancelAnswer q h w inv.0 inv.1 c.0)
    ]
