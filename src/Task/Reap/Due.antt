-- ===== src/Task/Reap/Due.antt =====
-- When the binding of a lease record is due for release, said apart from the code's test of it.
use mathlib.Core.Bool.{true≢false}
use shm_actors.Prelude.{
  ℕ, ◌+◌, ◌^◌, ◌<◌, ◌≡◌, ◌⊎◌, inl, inr, sym, ◌∙◌, true, false, arith, Bool-cases, ℕ_discrete,
}
use shm_actors.Task.Lease.{LeaseSlot, lease_armed, lease_acked, lease_word_state}
use shm_actors.Task.Slot.{queued, claimed, completing}
use shm_actors.Task.Queue.{TaskQueue, slot_at}
use shm_actors.Task.Reap.{is_needed, is_releasable}

-- The task of a record is still to run or running: its slot is of the record's sequence number, and
-- queued, claimed or completing.
pub record IsLive (q : TaskQueue) (l : LeaseSlot) : Type 0 where
  pub in_range : l.slot_idx < q.capacity
  pub same_task : (slot_at q l.slot_idx).seq ≡ l.seq
  pub state :
      ((slot_at q l.slot_idx).state ≡ queued)
      ⊎ ((slot_at q l.slot_idx).state ≡ claimed)
      ⊎ ((slot_at q l.slot_idx).state ≡ completing)

-- A binding is due when its task was acked, or when it is armed, its deadline is past by more than
-- the grace, and its task is not live.
pub data IsDue (q : TaskQueue) (l : LeaseSlot) (now grace : ℕ) : Type 0 where
  of_acked : lease_word_state l.word ≡ lease_acked → IsDue q l now grace
  of_lapsed :
      lease_word_state l.word ≡ lease_armed
      → l.deadline + grace < now
      → ¬ IsLive q l
      → IsDue q l now grace

needed-IsLive : (q : TaskQueue) (l : LeaseSlot) → is_needed q l ≡ true → IsLive q l
needed-IsLive q l e = record {
  in_range = ground (arith, e);
  same_task = ground (arith, e);
  state = ground (arith, e);
}

IsLive-needed : (q : TaskQueue) (l : LeaseSlot) → IsLive q l → is_needed q l ≡ true
IsLive-needed q l v = ground (arith, v.in_range, v.same_task, v.state)

pub releasable-IsDue :
    (q : TaskQueue) (l : LeaseSlot) (now grace : ℕ)
    → now < 2 ^ 64
    → is_releasable q l now grace ≡ true
    → IsDue q l now grace
releasable-IsDue q l now grace h e = elim (Bool-cases (is_needed q l)) [
  | inl b ↦ of_acked (ground (arith, e, b))
  | inr b ↦ elim (ℕ_discrete (lease_word_state l.word) lease_acked) [
    | yes a ↦ of_acked a
    | no n ↦
        of_lapsed (ground (arith, e, n)) (ground (arith, e, n, h))
          (λ v. true≢false (sym (IsLive-needed q l v) ∙ b))
  ]
]

IsDue-releasable :
    (q : TaskQueue) (l : LeaseSlot) (now grace : ℕ)
    → now < 2 ^ 64
    → IsDue q l now grace
    → is_releasable q l now grace ≡ true
IsDue-releasable q l now grace h (of_acked a) = ground (arith, a)
IsDue-releasable q l now grace h (of_lapsed a d n) = elim (Bool-cases (is_needed q l)) [
  | inl b ↦ absurd (n (needed-IsLive q l b))
  | inr b ↦ ground (arith, a, d, b)
]

pub not_IsDue :
    (q : TaskQueue) (l : LeaseSlot) (now grace : ℕ)
    → now < 2 ^ 64
    → is_releasable q l now grace ≡ false
    → ¬ IsDue q l now grace
not_IsDue q l now grace h e d = true≢false (sym (IsDue-releasable q l now grace h d) ∙ e)
