-- ===== src/Task/Reap/Lapsed.antt =====
-- What a reap does to each slot: a lapsed claim is queued again, or fails when it has no retry left.
use shm_actors.Prelude.{
  ℕ, zero, suc, ◌+◌, ◌%◌, ◌^◌, ◌≤◌, ◌<◌, ◌≡◌, ◌≢◌, ◌⊎◌, inl, inr, refl, sym, ap, subst, ◌∙◌, Bool,
  true, false, [], ◌∷◌, arith, length, get_or, set, get_or-set_ne, get_or-set_self, length-set,
  ◌==◌, ==_iff, leb, ltb, Bool-cases, ℕ_discrete,
}
use native.Mathlib.Nat.{mod-lt}
use shm_actors.Task.Slot.{
  TaskSlot, new_slot, owner_none, claimed, failed, queued, reserved, try_fail,
  try_begin_reap_requeue,
}
use shm_actors.Task.Queue.{
  TaskQueue, slot_at, put_slot, push_free, push_ready, ring_work, notify_done_if_waiters,
}
use shm_actors.Task.Invariant.{HasStacks, state_of}
use shm_actors.Task.Invariant.Moves.{claimed_write, push_free-IsQueue, state_of-put}
use shm_actors.Task.Submit.{publish_queued}
use shm_actors.Task.Submit.Publish.{publish_queued-keeps, ring_work-keeps}
use shm_actors.Task.Worker.Finish.{rung, rung_slots}
use shm_actors.Task.Reap.{
  ReapReport, Fate, stays, fails, requeues, fate_of, retried, reap_slot, add_report, reap_slots,
  ring_if, reap,
}

-- The slot after its fate.
abbrev pub fated : Fate → TaskSlot → TaskSlot
fated stays s = s
fated fails s = record s { state = failed }
fated requeues s = record s { state = queued; retry = (s.retry + 1) % 2 ^ 32; owner = owner_none }

-- Only a claimed slot has a fate.
fate_claimed :
    (s : TaskSlot) (max_retries now : ℕ) → (fate_of s max_retries now ≡ stays) ⊎ (s.state ≡ claimed)
fate_claimed s max_retries now = elim (Bool-cases (s.state == claimed)) [
  | inl b ↦ inr ((==_iff s.state claimed).0 b)
  | inr b ↦ inl (rw (b) refl)
]

-- One slot met its fate, and the others are as they were.
pub record Fated (fate : Fate) (idx : ℕ) (q q' : TaskQueue) : Type 0 where
  pub valid : HasStacks q'
  pub capacity_kept : q'.capacity ≡ q.capacity
  pub max_retries_kept : q'.max_retries ≡ q.max_retries
  pub at_idx : slot_at q' idx ≡ fated fate (slot_at q idx)
  pub others_kept : (i : ℕ) → idx ≢ i → slot_at q' i ≡ slot_at q i

module _ (q : TaskQueue) (s idx : ℕ) (h : HasStacks q) (l : s < 8) (i : idx < q.capacity)
    (c : state_of q.slots idx ≡ claimed) where
  sized : idx < length q.slots
  sized = omega (arith, i, h.2.slots_sized)

  fails-Fated : Fated fails idx q (reap_slot fails q s idx)
  unfolding reap_slot push_free try_fail
  fails-Fated = rw ((==_iff (slot_at q idx).state claimed).1 c) (
      let slot : TaskSlot = record (slot_at q idx) { state = failed } in
      record {
        valid = (
          set h.0 s (idx ∷ get_or h.0 s []),
          h.1,
          push_free-IsQueue (put_slot q idx slot) h.0 h.1 [] s idx
              (claimed_write q h.0 h.1 idx slot h.2 i c) l
              (inr (inr (inl (state_of-put q.slots idx slot sized)))),
        );
        capacity_kept = refl;
        max_retries_kept = refl;
        at_idx = get_or-set_self q.slots idx slot new_slot sized;
        others_kept = λ i n. get_or-set_ne q.slots idx i slot new_slot n;
      })

  requeues-Fated : Fated requeues idx q (reap_slot requeues q s idx)
  unfolding reap_slot publish_queued push_ready try_begin_reap_requeue
  requeues-Fated = rw ((==_iff (slot_at q idx).state claimed).1 c) (
      let slot : TaskSlot = retried (record (slot_at q idx) { state = reserved }) in
      let held = put_slot q idx slot in
      let p =
        publish_queued-keeps held (idx % 8) idx h.0 h.1 (mod-lt idx (omega arith))
          (claimed_write q h.0 h.1 idx slot h.2 i c) in
      record {
        valid = p.0;
        capacity_kept = refl;
        max_retries_kept = refl;
        at_idx =
            get_or-set_self held.slots idx _ new_slot
              (omega (arith, sized, length-set q.slots idx slot))
            ∙ ap {A = TaskSlot} (λ t. record t { state = queued })
                (get_or-set_self q.slots idx slot new_slot sized);
        others_kept = λ i n.
            get_or-set_ne held.slots idx i _ new_slot n
            ∙ get_or-set_ne q.slots idx i slot new_slot n;
      })

stays-Fated :
    (q : TaskQueue) (s idx : ℕ) → HasStacks q → Fated stays idx q (reap_slot stays q s idx)
unfolding reap_slot
stays-Fated q s idx h = record {
  valid = h;
  capacity_kept = refl;
  max_retries_kept = refl;
  at_idx = refl;
  others_kept = λ i n. refl;
}

-- A slot meets the fate that its state, deadline and retries give it.
reap_slot-Fated :
    (q : TaskQueue) (now s idx : ℕ) (fate : Fate)
    → fate_of (slot_at q idx) q.max_retries now ≡ fate
    → HasStacks q
    → s < 8
    → idx < q.capacity
    → Fated fate idx q (reap_slot fate q s idx)
reap_slot-Fated q now s idx stays e h l i = stays-Fated q s idx h
reap_slot-Fated q now s idx fails e h l i = elim (fate_claimed (slot_at q idx) q.max_retries now) [
  | inl none_met ↦ absurd (cc (e, none_met))
  | inr c ↦ fails-Fated q s idx h l i c
]
reap_slot-Fated q now s idx requeues e h l i =
    elim (fate_claimed (slot_at q idx) q.max_retries now) [
      | inl none_met ↦ absurd (cc (e, none_met))
      | inr c ↦ requeues-Fated q s idx h l i c
    ]

-- What a reap makes of a slot.
abbrev pub reaped : TaskSlot → (max_retries now : ℕ) → TaskSlot
reaped s max_retries now = fated (fate_of s max_retries now) s

-- The slots from `idx` on met their fates, and the earlier ones are as they were.
pub record Swept (now idx n : ℕ) (q q' : TaskQueue) : Type 0 where
  pub valid : HasStacks q'
  pub capacity_kept : q'.capacity ≡ q.capacity
  pub earlier_kept : (i : ℕ) → i < idx → slot_at q' i ≡ slot_at q i
  pub later_reaped :
      (i : ℕ) → idx ≤ i → i < idx + n → slot_at q' i ≡ reaped (slot_at q i) q.max_retries now

reap_slots-Swept :
    (home : ℕ → ℕ) (now idx n : ℕ) (report : ReapReport) (q : TaskQueue)
    → HasStacks q
    → ((i : ℕ) → home i < 8)
    → idx + n ≤ q.capacity
    → Swept now idx n q (reap_slots home now idx n report q).1
unfolding reap_slots
reap_slots-Swept home now idx zero report q h t l = record {
  valid = h;
  capacity_kept = refl;
  earlier_kept = λ i a. refl;
  later_reaped = λ i a b. absurd (omega (arith, a, b));
}
reap_slots-Swept home now idx (suc n) report q h t l =
    let fate = fate_of (slot_at q idx) q.max_retries now in
    let q1 = reap_slot fate q (home idx) idx in
    let one = reap_slot-Fated q now (home idx) idx fate refl h (t idx) (omega arith) in
    let rest =
      reap_slots-Swept home now (suc idx) n (add_report fate report) q1 one.valid t
        (omega (arith, one.capacity_kept)) in
    record {
      valid = rest.valid;
      capacity_kept = rest.capacity_kept ∙ one.capacity_kept;
      earlier_kept = λ i a.
          rest.earlier_kept i (omega (arith, a)) ∙ one.others_kept i (λ e. omega (arith, a, e));
      later_reaped = λ i a b. elim (ℕ_discrete idx i) [
        | yes same ↦
            subst
              (λ j.
                slot_at (reap_slots home now (suc idx) n (add_report fate report) q1).1 j
                ≡ reaped (slot_at q j) q.max_retries now)
              same (rest.earlier_kept idx (omega arith) ∙ one.at_idx)
        | no other ↦
            rest.later_reaped i (omega (arith, a, other)) (omega (arith, b))
            ∙ (λ k. reaped (one.others_kept i other k) (one.max_retries_kept k) now)
      ];
    }

ring_if-keeps :
    (b : Bool) (q : TaskQueue) (ring : TaskQueue → TaskQueue)
    → ((ring q).slots ≡ q.slots)
    → (HasStacks q → HasStacks (ring q))
    → HasStacks q
    → HasStacks (ring_if b q ring) × ((ring_if b q ring).slots ≡ q.slots)
ring_if-keeps true q ring e f h = (f h, e)
ring_if-keeps false q ring e f h = (h, refl)

reap-reaped :
    (home : ℕ → ℕ) (q : TaskQueue) (now : ℕ)
    → HasStacks q
    → ((i : ℕ) → home i < 8)
    → HasStacks (reap home q now).1
      × ((i : ℕ)
          → i < q.capacity
          → slot_at (reap home q now).1 i ≡ reaped (slot_at q i) q.max_retries now)
unfolding reap
reap-reaped home q now h t =
    let report : ReapReport = record { requeued = 0; failed = 0 } in
    let swept = reap_slots home now 0 q.capacity report q in
    let s = reap_slots-Swept home now 0 q.capacity report q h t (omega arith) in
    let q1 = ring_if (ltb 0 swept.0.requeued) swept.1 ring_work in
    let one =
      ring_if-keeps (ltb 0 swept.0.requeued) swept.1 ring_work (ring_work-keeps swept.1 s.valid).1
        (λ h. (ring_work-keeps swept.1 h).0) s.valid in
    let two =
      ring_if-keeps (ltb 0 swept.0.failed) q1 notify_done_if_waiters (rung_slots q1) (rung q1)
        one.0 in
    (
      two.0,
      λ i l.
          ap (λ t. get_or t i new_slot) (two.1 ∙ one.1)
          ∙ s.later_reaped i (omega arith) (omega (arith, l)),
    )

-- A claim whose deadline has passed.
abbrev pub IsLapsed : TaskSlot → ℕ → Type 0
IsLapsed s now = (s.state ≡ claimed) × (s.deadline < now)

-- A lapsed claim fails when it has had its retries, and is queued again otherwise.
pub data Recovered (s : TaskSlot) (max_retries now : ℕ) : TaskSlot → Type 0 where
  not_lapsed : ¬ IsLapsed s now → Recovered s max_retries now s
  given_up :
      IsLapsed s now
      → max_retries ≤ s.retry
      → Recovered s max_retries now (record s { state = failed })
  queued_again :
      IsLapsed s now
      → s.retry < max_retries
      → Recovered s max_retries now
          (record s { state = queued; retry = (s.retry + 1) % 2 ^ 32; owner = owner_none })

reaped-Recovered :
    (s : TaskSlot) (max_retries now : ℕ) → Recovered s max_retries now (reaped s max_retries now)
reaped-Recovered s max_retries now = elim (Bool-cases (s.state == claimed)) [
  | inr b ↦ rw (b) (not_lapsed (λ c. ground (arith, b, c.0)))
  | inl b ↦ elim (Bool-cases (leb now s.deadline)) [
    | inl d ↦ rw (b, d) (not_lapsed (λ c. ground (arith, d, c.1)))
    | inr d ↦
        let lapsed : IsLapsed s now = ((==_iff s.state claimed).0 b, ground (arith, d)) in
        elim (Bool-cases (leb max_retries s.retry)) [
          | inl r ↦ rw (b, d, r) (given_up lapsed (ground (arith, r)))
          | inr r ↦ rw (b, d, r) (queued_again lapsed (ground (arith, r)))
        ]
  ]
]

-- A reap leaves the queue well formed, and treats every slot by its state, deadline and retries: a
-- claim whose deadline has passed is queued again, without an owner and with one retry more, or
-- fails when it has had as many retries as allowed; any other slot is unchanged.
pub reap-Recovered :
    (home : ℕ → ℕ) (q : TaskQueue) (now : ℕ)
    → HasStacks q
    → ((i : ℕ) → home i < 8)
    → HasStacks (reap home q now).1
      × ((i : ℕ)
          → i < q.capacity
          → Recovered (slot_at q i) q.max_retries now (slot_at (reap home q now).1 i))
reap-Recovered home q now h t =
    let r = reap-reaped home q now h t in
    (
      r.0,
      λ i l.
          subst (Recovered (slot_at q i) q.max_retries now) (sym (r.1 i l))
            (reaped-Recovered (slot_at q i) q.max_retries now),
    )
