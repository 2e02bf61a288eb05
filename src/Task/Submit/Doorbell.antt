-- ===== src/Task/Submit/Doorbell.antt =====
-- A submit that succeeds rings the doorbell of the workers when one is counted as idle.
use shm_actors.Prelude.{
  ℕ, zero, suc, ◌≤◌, ◌<◌, ◌≡◌, inl, inr, refl, ◌∙◌, Bool-cases, Option, none, some, List, [], ◌∷◌,
  ok, err, arith, ltb, ◌==◌, ◌||◌, ◌+◌, ◌%◌, ◌^◌, err≢ok,
}
use shm_actors.Core.Desc.{ChunkDesc}
use shm_actors.Task.Error.{TaskResult, lease_table_full}
use shm_actors.Task.Lease.{LeaseBinding}
use shm_actors.Task.Slot.{cancelled}
use shm_actors.Task.Queue.{
  TaskQueue, shards, slot_at, put_slot, pop_from, popped_free, sweep_free, pop_free, push_ready,
  pop_lease, ring_work,
}
use shm_actors.Task.Submit.{
  TaskHandle, Shards, pop_ready, drain_dig, Dug, dig_step, dig, push_back, found_or, recover,
  reserve_popped, recover_or_pop, reserve_cancelled_ready, or_recover, reserve_submit_slot,
  arm_input, fresh_task, publish_queued, publish_task, submit_reserved, submit_leased, submit_inner,
}

-- The count of idle workers stays, and no ring is taken back.
pub record Quiet (q q' : TaskQueue) : Type 0 where
  pub waiters_kept : q'.waiters_work ≡ q.waiters_work
  pub rings_kept : q.work_rings ≤ q'.work_rings

Quiet-refl : (q : TaskQueue) → Quiet q q
Quiet-refl q = record { waiters_kept = refl; rings_kept = omega arith }

Quiet-trans : {a b c : TaskQueue} → Quiet a b → Quiet b c → Quiet a c
Quiet-trans p r = record {
  waiters_kept = r.waiters_kept ∙ p.waiters_kept;
  rings_kept = omega (arith, p.rings_kept, r.rings_kept);
}

popped_free-Quiet :
    (q : TaskQueue) (s : ℕ) (r : Option ℕ × ℕ) (rest : Option ℕ × TaskQueue)
    → Quiet q rest.1
    → Quiet q (popped_free q s r rest).1
popped_free-Quiet q s (none, head) rest h = h
popped_free-Quiet q s (some idx, head) rest h = record {
  waiters_kept = refl;
  rings_kept = omega arith;
}

sweep_free-Quiet : (q : TaskQueue) (home k n : ℕ) → Quiet q (sweep_free q home k n).1
sweep_free-Quiet q home k zero = Quiet-refl q
sweep_free-Quiet q home k (suc n) =
    popped_free-Quiet q ((home + k) % shards) (pop_from q.free_heads q.links ((home + k) % shards))
      (sweep_free q home (suc k) n) (sweep_free-Quiet q home (suc k) n)

reserve_popped-Quiet :
    (q : TaskQueue) (r : Option ℕ × TaskQueue) → Quiet q r.1 → Quiet q (reserve_popped r).1
reserve_popped-Quiet q (none, q') h = h
reserve_popped-Quiet q (some idx, q') h = record {
  waiters_kept = h.waiters_kept;
  rings_kept = h.rings_kept;
}

dig_step-Quiet :
    (q : TaskQueue) (r : Option ℕ × TaskQueue) (held : List ℕ) (more : List ℕ → TaskQueue → Dug)
    → Quiet q r.1
    → ((held : List ℕ) (q' : TaskQueue) → Quiet q' (more held q').2)
    → Quiet q (dig_step r held more).2
dig_step-Quiet q (none, q') held more h m = h
dig_step-Quiet q (some idx, q') held more h m =
    elim (Bool-cases ((slot_at q' idx).state == cancelled)) [
      | inl b ↦ rw b (record { waiters_kept = h.waiters_kept; rings_kept = h.rings_kept })
      | inr b ↦ rw b (Quiet-trans h (m (idx ∷ held) q'))
    ]

dig-Quiet : (s n : ℕ) (held : List ℕ) (q : TaskQueue) → Quiet q (dig s n held q).2
unfolding dig
dig-Quiet s zero held q = Quiet-refl q
dig-Quiet s (suc n) held q =
    dig_step-Quiet q (pop_ready q s) held (dig s n)
      (record { waiters_kept = refl; rings_kept = omega arith }) (dig-Quiet s n)

push_back-Quiet : (q : TaskQueue) (s : ℕ) (held : List ℕ) → Quiet q (push_back q s held)
unfolding push_ready
push_back-Quiet q s [] = Quiet-refl q
push_back-Quiet q s (idx ∷ held) =
    Quiet-trans (record { waiters_kept = refl; rings_kept = omega arith })
      (push_back-Quiet (push_ready q s idx) s held)

found_or-Quiet :
    (q q' : TaskQueue) (o : Option ℕ) (rest : Option ℕ × TaskQueue)
    → Quiet q q'
    → Quiet q rest.1
    → Quiet q (found_or o q' rest).1
found_or-Quiet q q' none rest h r = r
found_or-Quiet q q' (some idx) rest h r = h

recover-Quiet : (s n : ℕ) (q : TaskQueue) → Quiet q (recover s n q).1
unfolding recover
recover-Quiet s zero q = Quiet-refl q
recover-Quiet s (suc n) q =
    let dug = dig s drain_dig [] q in
    let back = push_back dug.2 s dug.1 in
    let rest = recover-Quiet (suc s) n back in
    let q-back = Quiet-trans (dig-Quiet s drain_dig [] q) (push_back-Quiet dug.2 s dug.1) in
    elim (Bool-cases (q.cancelled_riding == 0 || ltb q.capacity q.cancelled_riding)) [
      | inl b ↦ rw b (Quiet-refl q)
      | inr b ↦
          rw b
            (found_or-Quiet q back dug.0 (recover (suc s) n back) q-back (Quiet-trans q-back rest))
    ]

recover_or_pop-Quiet :
    (q : TaskQueue) (home : ℕ) (r : Option ℕ × TaskQueue)
    → Quiet q r.1
    → Quiet q (recover_or_pop home r).1
unfolding pop_free
recover_or_pop-Quiet q home (some idx, q') h = h
recover_or_pop-Quiet q home (none, q') h =
    reserve_popped-Quiet q (pop_free q' home) (Quiet-trans h (sweep_free-Quiet q' home 0 shards))

ring_work-Quiet : (q : TaskQueue) → Quiet q (ring_work q)
ring_work-Quiet q = elim (Bool-cases (ltb 0 q.waiters_work)) [
  | inl b ↦ rw b (record { waiters_kept = refl; rings_kept = omega arith })
  | inr b ↦ rw b (Quiet-refl q)
]

or_recover-Quiet :
    (q : TaskQueue) (home : ℕ) (r : Option ℕ × TaskQueue)
    → Quiet q r.1
    → Quiet q (or_recover home r).1
unfolding reserve_cancelled_ready
or_recover-Quiet q home (some idx, q') h = h
or_recover-Quiet q home (none, q') h = Quiet-trans h (
    Quiet-trans (recover_or_pop-Quiet q' home (recover 0 shards q') (recover-Quiet 0 shards q'))
      (ring_work-Quiet (recover_or_pop home (recover 0 shards q')).1))

reserve_submit_slot-Quiet : (q : TaskQueue) (at : Shards) → Quiet q (reserve_submit_slot q at).1
unfolding reserve_submit_slot pop_free
reserve_submit_slot-Quiet q at =
    or_recover-Quiet q at.second (reserve_popped (pop_free q at.first))
      (reserve_popped-Quiet q (pop_free q at.first) (sweep_free-Quiet q at.first 0 shards))

arm_input-Quiet :
    (q : TaskQueue) (input : Option LeaseBinding) (lease_idx : Option ℕ) (idx seq deadline : ℕ)
    → Quiet q (arm_input q input lease_idx idx seq deadline)
arm_input-Quiet q none lease_idx idx seq deadline = record {
  waiters_kept = refl;
  rings_kept = omega arith;
}
arm_input-Quiet q (some b) none idx seq deadline = record {
  waiters_kept = refl;
  rings_kept = omega arith;
}
arm_input-Quiet q (some b) (some li) idx seq deadline = record {
  waiters_kept = refl;
  rings_kept = omega arith;
}

-- A ring when a worker is counted.
rung : (q : TaskQueue) → 0 < q.waiters_work → q.work_rings < (ring_work q).work_rings
rung q h = ground arith

-- What a submit answers and how it rings.
abbrev Rung : TaskQueue → TaskResult TaskHandle × TaskQueue → Type 0
Rung q (err e, q') = Unit {0}
Rung q (ok h, q') = (0 < q.waiters_work → q.work_rings < q'.work_rings)

publish_task-Rung :
    (q q' : TaskQueue) (s : ℕ) (request : ChunkDesc) (deadline : ℕ) (input : Option LeaseBinding)
    (lease_idx : Option ℕ) (idx : ℕ)
    → Quiet q q'
    → 0 < q.waiters_work
    → q.work_rings < (publish_task q' s request deadline input lease_idx idx).1.work_rings
unfolding publish_queued push_ready
publish_task-Rung q q' s request deadline input lease_idx idx h w =
    let seq = ((slot_at q' idx).seq + 1) % 2 ^ 64 in
    let filled = put_slot q' idx (fresh_task (slot_at q' idx) request deadline) in
    let armed = arm_input filled input lease_idx idx seq deadline in
    let kept = arm_input-Quiet filled input lease_idx idx seq deadline in
    let ring =
      rung (publish_queued armed s idx) (omega (arith, w, h.waiters_kept, kept.waiters_kept)) in
    omega (arith, ring, h.rings_kept, kept.rings_kept)

submit_reserved-Rung :
    (q : TaskQueue) (s : ℕ) (request : ChunkDesc) (deadline : ℕ) (input : Option LeaseBinding)
    (lease_idx : Option ℕ) (r : Option ℕ × TaskQueue)
    → Quiet q r.1
    → Rung q (submit_reserved s request deadline input lease_idx r)
submit_reserved-Rung q s request deadline input lease_idx (none, q') h = tt
submit_reserved-Rung q s request deadline input lease_idx (some idx, q') h =
    publish_task-Rung q q' s request deadline input lease_idx idx h

leased-Rung :
    (q : TaskQueue) (at : Shards) (request : ChunkDesc) (deadline : ℕ) (b : LeaseBinding)
    (o : Option ℕ)
    → Rung q (
        submit_leased q at request deadline
          (some b)
          (elim o [ none ↦ err lease_table_full | some li ↦ ok (some li, (pop_lease q).1) ]))
unfolding pop_lease
leased-Rung q at request deadline b none = tt
leased-Rung q at request deadline b (some li) =
    submit_reserved-Rung q at.ready request deadline (some b) (some li)
      (reserve_submit_slot (pop_lease q).1 at)
      (Quiet-trans (record { waiters_kept = refl; rings_kept = omega arith })
        (reserve_submit_slot-Quiet (pop_lease q).1 at))

submit_inner-Rung :
    (q : TaskQueue) (at : Shards) (request : ChunkDesc) (deadline : ℕ) (input : Option LeaseBinding)
    → Rung q (submit_inner q at request deadline input)
unfolding submit_inner
submit_inner-Rung q at request deadline none =
    submit_reserved-Rung q at.ready request deadline none none (reserve_submit_slot q at)
      (reserve_submit_slot-Quiet q at)
submit_inner-Rung q at request deadline (some b) =
    leased-Rung q at request deadline b (pop_lease q).0

-- A submit that succeeds while a worker is counted as idle rings.
pub submit_inner-rings :
    (q : TaskQueue) (at : Shards) (request : ChunkDesc) (deadline : ℕ) (input : Option LeaseBinding)
    (h : TaskHandle)
    → 0 < q.waiters_work
    → (submit_inner q at request deadline input).0 ≡ ok h
    → q.work_rings < (submit_inner q at request deadline input).1.work_rings
submit_inner-rings q at request deadline input h w e =
    from_answer (submit_inner q at request deadline input).0 e
      (submit_inner-Rung q at request deadline input)
  where
    from_answer :
        (a : TaskResult TaskHandle)
        → a ≡ ok h
        → Rung q (a, (submit_inner q at request deadline input).1)
        → q.work_rings < (submit_inner q at request deadline input).1.work_rings
    from_answer (err x) e r = absurd (err≢ok e)
    from_answer (ok x) e r = r w
