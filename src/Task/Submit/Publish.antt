-- ===== src/Task/Submit/Publish.antt =====
-- A submit that succeeds queues its task in a slot without a live one.
use shm_actors.Prelude.{
  ℕ, ◌+◌, ◌%◌, ◌^◌, ◌<◌, ◌≡◌, ◌≢◌, inl, inr, refl, ap, subst, ◌∙◌, Option, some, none, List, [],
  ◌∷◌, ok, err, arith, length, get_or, set, get_or-set_ne, get_or-set_self, length-set, ltb,
  Bool-cases,
}
use shm_actors.Core.Desc.{ChunkDesc}
use shm_actors.Task.Error.{TaskResult, lease_table_full}
use shm_actors.Task.Lease.{LeaseBinding}
use shm_actors.Task.Slot.{TaskSlot, new_slot, reserved, queued}
use shm_actors.Task.Queue.{
  TaskQueue, shards, slot_at, put_slot, pop_free, push_ready, ring_work, pop_lease, push_lease,
}
use shm_actors.Task.Invariant.{IsQueue, HasStacks, Reusable}
use shm_actors.Task.Invariant.Moves.{here_self, push_ready-IsQueue, put_slot-IsQueue, state_of-put}
use shm_actors.Task.Requester.{poll, is_queued}
use shm_actors.Task.Worker.Finish.{poll-slot}
use shm_actors.Task.Submit.{
  TaskHandle, Shards, with_state, fresh_task, recover, recover_or_pop, reserve_popped,
  reserve_cancelled_ready, or_recover, reserve_submit_slot, arm_input, publish_queued, publish_task,
  give_back, submit_reserved, submit_leased, submit_inner,
}
use shm_actors.Task.Submit.Reserve.{
  InHand, Untouched, in_state, Reserved, sweep_free-Popped, reserve_popped-Reserved,
  recover-Reserved,
}

ring-Reserved :
    (slots : List TaskSlot) (capacity : ℕ) (r : Option ℕ × TaskQueue)
    → Reserved slots capacity r
    → Reserved slots capacity (r.0, ring_work r.1)
ring-Reserved slots capacity (none, q) p = elim (Bool-cases (ltb 0 q.waiters_work)) [
  | inl b ↦ rw (b) (record {
    free' = p.free';
    ready' = p.ready';
    valid = p.valid;
    slots_kept = p.slots_kept;
    capacity_kept = p.capacity_kept;
  })
  | inr b ↦ rw (b) p
]
ring-Reserved slots capacity (some idx, q) p = elim (Bool-cases (ltb 0 q.waiters_work)) [
  | inl b ↦ rw (b) (record {
    free' = p.free';
    ready' = p.ready';
    valid = p.valid;
    was_reusable = p.was_reusable;
    slots_are = p.slots_are;
    capacity_kept = p.capacity_kept;
  })
  | inr b ↦ rw (b) p
]

-- A second try, after one that left the slots alone.
retry-Reserved :
    (slots : List TaskSlot) (capacity : ℕ) (q : TaskQueue) (r : Option ℕ × TaskQueue)
    → Untouched slots capacity q
    → Reserved q.slots q.capacity r
    → Reserved slots capacity r
retry-Reserved slots capacity q r u p =
    subst {A = List TaskSlot × ℕ} (λ t. Reserved t.0 t.1 r)
      (λ i. (u.slots_kept i, u.capacity_kept i)) p

pop_free-Reserved :
    (q : TaskQueue) (free ready : List (List ℕ)) (home : ℕ)
    → IsQueue q free ready []
    → Reserved q.slots q.capacity (reserve_popped (pop_free q home))
unfolding pop_free
pop_free-Reserved q free ready home h =
    reserve_popped-Reserved q.slots q.capacity (pop_free q home)
      (sweep_free-Popped q free ready home 0 8 h)

recover_or_pop-Reserved :
    (slots : List TaskSlot) (capacity home : ℕ) (r : Option ℕ × TaskQueue)
    → Reserved slots capacity r
    → Reserved slots capacity (recover_or_pop home r)
recover_or_pop-Reserved slots capacity home (some idx, q) p = p
recover_or_pop-Reserved slots capacity home (none, q) p =
    retry-Reserved slots capacity q (reserve_popped (pop_free q home)) p
      (pop_free-Reserved q p.free' p.ready' home p.valid)

reserve_cancelled_ready-Reserved :
    (q : TaskQueue) (free ready : List (List ℕ)) (home : ℕ)
    → IsQueue q free ready []
    → Reserved q.slots q.capacity (reserve_cancelled_ready q home)
unfolding reserve_cancelled_ready
reserve_cancelled_ready-Reserved q free ready home h =
    ring-Reserved q.slots q.capacity (recover_or_pop home (recover 0 shards q)) (
      recover_or_pop-Reserved q.slots q.capacity home (recover 0 shards q)
        (recover-Reserved 0 8 q free ready (omega arith) h))

or_recover-Reserved :
    (slots : List TaskSlot) (capacity home : ℕ) (r : Option ℕ × TaskQueue)
    → Reserved slots capacity r
    → Reserved slots capacity (or_recover home r)
or_recover-Reserved slots capacity home (some idx, q) p = p
or_recover-Reserved slots capacity home (none, q) p =
    retry-Reserved slots capacity q (reserve_cancelled_ready q home) p
      (reserve_cancelled_ready-Reserved q p.free' p.ready' home p.valid)

reserve_submit_slot-Reserved :
    (q : TaskQueue) (free ready : List (List ℕ)) (at : Shards)
    → IsQueue q free ready []
    → Reserved q.slots q.capacity (reserve_submit_slot q at)
unfolding reserve_submit_slot
reserve_submit_slot-Reserved q free ready at h =
    or_recover-Reserved q.slots q.capacity at.second (reserve_popped (pop_free q at.first))
      (pop_free-Reserved q free ready at.first h)

-- The task of a submit: in a slot that had no live task, queued under the next sequence number,
-- with the request, and every other slot as it was.
pub record Submitted (q : TaskQueue) (request : ChunkDesc) (h : TaskHandle) (q' : TaskQueue)
    : Type 0 where
  pub in_range : h.slot_idx < q'.capacity
  pub was_reusable : Reusable (slot_at q h.slot_idx).state
  pub seq_of : h.seq ≡ ((slot_at q h.slot_idx).seq + 1) % 2 ^ 64
  pub request_of : (slot_at q' h.slot_idx).request ≡ request
  pub state_of : (slot_at q' h.slot_idx).state ≡ queued
  pub polled : poll q' h ≡ ok is_queued
  pub others_kept : (i : ℕ) → h.slot_idx ≢ i → slot_at q' i ≡ slot_at q i

-- Arming a lease record is no part of the stacks and the slots.
arm_input-keeps :
    (q : TaskQueue) (input : Option LeaseBinding) (lease_idx : Option ℕ) (idx seq deadline : ℕ)
    (free ready : List (List ℕ)) (held : List ℕ)
    → IsQueue q free ready held
    → IsQueue (arm_input q input lease_idx idx seq deadline) free ready held
      × ((arm_input q input lease_idx idx seq deadline).slots ≡ q.slots)
      × ((arm_input q input lease_idx idx seq deadline).capacity ≡ q.capacity)
arm_input-keeps q none lease_idx idx seq deadline free ready held h = (h, refl, refl)
arm_input-keeps q (some b) none idx seq deadline free ready held h = (h, refl, refl)
arm_input-keeps q (some b) (some li) idx seq deadline free ready held h = (h, refl, refl)

pub ring_work-keeps :
    (q : TaskQueue)
    → HasStacks q
    → HasStacks (ring_work q)
      × ((ring_work q).slots ≡ q.slots)
      × ((ring_work q).capacity ≡ q.capacity)
ring_work-keeps q h = elim (Bool-cases (ltb 0 q.waiters_work)) [
  | inl b ↦ rw (b) (h, (λ i. q.slots), (λ i. q.capacity))
  | inr b ↦ rw (b) (h, (λ i. q.slots), (λ i. q.capacity))
]

-- A held slot that is published.
pub publish_queued-keeps :
    (q : TaskQueue) (s idx : ℕ) (free ready : List (List ℕ))
    → s < 8
    → IsQueue q free ready (idx ∷ [])
    → HasStacks (publish_queued q s idx)
      × ((publish_queued q s idx).slots ≡ in_state q.slots idx queued)
      × ((publish_queued q s idx).capacity ≡ q.capacity)
unfolding publish_queued push_ready
publish_queued-keeps q s idx free ready l h =
    let slot : TaskSlot = record (slot_at q idx) { state = queued } in
    (
      (
        free,
        set ready s (idx ∷ get_or ready s []),
        push_ready-IsQueue (with_state q idx queued) free ready [] s idx
            (put_slot-IsQueue q free ready [] idx slot h) l
            (inl (
              state_of-put q.slots idx slot
                (omega (arith, h.slots_sized, h.in_range idx (omega (arith, here_self idx)))))),
      ),
      refl,
      refl,
    )

module _ (q : TaskQueue) (q' : TaskQueue) (s : ℕ) (request : ChunkDesc) (deadline : ℕ)
    (input : Option LeaseBinding) (lease_idx : Option ℕ) (idx : ℕ) where
  pub publish_task-Submitted :
      InHand q.slots (in_state q.slots idx reserved) q.capacity idx q'
      → s < 8
      → HasStacks (publish_task q' s request deadline input lease_idx idx).1
        × Submitted q request
            (publish_task q' s request deadline input lease_idx idx).0
            (publish_task q' s request deadline input lease_idx idx).1
  publish_task-Submitted p l = (
    rung.0,
    record {
      in_range = omega (
        arith,
        rung.2,
        published.2,
        armed.2,
        p.valid.in_range idx (omega (arith, here_self idx)),
      );
      was_reusable = p.was_reusable;
      seq_of = ap (λ t. (t.seq + 1) % 2 ^ 64) was;
      request_of = ap (λ t. t.request) now;
      state_of = ap (λ t. t.state) now;
      polled =
          poll-slot final (record { slot_idx = idx; seq = ((slot_at q' idx).seq + 1) % 2 ^ 64 })
            task
            (omega (
              arith,
              rung.2,
              published.2,
              armed.2,
              p.valid.in_range idx (omega (arith, here_self idx)),
            ))
            now refl;
      others_kept = λ i n.
          ap (λ t. get_or t i new_slot) slots_now
          ∙ get_or-set_ne filled.slots idx i (record (slot_at filled idx) { state = queued })
              new_slot n
          ∙ get_or-set_ne q'.slots idx i (fresh_task (slot_at q' idx) request deadline) new_slot n
          ∙ ap (λ t. get_or t i new_slot) p.slots_are
          ∙ get_or-set_ne q.slots idx i (record (slot_at q idx) { state = reserved }) new_slot n;
    },
  )
    where
      filled : TaskQueue
      filled = put_slot q' idx (fresh_task (slot_at q' idx) request deadline)

      seq : ℕ
      seq = ((slot_at q' idx).seq + 1) % 2 ^ 64

      armed :
          IsQueue (arm_input filled input lease_idx idx seq deadline) p.free' p.ready' (idx ∷ [])
          × ((arm_input filled input lease_idx idx seq deadline).slots ≡ filled.slots)
          × ((arm_input filled input lease_idx idx seq deadline).capacity ≡ filled.capacity)
      armed = arm_input-keeps filled input lease_idx idx seq deadline p.free' p.ready' (idx ∷ []) (
          put_slot-IsQueue q' p.free' p.ready' [] idx (fresh_task (slot_at q' idx) request deadline)
            p.valid)

      published :
          HasStacks (publish_queued (arm_input filled input lease_idx idx seq deadline) s idx)
          × ((publish_queued (arm_input filled input lease_idx idx seq deadline) s idx).slots
              ≡ in_state (arm_input filled input lease_idx idx seq deadline).slots idx queued)
          × ((publish_queued (arm_input filled input lease_idx idx seq deadline) s idx).capacity
              ≡ (arm_input filled input lease_idx idx seq deadline).capacity)
      published =
          publish_queued-keeps (arm_input filled input lease_idx idx seq deadline) s idx p.free'
            p.ready' l armed.0

      final : TaskQueue
      final = ring_work (publish_queued (arm_input filled input lease_idx idx seq deadline) s idx)

      rung :
          HasStacks final
          × (final.slots
              ≡ (publish_queued (arm_input filled input lease_idx idx seq deadline) s idx).slots)
          × (final.capacity
              ≡ (publish_queued (arm_input filled input lease_idx idx seq deadline) s idx).capacity)
      rung =
          ring_work-keeps (publish_queued (arm_input filled input lease_idx idx seq deadline) s idx)
            published.0

      task : TaskSlot
      task = record (fresh_task (slot_at q' idx) request deadline) { state = queued }

      sized : idx < length q'.slots
      sized =
          omega (arith, p.valid.slots_sized, p.valid.in_range idx (omega (arith, here_self idx)))

      slots_now : final.slots ≡ in_state filled.slots idx queued
      slots_now = rung.1 ∙ published.1 ∙ ap (λ t. in_state t idx queued) armed.1

      now : slot_at final idx ≡ task
      now =
          ap (λ t. get_or t idx new_slot) slots_now
          ∙ get_or-set_self filled.slots idx (record (slot_at filled idx) { state = queued })
              new_slot
              (omega (
                arith,
                sized,
                length-set q'.slots idx (fresh_task (slot_at q' idx) request deadline),
              ))
          ∙ ap {A = TaskSlot} (λ t. record t { state = queued })
              (get_or-set_self q'.slots idx (fresh_task (slot_at q' idx) request deadline) new_slot
                sized)

      was : slot_at q' idx ≡ record (slot_at q idx) { state = reserved }
      was =
          ap (λ t. get_or t idx new_slot) p.slots_are
          ∙ get_or-set_self q.slots idx (record (slot_at q idx) { state = reserved }) new_slot
              (omega (
                arith,
                sized,
                ap length p.slots_are,
                length-set q.slots idx (record (slot_at q idx) { state = reserved }),
              ))

give_back-HasStacks :
    (q : TaskQueue) (lease_idx : Option ℕ)
    → HasStacks q
    → HasStacks (give_back q lease_idx) × ((give_back q lease_idx).slots ≡ q.slots)
unfolding push_lease
give_back-HasStacks q none h = (h, refl)
give_back-HasStacks q (some li) h = (h, refl)

abbrev pub SubmitAnswer : TaskQueue → ChunkDesc → TaskResult TaskHandle × TaskQueue → Type 0
SubmitAnswer q request (err e, q') = HasStacks q' × (q'.slots ≡ q.slots)
SubmitAnswer q request (ok h, q') = HasStacks q' × Submitted q request h q'

Reserved-answer :
    (q : TaskQueue) (s : ℕ) (request : ChunkDesc) (deadline : ℕ) (input : Option LeaseBinding)
    (lease_idx : Option ℕ) (r : Option ℕ × TaskQueue)
    → s < 8
    → Reserved q.slots q.capacity r
    → SubmitAnswer q request (submit_reserved s request deadline input lease_idx r)
Reserved-answer q s request deadline input lease_idx (none, q') l p =
    let g = give_back-HasStacks q' lease_idx (p.free', p.ready', p.valid) in
    (g.0, g.1 ∙ p.slots_kept)
Reserved-answer q s request deadline input lease_idx (some idx, q') l p =
    publish_task-Submitted q q' s request deadline input lease_idx idx p l

-- A submit that succeeds takes a slot without a live task, and queues the request there under the
-- slot's next sequence number: a poll answers that it is queued, and no other slot has changed. A
-- submit that fails changes no slot. Either way the queue stays well formed.
pub submit_inner-Submitted :
    (q : TaskQueue) (at : Shards) (request : ChunkDesc) (deadline : ℕ) (input : Option LeaseBinding)
    → HasStacks q
    → at.ready < 8
    → SubmitAnswer q request (submit_inner q at request deadline input)
unfolding submit_inner pop_lease
submit_inner-Submitted q at request deadline none h l =
    Reserved-answer q at.ready request deadline none none (reserve_submit_slot q at) l
      (reserve_submit_slot-Reserved q h.0 h.1 at h.2)
submit_inner-Submitted q at request deadline (some b) h l =
    elim (pop_lease q).0
      as (λ o. SubmitAnswer q request (
        submit_leased q at request deadline (some b)
          (elim o [ none ↦ err lease_table_full | some li ↦ ok (some li, (pop_lease q).1) ]))) [
            | none ↦ (h, refl)
            | some li ↦
                Reserved-answer q at.ready request deadline (some b) (some li)
                  (reserve_submit_slot (pop_lease q).1 at) l
                  (reserve_submit_slot-Reserved (pop_lease q).1 h.0 h.1 at h.2)
          ]
