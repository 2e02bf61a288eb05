-- ===== src/Task/Worker/Claim.antt =====
-- What a claim answers: a task that was queued, or nothing when none was.
use shm_actors.Prelude.{
  ℕ, zero, suc, ◌<◌, ◌≡◌, ◌≢◌, ◌⊎◌, inl, inr, refl, sym, ap, subst, ◌∙◌, Option, some, none, List,
  [], ◌∷◌, arith, length, get_or, set, get_or-set_self, get_or-set_ne, length-set,
}
use shm_actors.Task.Slot.{TaskSlot, new_slot, queued, claimed}
use shm_actors.Task.Queue.{TaskQueue, slot_at, put_slot}
use shm_actors.Task.Stacks.{occurs, count}
use shm_actors.Task.Invariant.{IsQueue, HasStacks, state_of}
use shm_actors.Task.Invariant.Moves.{claimed_write, let_go, state_of-put}
use shm_actors.Task.Worker.{ClaimedTask, Popped, sweep_ready, hand_out, leased_to, claim_inner}
use shm_actors.Task.Worker.Shard.{Won}
use shm_actors.Task.Worker.Sweep.{visit_each, NoneLeft, sweep_ready-WonOrNone}

-- The task that a worker was handed: it was queued, and is claimed by this worker.
pub record Claimed (q : TaskQueue) (worker_id : ℕ) (t : ClaimedTask) (q' : TaskQueue) : Type 0 where
  pub in_range : t.idx < q'.capacity
  pub was_queued : (slot_at q t.idx).state ≡ queued
  pub seq_of : t.seq ≡ (slot_at q t.idx).seq
  pub request_of : t.request ≡ (slot_at q t.idx).request
  pub now_claimed : (slot_at q' t.idx).state ≡ claimed
  pub owned : (slot_at q' t.idx).owner ≡ worker_id
  pub others_kept : (i : ℕ) → t.idx ≢ i → slot_at q' i ≡ slot_at q i

-- Without a ready slot there is no queued slot.
none_queued :
    (q : TaskQueue) (free ready : List (List ℕ)) (i : ℕ)
    → IsQueue q free ready []
    → ((s : ℕ) → s < 8 → get_or ready s [] ≡ [])
    → state_of q.slots i ≢ queued
none_queued q free ready i h e c =
    omega (arith, h.queued_found i c, empties ready 8 h.ready_shards e)
  where
    empties :
        (xss : List (List ℕ)) (n : ℕ)
        → length xss ≡ n
        → ((s : ℕ) → s < n → get_or xss s [] ≡ [])
        → occurs i xss ≡ 0
    empties [] n l e = refl
    empties (xs ∷ xss) zero l e = absurd (omega (arith, l))
    empties (xs ∷ xss) (suc n) l e = omega (
      arith,
      ap (count i) (e 0 (omega arith)),
      empties xss n (omega (arith, l)) (λ s m. e (suc s) (omega (arith, m))),
    )

abbrev pub Answered : TaskQueue → ℕ → Option ClaimedTask × TaskQueue → Type 0
Answered q worker_id r =
    HasStacks r.1
    × (((r.0 ≡ none) × ((i : ℕ) → (slot_at q i).state ≢ queued))
        ⊎ ((t : ClaimedTask) × (r.0 ≡ some t) × Claimed q worker_id t r.1))

leased_to_state :
    (s : TaskSlot) (w : ℕ) (d : Option ℕ)
    → ((leased_to s w d).state ≡ s.state) × ((leased_to s w d).owner ≡ w)
leased_to_state s w none = (refl, refl)
leased_to_state s w (some d) = (refl, refl)

module _ (q : TaskQueue) (worker_id : ℕ) (deadline : Option ℕ) where
  -- The queue after the election.
  Won-Answered :
      (r : Popped × TaskQueue)
      → Won q r
      → HasStacks q
      → Answered q worker_id (hand_out worker_id deadline r)
  Won-Answered r w h =
      subst (λ t. Answered q worker_id (hand_out worker_id deadline t)) (λ i. (sym w.answer i, r.1))
        (
          (
            w.free',
            w.ready',
            let_go (put_slot r.1 w.idx slot) w.free' w.ready' [] w.idx
                (claimed_write r.1 w.free' w.ready' w.idx slot w.valid w.in_range is_claimed)
                (λ e. omega (
                  arith,
                  e,
                  written,
                  (leased_to_state (slot_at r.1 w.idx) worker_id deadline).0,
                  is_claimed,
                )),
          ),
          inr (
            record {
              idx = w.idx;
              seq = (slot_at r.1 w.idx).seq;
              worker_id = worker_id;
              request = (slot_at r.1 w.idx).request;
            },
            refl,
            record {
              in_range = w.in_range;
              was_queued = w.was_queued;
              seq_of = ap (λ t. t.seq) at_idx;
              request_of = ap (λ t. t.request) at_idx;
              now_claimed =
                  written ∙ (leased_to_state (slot_at r.1 w.idx) worker_id deadline).0 ∙ is_claimed;
              owned =
                  ap (λ t. t.owner) (get_or-set_self r.1.slots w.idx slot new_slot sized)
                  ∙ (leased_to_state (slot_at r.1 w.idx) worker_id deadline).1;
              others_kept = λ i n.
                  get_or-set_ne r.1.slots w.idx i slot new_slot n
                  ∙ ap (λ t. get_or t i new_slot) w.slots_after
                  ∙ get_or-set_ne q.slots w.idx i (record (slot_at q w.idx) { state = claimed })
                      new_slot n;
            },
          ),
        )
    where
      sized : w.idx < length r.1.slots
      sized = omega (arith, w.in_range, w.valid.slots_sized)

      slot : TaskSlot
      slot = leased_to (slot_at r.1 w.idx) worker_id deadline

      at_idx : slot_at r.1 w.idx ≡ record (slot_at q w.idx) { state = claimed }
      at_idx =
          ap (λ t. get_or t w.idx new_slot) w.slots_after
          ∙ get_or-set_self q.slots w.idx (record (slot_at q w.idx) { state = claimed }) new_slot
              (omega (
                arith,
                sized,
                ap length w.slots_after,
                length-set q.slots w.idx (record (slot_at q w.idx) { state = claimed }),
              ))

      is_claimed : state_of r.1.slots w.idx ≡ claimed
      is_claimed = ap (λ t. t.state) at_idx

      written : state_of (set r.1.slots w.idx slot) w.idx ≡ slot.state
      written = state_of-put r.1.slots w.idx slot sized

  none-Answered :
      (ready : List (List ℕ)) (r : Popped × TaskQueue)
      → NoneLeft worker_id 0 8 q ready r
      → Answered q worker_id (hand_out worker_id deadline r)
  none-Answered ready r m =
      subst (λ t. Answered q worker_id (hand_out worker_id deadline t)) (λ i. (sym m.answer i, r.1))
        (
          (m.free', m.ready', m.valid),
          inl (
            refl,
            λ i e.
                none_queued r.1 m.free' m.ready' i m.valid all_clear
                  (ap (λ t. state_of t i) m.slots_kept ∙ e),
          ),
        )
    where
      all_clear : (s : ℕ) → s < 8 → get_or m.ready' s [] ≡ []
      all_clear s l =
          let v = visit_each worker_id s l in
          ap (λ t. get_or m.ready' t []) (sym v.2)
          ∙ m.cleared v.0 (omega arith) (omega (arith, v.1))

-- A claim hands out a task that was queued, with its sequence number and request, and marks it
-- claimed by the worker, changing no other slot; or it hands out nothing, and then no task was
-- queued. Either way the queue stays well formed.
pub claim_inner-Claimed :
    (q : TaskQueue) (worker_id : ℕ) (deadline : Option ℕ)
    → HasStacks q
    → HasStacks (claim_inner q worker_id deadline).1
      × ((((claim_inner q worker_id deadline).0 ≡ none) × ((i : ℕ) → (slot_at q i).state ≢ queued))
          ⊎ ((t : ClaimedTask) × ((claim_inner q worker_id deadline).0 ≡ some t)
              × Claimed q worker_id t (claim_inner q worker_id deadline).1))
unfolding claim_inner
claim_inner-Claimed q worker_id deadline h =
    elim (sweep_ready-WonOrNone worker_id 0 8 q h.0 h.1 h.2) [
      | inl w ↦ Won-Answered q worker_id deadline (sweep_ready worker_id 0 8 q) w h
      | inr m ↦ none-Answered q worker_id deadline h.1 (sweep_ready worker_id 0 8 q) m
    ]
