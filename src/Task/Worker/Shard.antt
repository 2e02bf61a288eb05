-- ===== src/Task/Worker/Shard.antt =====
-- One shard's claim loop: it ends with a task that was queued, or with the shard empty.
use shm_actors.Task.Stacks.{count}
use shm_actors.Prelude.{
  List-cases, ℕ, zero, suc, ◌<◌, ◌≡◌, ◌≢◌, ◌⊎◌, inl, inr, refl, sym, ap, subst, ◌∙◌, some, List, [],
  ◌∷◌, arith, length, get_or, set, get_or-set_ne, get_or-set_self, ne→==_false, ℕ_discrete, ==_iff,
}
use shm_actors.Core.Pool.FreeList.{top}
use shm_actors.Task.Slot.{TaskSlot, new_slot, queued, claimed, try_claim}
use shm_actors.Task.Queue.{TaskQueue, slot_at, put_slot, push_free}
use shm_actors.Task.Submit.{pop_ready, less_riding}
use shm_actors.Task.Worker.{Popped, is_empty, took, claim_node, claim_pop}
use shm_actors.Task.Invariant.{IsQueue, Live, Reusable, state_of}
use shm_actors.Task.Invariant.Moves.{
  here_self, count_le-occurs, pop_ready-IsQueue, pop_none-IsQueue, pop_ready-top, push_free-IsQueue,
  put_slot-IsQueue, let_go,
}

-- The shard was found empty, and no slot changed.
pub record Emptied (q : TaskQueue) (s : ℕ) (ready : List (List ℕ)) (r : Popped × TaskQueue)
    : Type 0 where
  pub free' : List (List ℕ)
  pub ready' : List (List ℕ)
  pub answer : r.0 ≡ is_empty
  pub valid : IsQueue r.1 free' ready' []
  pub slots_kept : r.1.slots ≡ q.slots
  pub capacity_kept : r.1.capacity ≡ q.capacity
  pub cleared : get_or ready' s [] ≡ []
  pub others_kept : (j : ℕ) → s ≢ j → get_or ready' j [] ≡ get_or ready j []

-- A queued slot was claimed, and no other changed.
pub record Won (q : TaskQueue) (r : Popped × TaskQueue) : Type 0 where
  pub free' : List (List ℕ)
  pub ready' : List (List ℕ)
  pub idx : ℕ
  pub answer : r.0 ≡ took idx
  pub valid : IsQueue r.1 free' ready' []
  pub in_range : idx < r.1.capacity
  pub was_queued : state_of q.slots idx ≡ queued
  pub slots_after : r.1.slots ≡ set q.slots idx (record (slot_at q idx) { state = claimed })

claim_node-queued :
    (s x : ℕ) (q : TaskQueue) (more : TaskQueue → Popped × TaskQueue)
    → state_of q.slots x ≡ queued
    → claim_node s (some x, q) more
      ≡ (took x, put_slot q x (record (slot_at q x) { state = claimed }))
unfolding try_claim
claim_node-queued s x q more h = rw ((==_iff (state_of q.slots x) queued).1 h) refl

claim_node_cancelled :
    (s x : ℕ) (q : TaskQueue) (more : TaskQueue → Popped × TaskQueue)
    → state_of q.slots x ≢ queued
    → claim_node s (some x, q) more ≡ more (less_riding (push_free q s x))
unfolding try_claim
claim_node_cancelled s x q more h = rw (ne→==_false (state_of q.slots x) queued h) refl

-- What the loop does from here.
abbrev pub ClaimedOrEmpty : TaskQueue → ℕ → List (List ℕ) → Popped × TaskQueue → Type 0
ClaimedOrEmpty q s ready r = Won q r ⊎ Emptied q s ready r

reusable : (st : ℕ) → Live st → st ≢ queued → Reusable st
reusable st v n = ground arith

module _ (s : ℕ) (l : s < 8) where
  -- The first pop found the shard empty.
  claim_none :
      (fuel : ℕ) (q : TaskQueue) (free ready : List (List ℕ))
      → IsQueue q free ready []
      → get_or ready s [] ≡ []
      → Emptied q s ready (claim_pop s (suc fuel) q)
  unfolding claim_pop
  claim_none fuel q free ready h e =
      subst (Emptied q s ready)
        (ap (λ o. claim_node s (o, (pop_ready q s).1) (claim_pop s fuel))
          (sym (pop_ready-top q free ready [] s h l ∙ ap top e)))
        (record {
          free' = free;
          ready' = set ready s [];
          answer = refl;
          valid = pop_none-IsQueue q free ready [] s h l e;
          slots_kept = refl;
          capacity_kept = refl;
          cleared = get_or-set_self ready s [] [] (omega (arith, h.ready_shards));
          others_kept = λ j n. get_or-set_ne ready s j [] [] n;
        })

  -- The first pop found a node.
  claim_step :
      (fuel : ℕ) (q : TaskQueue) (free ready : List (List ℕ)) (x : ℕ) (xs : List ℕ)
      → IsQueue q free ready []
      → get_or ready s [] ≡ x ∷ xs
      → claim_pop s (suc fuel) q ≡ claim_node s (some x, (pop_ready q s).1) (claim_pop s fuel)
  unfolding claim_pop
  claim_step fuel q free ready x xs h e =
      ap (λ o. claim_node s (o, (pop_ready q s).1) (claim_pop s fuel))
        (pop_ready-top q free ready [] s h l ∙ ap top e)

  claim_queued :
      (fuel : ℕ) (q : TaskQueue) (free ready : List (List ℕ)) (x : ℕ) (xs : List ℕ)
      → IsQueue q free ready []
      → get_or ready s [] ≡ x ∷ xs
      → state_of q.slots x ≡ queued
      → Won q (claim_pop s (suc fuel) q)
  claim_queued fuel q free ready x xs h e st =
      let popped = pop_ready-IsQueue q free ready [] s x xs h l e in
      let q1 = (pop_ready q s).1 in
      let slot : TaskSlot = record (slot_at q x) { state = claimed } in
      let x_in : x < q.capacity = popped.in_range x (omega (arith, here_self x)) in
      let now_claimed : state_of (set q.slots x slot) x ≡ claimed =
        ap (λ t. t.state)
          (get_or-set_self q.slots x slot new_slot (omega (arith, x_in, h.slots_sized))) in
      subst (Won q)
        (sym
          (claim_step fuel q free ready x xs h e ∙ claim_node-queued s x q1 (claim_pop s fuel) st))
        (record {
          free' = free;
          ready' = set ready s xs;
          idx = x;
          answer = refl;
          valid =
              let_go (put_slot q1 x slot) free (set ready s xs) [] x
                (put_slot-IsQueue q1 free (set ready s xs) [] x slot popped)
                (λ c. omega (arith, c, now_claimed));
          in_range = x_in;
          was_queued = st;
          slots_after = refl;
        })

  -- A node that is not queued goes to the free stack.
  passed_on :
      (q : TaskQueue) (free ready : List (List ℕ)) (x : ℕ) (xs : List ℕ)
      → IsQueue q free ready []
      → get_or ready s [] ≡ x ∷ xs
      → state_of q.slots x ≢ queued
      → IsQueue
          (less_riding (push_free (pop_ready q s).1 s x))
          (set free s (x ∷ get_or free s []))
          (set ready s xs)
          []
  passed_on q free ready x xs h e n =
      push_free-IsQueue (pop_ready q s).1 free (set ready s xs) [] s x
        (pop_ready-IsQueue q free ready [] s x xs h l e) l
        (reusable (state_of q.slots x)
          (h.ready_live x (
            omega (
              arith,
              ap (count x) e,
              here_self x,
              count_le-occurs ready s x (omega (arith, h.ready_shards)),
            )))
          n)

  module _ (q q2 : TaskQueue) (same : q2.slots ≡ q.slots) (cap : q2.capacity ≡ q.capacity) where
    pub Won-before : (r : Popped × TaskQueue) → Won q2 r → Won q r
    Won-before r w = record {
      free' = w.free';
      ready' = w.ready';
      idx = w.idx;
      answer = w.answer;
      valid = w.valid;
      in_range = w.in_range;
      was_queued = ap (λ t. state_of t w.idx) (sym same) ∙ w.was_queued;
      slots_after =
          w.slots_after
          ∙ ap (λ t. set t w.idx (record (get_or t w.idx new_slot) { state = claimed })) same;
    }

    Emptied-before :
        (ready ready2 : List (List ℕ)) (r : Popped × TaskQueue)
        → ((j : ℕ) → s ≢ j → get_or ready2 j [] ≡ get_or ready j [])
        → Emptied q2 s ready2 r
        → Emptied q s ready r
    Emptied-before ready ready2 r others e = record {
      free' = e.free';
      ready' = e.ready';
      answer = e.answer;
      valid = e.valid;
      slots_kept = e.slots_kept ∙ same;
      capacity_kept = e.capacity_kept ∙ cap;
      cleared = e.cleared;
      others_kept = λ j n. e.others_kept j n ∙ others j n;
    }

  -- With a round for each node, and one more, the loop ends.
  pub claim_pop-ClaimedOrEmpty :
      (fuel : ℕ) (q : TaskQueue) (free ready : List (List ℕ))
      → IsQueue q free ready []
      → length (get_or ready s []) < fuel
      → ClaimedOrEmpty q s ready (claim_pop s fuel q)
  unfolding push_free
  claim_pop-ClaimedOrEmpty zero q free ready h f = absurd (omega arith)
  claim_pop-ClaimedOrEmpty (suc fuel) q free ready h f = elim (List-cases (get_or ready s [])) [
    | inl e ↦ inr (claim_none fuel q free ready h e)
    | inr e ↦ elim (ℕ_discrete (state_of q.slots e.0) queued) [
      | yes st ↦ inl (claim_queued fuel q free ready e.0 e.1 h e.2 st)
      | no st ↦
          let q2 = less_riding (push_free (pop_ready q s).1 s e.0) in
          let ready2 = set ready s e.1 in
          let tail_is : get_or ready2 s [] ≡ e.1 =
            get_or-set_self ready s e.1 [] (omega (arith, h.ready_shards)) in
          let more =
            claim_pop-ClaimedOrEmpty fuel q2 (set free s (e.0 ∷ get_or free s [])) ready2
              (passed_on q free ready e.0 e.1 h e.2 st)
              (omega (arith, ap length tail_is, ap length e.2, f)) in
          subst (ClaimedOrEmpty q s ready)
            (sym (
              claim_step fuel q free ready e.0 e.1 h e.2
              ∙ claim_node_cancelled s e.0 (pop_ready q s).1 (claim_pop s fuel) st))
            (elim more [
              | inl w ↦ inl (Won-before q q2 refl refl (claim_pop s fuel q2) w)
              | inr m ↦ inr (
                  Emptied-before q q2 refl refl ready ready2 (claim_pop s fuel q2)
                    (λ j n. get_or-set_ne ready s j e.1 [] n) m)
            ])
    ]
  ]
