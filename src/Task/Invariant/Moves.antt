-- ===== src/Task/Invariant/Moves.antt =====
-- The moves of a slot between the stacks and the party that holds it.
use shm_actors.Prelude.{
  ℕ, ◌+◌, ◌≤◌, ◌<◌, ◌≡◌, ◌≢◌, ◌⊎◌, inl, inr, sym, ap, subst, ◌∙◌, List, [], ◌∷◌, arith, length,
  get_or, set, length-set, get_or-set_ne, ◌==◌, if◌then◌else◌,
}
use shm_actors.Prelude.{dec_lt, get_or-set_self, ℕ_discrete}
use shm_actors.Task.Slot.{TaskSlot, new_slot, queued, claimed}
use shm_actors.Core.Pool.{treiber_push}
use shm_actors.Task.Queue.{TaskQueue, put_slot, push_free, push_ready, pop_from}
use shm_actors.Core.Pool.{slot_of}
use shm_actors.Core.Pool.FreeList.{top}
use shm_actors.Core.Pool.Count.{Chain-Distinct, length-Distinct}
use shm_actors.Task.Stacks.{
  pop_from-top, Chains-elem, Chains, Chains-set, count, occurs, occurs-set, tail, pop_from-Chains,
  push_links-Chains,
}
use shm_actors.Task.Invariant.{IsQueue, Reusable, Live, state_of}
use shm_actors.Task.Submit.{pop_ready}

-- One at the index itself.
abbrev here : ℕ → ℕ → ℕ
here x i = if x == i then 1 else 0

pub here_self : (x : ℕ) → here x x ≡ 1
here_self x = ground arith

-- A slot under test, or another.
here_cases : (x i : ℕ) → ((x ≡ i) × (here x i ≡ 1)) ⊎ ((x ≢ i) × (here x i ≡ 0))
here_cases x i = ground arith

-- A stack that lost its top.
occurs-popped :
    (xss : List (List ℕ)) (s x : ℕ) (xs : List ℕ)
    → get_or xss s [] ≡ x ∷ xs
    → s < length xss
    → (i : ℕ) → occurs i (set xss s xs) + here x i ≡ occurs i xss
occurs-popped xss s x xs e h i = omega (arith, occurs-set i xss s xs h, ap (count i) e)

-- A stack that gained a top.
occurs-pushed :
    (xss : List (List ℕ)) (s x : ℕ)
    → s < length xss
    → (i : ℕ) → occurs i (set xss s (x ∷ get_or xss s [])) ≡ occurs i xss + here x i
occurs-pushed xss s x h i = omega (arith, occurs-set i xss s (x ∷ get_or xss s []) h)

pub count_le-occurs :
    (xss : List (List ℕ)) (s i : ℕ) → s < length xss → count i (get_or xss s []) ≤ occurs i xss
count_le-occurs xss s i h = omega (arith, occurs-set i xss s [] h)

not-queued : (s : ℕ) → Reusable s → s ≢ queued
not-queued s r e = omega (arith, r, e)

not-Reusable : (s : ℕ) → Reusable s → s ≢ claimed
not-Reusable s r e = omega (arith, r, e)

not-Live : (s : ℕ) → Live s → s ≢ claimed
not-Live s r e = omega (arith, r, e)

module _ (q : TaskQueue) (free ready : List (List ℕ)) (held : List ℕ) where
  pub pop_ready-IsQueue :
      (s x : ℕ) (xs : List ℕ)
      → IsQueue q free ready held
      → s < 8
      → get_or ready s [] ≡ x ∷ xs
      → IsQueue (pop_ready q s).1 free (set ready s xs) (x ∷ held)
  pop_ready-IsQueue s x xs h l e =
      let moved = occurs-popped ready s x xs e (omega (arith, h.ready_shards)) in
      record {
        slots_sized = h.slots_sized;
        links_sized = h.links_sized;
        addressable = h.addressable;
        free_shards = h.free_shards;
        ready_shards = length-set ready s xs ∙ h.ready_shards;
        free_chains = h.free_chains;
        ready_chains =
            subst (λ ys. Chains q.links (pop_ready q s).1.ready_heads (set ready s (tail ys))) e
              (pop_from-Chains q.links q.ready_heads ready s
                (omega (arith, h.links_sized, h.addressable)) h.ready_chains
                (omega (arith, h.ready_shards)));
        once = λ i. omega (arith, h.once i, moved i);
        in_range = λ i m. h.in_range i (omega (arith, m, moved i));
        free_reusable = h.free_reusable;
        ready_live = λ i m. h.ready_live i (omega (arith, m, moved i));
        queued_found = λ i m. omega (arith, h.queued_found i m, moved i);
      }

  pub pop_free-IsQueue :
      (s x : ℕ) (xs : List ℕ)
      → IsQueue q free ready held
      → s < 8
      → get_or free s [] ≡ x ∷ xs
      → IsQueue
          (record q { free_heads = set q.free_heads s (pop_from q.free_heads q.links s).1 })
          (set free s xs)
          ready
          (x ∷ held)
  pop_free-IsQueue s x xs h l e =
      let moved = occurs-popped free s x xs e (omega (arith, h.free_shards)) in
      record {
        slots_sized = h.slots_sized;
        links_sized = h.links_sized;
        addressable = h.addressable;
        free_shards = length-set free s xs ∙ h.free_shards;
        ready_shards = h.ready_shards;
        free_chains =
            subst
              (λ ys.
                Chains q.links (set q.free_heads s (pop_from q.free_heads q.links s).1)
                  (set free s (tail ys)))
              e
              (pop_from-Chains q.links q.free_heads free s
                (omega (arith, h.links_sized, h.addressable)) h.free_chains
                (omega (arith, h.free_shards)));
        ready_chains = h.ready_chains;
        once = λ i. omega (arith, h.once i, moved i);
        in_range = λ i m. h.in_range i (omega (arith, m, moved i));
        free_reusable = λ i m. h.free_reusable i (omega (arith, m, moved i));
        ready_live = h.ready_live;
        queued_found = λ i m. omega (arith, h.queued_found i m);
      }

  pub push_free-IsQueue :
      (s x : ℕ)
      → IsQueue q free ready (x ∷ held)
      → s < 8
      → Reusable (state_of q.slots x)
      → IsQueue (push_free q s x) (set free s (x ∷ get_or free s [])) ready held
  unfolding push_free treiber_push
  push_free-IsQueue s x h l r =
      let moved = occurs-pushed free s x (omega (arith, h.free_shards)) in
      let alone : occurs x free + occurs x ready ≡ 0 = omega (arith, h.once x, here_self x) in
      record {
        slots_sized = h.slots_sized;
        links_sized = length-set q.links x _ ∙ h.links_sized;
        addressable = h.addressable;
        free_shards = length-set free s (x ∷ get_or free s []) ∙ h.free_shards;
        ready_shards = h.ready_shards;
        free_chains =
            push_links-Chains q.links q.free_heads free s x
              (omega (arith, h.links_sized, h.addressable)) h.free_chains
              (omega (arith, h.free_shards))
              (omega (arith, h.links_sized, h.in_range x (omega (arith, here_self x))))
              (omega (arith, alone))
              (omega (arith, alone, count_le-occurs free s x (omega (arith, h.free_shards))));
        ready_chains =
            Chains-set q.links q.ready_heads ready x _ (omega (arith, alone)) h.ready_chains;
        once = λ i. omega (arith, h.once i, moved i);
        in_range = λ i m. h.in_range i (omega (arith, m, moved i));
        free_reusable = λ i m. elim (here_cases x i) [
          | inl c ↦ subst (λ t. Reusable (state_of q.slots t)) c.0 r
          | inr c ↦ h.free_reusable i (omega (arith, m, moved i, c.1))
        ];
        ready_live = h.ready_live;
        queued_found = λ i m. elim (here_cases x i) [
          | inl c ↦ absurd (not-queued (state_of q.slots x) r (ap (state_of q.slots) c.0 ∙ m))
          | inr c ↦ omega (arith, h.queued_found i m, c.1)
        ];
      }

  pub push_ready-IsQueue :
      (s x : ℕ)
      → IsQueue q free ready (x ∷ held)
      → s < 8
      → Live (state_of q.slots x)
      → IsQueue (push_ready q s x) free (set ready s (x ∷ get_or ready s [])) held
  unfolding push_ready treiber_push
  push_ready-IsQueue s x h l r =
      let moved = occurs-pushed ready s x (omega (arith, h.ready_shards)) in
      let alone : occurs x free + occurs x ready ≡ 0 = omega (arith, h.once x, here_self x) in
      record {
        slots_sized = h.slots_sized;
        links_sized = length-set q.links x _ ∙ h.links_sized;
        addressable = h.addressable;
        free_shards = h.free_shards;
        ready_shards = length-set ready s (x ∷ get_or ready s []) ∙ h.ready_shards;
        free_chains = Chains-set q.links q.free_heads free x _ (omega (arith, alone)) h.free_chains;
        ready_chains =
            push_links-Chains q.links q.ready_heads ready s x
              (omega (arith, h.links_sized, h.addressable)) h.ready_chains
              (omega (arith, h.ready_shards))
              (omega (arith, h.links_sized, h.in_range x (omega (arith, here_self x))))
              (omega (arith, alone))
              (omega (arith, alone, count_le-occurs ready s x (omega (arith, h.ready_shards))));
        once = λ i. omega (arith, h.once i, moved i);
        in_range = λ i m. h.in_range i (omega (arith, m, moved i));
        free_reusable = h.free_reusable;
        ready_live = λ i m. elim (here_cases x i) [
          | inl c ↦ subst (λ t. Live (state_of q.slots t)) c.0 r
          | inr c ↦ h.ready_live i (omega (arith, m, moved i, c.1))
        ];
        queued_found = λ i m. omega (arith, h.queued_found i m, moved i);
      }

  -- The holder writes the slot.
  pub put_slot-IsQueue :
      (x : ℕ) (slot : TaskSlot)
      → IsQueue q free ready (x ∷ held)
      → IsQueue (put_slot q x slot) free ready (x ∷ held)
  put_slot-IsQueue x slot h =
      let alone : occurs x free + occurs x ready ≡ 0 = omega (arith, h.once x, here_self x) in
      let kept : (i : ℕ) → x ≢ i → state_of (set q.slots x slot) i ≡ state_of q.slots i =
        λ i n. ap (λ t. t.state) (get_or-set_ne q.slots x i slot new_slot n) in
      record {
        slots_sized = length-set q.slots x slot ∙ h.slots_sized;
        links_sized = h.links_sized;
        addressable = h.addressable;
        free_shards = h.free_shards;
        ready_shards = h.ready_shards;
        free_chains = h.free_chains;
        ready_chains = h.ready_chains;
        once = h.once;
        in_range = h.in_range;
        free_reusable = λ i m. elim (here_cases x i) [
          | inl c ↦ absurd (omega (arith, m, ap (λ t. occurs t free) c.0, alone))
          | inr c ↦ subst Reusable (sym (kept i c.0)) (h.free_reusable i m)
        ];
        ready_live = λ i m. elim (here_cases x i) [
          | inl c ↦ absurd (omega (arith, m, ap (λ t. occurs t ready) c.0, alone))
          | inr c ↦ subst Live (sym (kept i c.0)) (h.ready_live i m)
        ];
        queued_found = λ i m. elim (here_cases x i) [
          | inl c ↦ omega (arith, c.1)
          | inr c ↦ omega (arith, h.queued_found i (sym (kept i c.0) ∙ m))
        ];
      }

  -- A slot is written where it is.
  pub put_slot-in_place :
      (x : ℕ) (slot : TaskSlot)
      → IsQueue q free ready held
      → x < length q.slots
      → (0 < occurs x free → Reusable slot.state)
      → (0 < occurs x ready → Live slot.state)
      → (slot.state ≡ queued → state_of q.slots x ≡ queued)
      → IsQueue (put_slot q x slot) free ready held
  put_slot-in_place x slot h sized r l m =
      let kept : (i : ℕ) → x ≢ i → state_of (set q.slots x slot) i ≡ state_of q.slots i =
        λ i n. ap (λ t. t.state) (get_or-set_ne q.slots x i slot new_slot n) in
      let written : state_of (set q.slots x slot) x ≡ slot.state =
        ap (λ t. t.state) (get_or-set_self q.slots x slot new_slot sized) in
      record {
        slots_sized = length-set q.slots x slot ∙ h.slots_sized;
        links_sized = h.links_sized;
        addressable = h.addressable;
        free_shards = h.free_shards;
        ready_shards = h.ready_shards;
        free_chains = h.free_chains;
        ready_chains = h.ready_chains;
        once = h.once;
        in_range = h.in_range;
        free_reusable = λ i on. elim (ℕ_discrete x i) [
          | yes same ↦
              subst (λ j. 0 < occurs j free → Reusable (state_of (set q.slots x slot) j)) same
                (λ o. subst Reusable (sym written) (r o)) on
          | no n ↦ subst Reusable (sym (kept i n)) (h.free_reusable i on)
        ];
        ready_live = λ i on. elim (ℕ_discrete x i) [
          | yes same ↦
              subst (λ j. 0 < occurs j ready → Live (state_of (set q.slots x slot) j)) same
                (λ o. subst Live (sym written) (l o)) on
          | no n ↦ subst Live (sym (kept i n)) (h.ready_live i on)
        ];
        queued_found = λ i c. elim (ℕ_discrete x i) [
          | yes same ↦
              subst
                (λ j. state_of (set q.slots x slot) j ≡ queued → 0 < occurs j ready + count j held)
                same (λ o. h.queued_found x (m (sym written ∙ o))) c
          | no n ↦ h.queued_found i (sym (kept i n) ∙ c)
        ];
      }

  -- The holder lets go of a slot that is not queued, such as a claimed one.
  pub let_go :
      (x : ℕ)
      → IsQueue q free ready (x ∷ held)
      → state_of q.slots x ≢ queued
      → IsQueue q free ready held
  let_go x h n = record {
    slots_sized = h.slots_sized;
    links_sized = h.links_sized;
    addressable = h.addressable;
    free_shards = h.free_shards;
    ready_shards = h.ready_shards;
    free_chains = h.free_chains;
    ready_chains = h.ready_chains;
    once = λ i. omega (arith, h.once i);
    in_range = λ i m. h.in_range i (omega (arith, m));
    free_reusable = h.free_reusable;
    ready_live = h.ready_live;
    queued_found = λ i m. elim (here_cases x i) [
      | inl c ↦ absurd (n (ap (state_of q.slots) c.0 ∙ m))
      | inr c ↦ omega (arith, h.queued_found i m, c.1)
    ];
  }

  -- A slot on no stack is taken in hand.
  pub take_up :
      (x : ℕ)
      → IsQueue q free ready held
      → x < q.capacity
      → occurs x free + occurs x ready + count x held ≡ 0
      → IsQueue q free ready (x ∷ held)
  take_up x h l z = record {
    slots_sized = h.slots_sized;
    links_sized = h.links_sized;
    addressable = h.addressable;
    free_shards = h.free_shards;
    ready_shards = h.ready_shards;
    free_chains = h.free_chains;
    ready_chains = h.ready_chains;
    once = λ i. elim (here_cases x i) [
      | inl c ↦ omega (arith, c.1, ap (λ t. occurs t free + occurs t ready + count t held) c.0, z)
      | inr c ↦ omega (arith, h.once i, c.1)
    ];
    in_range = λ i m. elim (here_cases x i) [
      | inl c ↦ omega (arith, c.0, l)
      | inr c ↦ h.in_range i (omega (arith, m, c.1))
    ];
    free_reusable = h.free_reusable;
    ready_live = h.ready_live;
    queued_found = λ i m. omega (arith, h.queued_found i m);
  }

  -- A pop of an empty ready shard.
  pub pop_none-IsQueue :
      (s : ℕ)
      → IsQueue q free ready held
      → s < 8
      → get_or ready s [] ≡ []
      → IsQueue (pop_ready q s).1 free (set ready s []) held
  pop_none-IsQueue s h l e =
      let same : (i : ℕ) → occurs i (set ready s []) ≡ occurs i ready = λ i.
        omega (arith, occurs-set i ready s [] (omega (arith, h.ready_shards)), ap (count i) e) in
      record {
        slots_sized = h.slots_sized;
        links_sized = h.links_sized;
        addressable = h.addressable;
        free_shards = h.free_shards;
        ready_shards = length-set ready s [] ∙ h.ready_shards;
        free_chains = h.free_chains;
        ready_chains =
            subst (λ ys. Chains q.links (pop_ready q s).1.ready_heads (set ready s (tail ys))) e
              (pop_from-Chains q.links q.ready_heads ready s
                (omega (arith, h.links_sized, h.addressable)) h.ready_chains
                (omega (arith, h.ready_shards)));
        once = λ i. omega (arith, h.once i, same i);
        in_range = λ i m. h.in_range i (omega (arith, m, same i));
        free_reusable = h.free_reusable;
        ready_live = λ i m. h.ready_live i (omega (arith, m, same i));
        queued_found = λ i m. omega (arith, h.queued_found i m, same i);
      }

  pub pop_ready-top :
      (s : ℕ) → IsQueue q free ready held → s < 8 → (pop_ready q s).0 ≡ top (get_or ready s [])
  pop_ready-top s h l =
      pop_from-top q.links q.ready_heads ready s (omega (arith, h.links_sized, h.addressable))
        h.ready_chains (omega (arith, h.ready_shards))

  pub pop_free-top :
      (s : ℕ)
      → IsQueue q free ready held
      → s < 8
      → (pop_from q.free_heads q.links s).0 ≡ top (get_or free s [])
  pop_free-top s h l =
      pop_from-top q.links q.free_heads free s (omega (arith, h.links_sized, h.addressable))
        h.free_chains (omega (arith, h.free_shards))

  -- A shard has no more nodes than the queue has slots.
  pub length-shard :
      (s : ℕ) → IsQueue q free ready held → s < 8 → length (get_or ready s []) ≤ q.capacity
  length-shard s h l =
      let shape = Chain-Distinct q.links (slot_of (get_or q.ready_heads s 0)) (get_or ready s []) (
        Chains-elem q.links q.ready_heads ready s h.ready_chains (omega (arith, h.ready_shards))) in
      omega
        (arith, length-Distinct (length q.links) (get_or ready s []) shape.0 shape.1, h.links_sized)

  -- A claimed slot is on no stack.
  pub claimed_alone :
      (x : ℕ)
      → IsQueue q free ready []
      → state_of q.slots x ≡ claimed
      → occurs x free + occurs x ready + 0 ≡ 0
  claimed_alone x h c = elim (dec_lt 0 (occurs x free)) [
    | yes on ↦ absurd (not-Reusable (state_of q.slots x) (h.free_reusable x on) c)
    | no off ↦ elim (dec_lt 0 (occurs x ready)) [
      | yes on ↦ absurd (not-Live (state_of q.slots x) (h.ready_live x on) c)
      | no clear ↦ omega arith
    ]
  ]

module _ (q : TaskQueue) (free ready : List (List ℕ)) where
  -- A claimed slot is taken in hand and written.
  pub claimed_write :
      (x : ℕ) (slot : TaskSlot)
      → IsQueue q free ready []
      → x < q.capacity
      → state_of q.slots x ≡ claimed
      → IsQueue (put_slot q x slot) free ready (x ∷ [])
  claimed_write x slot h l c =
      put_slot-IsQueue q free ready [] x slot
        (take_up q free ready [] x h l (claimed_alone q free ready [] x h c))

pub state_of-put :
    (slots : List TaskSlot) (x : ℕ) (slot : TaskSlot)
    → x < length slots
    → state_of (set slots x slot) x ≡ slot.state
state_of-put slots x slot h = ap (λ t. t.state) (get_or-set_self slots x slot new_slot h)
