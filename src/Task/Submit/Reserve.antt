-- ===== src/Task/Submit/Reserve.antt =====
-- A submitter's slot: popped off a free shard, or a cancelled one dug out of a ready shard.
use shm_actors.Prelude.{
  ℕ, zero, suc, ◌+◌, ◌%◌, ◌≤◌, ◌<◌, ◌≡◌, inl, inr, refl, sym, ap, subst, ◌∙◌, Bool, ◌||◌, Option,
  some, none, List, [], ◌∷◌, ◌++◌, arith, get_or, set, get_or-set_ne, ◌==◌, ==_iff, if◌then◌else◌,
  ltb, Bool-cases, List-cases,
}
use native.Mathlib.Nat.{mod-lt}
use shm_actors.Core.Pool.FreeList.{top}
use shm_actors.Task.Slot.{TaskSlot, new_slot, cancelled, reserved}
use shm_actors.Task.Queue.{
  TaskQueue, shards, slot_at, pop_from, popped_free, sweep_free, push_ready,
}
use shm_actors.Task.Stacks.{count}
use shm_actors.Task.Invariant.{IsQueue, Reusable, Live, state_of}
use shm_actors.Task.Invariant.Moves.{
  here_self, count_le-occurs, pop_ready-IsQueue, pop_none-IsQueue, pop_ready-top, pop_free-IsQueue,
  pop_free-top, push_ready-IsQueue, put_slot-IsQueue,
}
use shm_actors.Task.Submit.{
  found_or, pop_ready, with_state, less_riding, Dug, dig_step, dig, push_back, recover,
  reserve_popped,
}

abbrev pub in_state : List TaskSlot → ℕ → ℕ → List TaskSlot
in_state slots idx state = set slots idx (record (get_or slots idx new_slot) { state = state })

-- A slot in hand, which had no live task, with these slots in the queue; or none, with the slots
-- as they were.
pub record InHand (was slots : List TaskSlot) (capacity idx : ℕ) (q' : TaskQueue) : Type 0 where
  pub free' : List (List ℕ)
  pub ready' : List (List ℕ)
  pub valid : IsQueue q' free' ready' (idx ∷ [])
  pub was_reusable : Reusable (state_of was idx)
  pub slots_are : q'.slots ≡ slots
  pub capacity_kept : q'.capacity ≡ capacity

pub record Untouched (slots : List TaskSlot) (capacity : ℕ) (q' : TaskQueue) : Type 0 where
  pub free' : List (List ℕ)
  pub ready' : List (List ℕ)
  pub valid : IsQueue q' free' ready' []
  pub slots_kept : q'.slots ≡ slots
  pub capacity_kept : q'.capacity ≡ capacity

-- A reserved slot, or none.
abbrev pub Reserved : List TaskSlot → ℕ → Option ℕ × TaskQueue → Type 0
Reserved slots capacity (some idx, q') = InHand slots (in_state slots idx reserved) capacity idx q'
Reserved slots capacity (none, q') = Untouched slots capacity q'

-- The same before the slot's state is written.
abbrev pub Popped : List TaskSlot → ℕ → Option ℕ × TaskQueue → Type 0
Popped slots capacity (some idx, q') = InHand slots slots capacity idx q'
Popped slots capacity (none, q') = Untouched slots capacity q'

-- Which slots are held matters, and not their order.
recount :
    (q : TaskQueue) (free ready : List (List ℕ)) (held held' : List ℕ)
    → ((i : ℕ) → count i held ≡ count i held')
    → IsQueue q free ready held
    → IsQueue q free ready held'
recount q free ready held held' e h = record {
  slots_sized = h.slots_sized;
  links_sized = h.links_sized;
  addressable = h.addressable;
  free_shards = h.free_shards;
  ready_shards = h.ready_shards;
  free_chains = h.free_chains;
  ready_chains = h.ready_chains;
  once = λ i. omega (arith, h.once i, e i);
  in_range = λ i m. h.in_range i (omega (arith, m, e i));
  free_reusable = h.free_reusable;
  ready_live = h.ready_live;
  queued_found = λ i m. omega (arith, h.queued_found i m, e i);
}

pub sweep_free-Popped :
    (q : TaskQueue) (free ready : List (List ℕ)) (home k n : ℕ)
    → IsQueue q free ready []
    → Popped q.slots q.capacity (sweep_free q home k n)
sweep_free-Popped q free ready home k zero h = record {
  free' = free;
  ready' = ready;
  valid = h;
  slots_kept = refl;
  capacity_kept = refl;
}
sweep_free-Popped q free ready home k (suc n) h =
    let s = (home + k) % shards in
    let l : s < 8 = mod-lt (home + k) (omega arith) in
    let head = (pop_from q.free_heads q.links s).1 in
    let rest = sweep_free q home (suc k) n in
    let more = sweep_free-Popped q free ready home (suc k) n h in
    subst (λ o. Popped q.slots q.capacity (popped_free q s (o, head) rest))
      (sym (pop_free-top q free ready [] s h l))
      (elim (List-cases (get_or free s [])) [
        | inl e ↦
            subst (λ o. Popped q.slots q.capacity (popped_free q s (o, head) rest)) (sym (ap top e))
              more
        | inr e ↦
            subst (λ o. Popped q.slots q.capacity (popped_free q s (o, head) rest))
              (sym (ap top e.2))
              (record {
                free' = set free s e.1;
                ready' = ready;
                valid = pop_free-IsQueue q free ready [] s e.0 e.1 h l e.2;
                was_reusable = h.free_reusable e.0 (
                    omega (
                      arith,
                      ap (count e.0) e.2,
                      here_self e.0,
                      count_le-occurs free s e.0 (omega (arith, h.free_shards)),
                    ));
                slots_are = refl;
                capacity_kept = refl;
              })
      ])

pub reserve_popped-Reserved :
    (slots : List TaskSlot) (capacity : ℕ) (r : Option ℕ × TaskQueue)
    → Popped slots capacity r
    → Reserved slots capacity (reserve_popped r)
reserve_popped-Reserved slots capacity (none, q') p = p
reserve_popped-Reserved slots capacity (some idx, q') p = record {
  free' = p.free';
  ready' = p.ready';
  valid =
      put_slot-IsQueue q' p.free' p.ready' [] idx (record (slot_at q' idx) { state = reserved })
        p.valid;
  was_reusable = p.was_reusable;
  slots_are = ap (λ t. in_state t idx reserved) p.slots_are;
  capacity_kept = p.capacity_kept;
}

abbrev AllLive : List TaskSlot → List ℕ → Type 0
AllLive slots [] = Unit {0}
AllLive slots (x ∷ xs) = Live (state_of slots x) × AllLive slots xs

-- The slots stay live when another slot is written.
AllLive-set :
    (slots : List TaskSlot) (held : List ℕ) (x : ℕ) (slot : TaskSlot)
    → count x held ≡ 0
    → AllLive slots held
    → AllLive (set slots x slot) held
AllLive-set slots [] x slot c a = tt
AllLive-set slots (y ∷ held) x slot c a = (
  subst Live
      (sym
        (ap (λ t. t.state) (get_or-set_ne slots x y slot new_slot (λ e. ground (arith, c, sym e)))))
      a.0,
  AllLive-set slots held x slot (omega (arith, c)) a.1,
)

-- What a dig leaves: the nodes held aside, with the one that was found.
abbrev DugFrom : List TaskSlot → ℕ → Dug → Type 0
DugFrom slots capacity (none, held, q') =
    (free : List (List ℕ)) × (ready : List (List ℕ)) × IsQueue q' free ready held
    × (q'.slots ≡ slots)
    × (q'.capacity ≡ capacity)
    × AllLive q'.slots held
DugFrom slots capacity (some idx, held, q') =
    (free : List (List ℕ)) × (ready : List (List ℕ)) × IsQueue q' free ready (idx ∷ held)
    × (q'.slots ≡ in_state slots idx reserved)
    × (q'.capacity ≡ capacity)
    × AllLive q'.slots held
    × Reusable (state_of slots idx)

module _ (s : ℕ) (l : s < 8) where
  -- The node on top is the one, or is held aside while the dig goes on.
  dig_node :
      (n x : ℕ) (held : List ℕ) (q1 : TaskQueue) (free ready : List (List ℕ))
      → IsQueue q1 free ready (x ∷ held)
      → AllLive q1.slots held
      → DugFrom q1.slots q1.capacity (dig s n (x ∷ held) q1)
      → DugFrom q1.slots q1.capacity (dig_step (some x, q1) held (dig s n))
  dig_node n x held q1 free ready h a more = elim (Bool-cases ((slot_at q1 x).state == cancelled)) [
    | inl b ↦ subst (chosen) (sym b) (
      free,
      ready,
      put_slot-IsQueue q1 free ready held x (record (slot_at q1 x) { state = reserved }) h,
      refl,
      refl,
      AllLive-set q1.slots held x (record (slot_at q1 x) { state = reserved })
          (omega (arith, h.once x, here_self x)) a,
      inr (inr (inr ((==_iff (slot_at q1 x).state cancelled).0 b))),
    )
    | inr b ↦ subst chosen (sym b) more
  ]
    where
      chosen : Bool → Type 0
      chosen b = DugFrom q1.slots q1.capacity (
          if b
          then (some x, held, less_riding (with_state q1 x reserved))
          else dig s n (x ∷ held) q1)

  dig-DugFrom :
      (n : ℕ) (held : List ℕ) (q : TaskQueue) (free ready : List (List ℕ))
      → IsQueue q free ready held
      → AllLive q.slots held
      → DugFrom q.slots q.capacity (dig s n held q)
  unfolding dig
  dig-DugFrom zero held q free ready h a = (free, ready, h, refl, refl, a)
  dig-DugFrom (suc n) held q free ready h a =
      let q1 = (pop_ready q s).1 in
      let P : Option ℕ → Type 0 =
        λ o. DugFrom q.slots q.capacity (dig_step (o, q1) held (dig s n)) in
      subst P (sym (pop_ready-top q free ready held s h l)) (elim (List-cases (get_or ready s [])) [
        | inl e ↦
            subst P (sym (ap top e))
              (free, set ready s [], pop_none-IsQueue q free ready held s h l e, refl, refl, a)
        | inr e ↦
            let popped = pop_ready-IsQueue q free ready held s e.0 e.1 h l e.2 in
            let live : Live (state_of q.slots e.0) = h.ready_live e.0 (
              omega (
                arith,
                ap (count e.0) e.2,
                here_self e.0,
                count_le-occurs ready s e.0 (omega (arith, h.ready_shards)),
              )) in
            subst P (sym (ap top e.2)) (
              dig_node n e.0 held q1 free (set ready s e.1) popped a
                (dig-DugFrom n (e.0 ∷ held) q1 free (set ready s e.1) popped (live, a)))
      ])

  -- The nodes held aside go back, and what else is held stays so.
  push_back-IsQueue :
      (held rest : List ℕ) (q : TaskQueue) (free ready : List (List ℕ))
      → IsQueue q free ready (held ++ rest)
      → AllLive q.slots held
      → (ready' : List (List ℕ)) × IsQueue (push_back q s held) free ready' rest
        × ((push_back q s held).slots ≡ q.slots)
        × ((push_back q s held).capacity ≡ q.capacity)
  unfolding push_ready
  push_back-IsQueue [] rest q free ready h a = (ready, h, refl, refl)
  push_back-IsQueue (x ∷ held) rest q free ready h a =
      push_back-IsQueue held rest (push_ready q s x) free (set ready s (x ∷ get_or ready s []))
        (push_ready-IsQueue q free ready (held ++ rest) s x h l a.0) a.1

  count-append : (i : ℕ) (xs ys : List ℕ) → count i (xs ++ ys) ≡ count i xs + count i ys
  count-append i [] ys = omega arith
  count-append i (x ∷ xs) ys = omega (arith, count-append i xs ys)

  -- After the dig, its finding stands or the later shards have their turn.
  after_dig :
      (slots : List TaskSlot) (capacity : ℕ) (dug : Dug) (more : TaskQueue → Option ℕ × TaskQueue)
      → ((q : TaskQueue) (free ready : List (List ℕ))
          → IsQueue q free ready []
          → Reserved q.slots q.capacity (more q))
      → DugFrom slots capacity dug
      → Reserved slots capacity
          (found_or dug.0 (push_back dug.2 s dug.1) (more (push_back dug.2 s dug.1)))
  after_dig slots capacity (none, held, q') more ih d =
      let h =
        recount q' d.0 d.1 held (held ++ []) (λ i. omega (arith, count-append i held [])) d.2 in
      let back = push_back-IsQueue held [] q' d.0 d.1 h d.5 in
      subst {A = List TaskSlot × ℕ} (λ p. Reserved p.0 p.1 (more (push_back q' s held)))
        (λ i. ((back.2 ∙ d.3) i, (back.3 ∙ d.4) i)) (ih (push_back q' s held) d.0 back.0 back.1)
  after_dig slots capacity (some idx, held, q') more ih d =
      let h =
        recount q' d.0 d.1 (idx ∷ held) (held ++ (idx ∷ []))
          (λ i. omega (arith, count-append i held (idx ∷ []))) d.2 in
      let back = push_back-IsQueue held (idx ∷ []) q' d.0 d.1 h d.5 in
      record {
        free' = d.0;
        ready' = back.0;
        valid = back.1;
        was_reusable = d.6;
        slots_are = back.2 ∙ d.3;
        capacity_kept = back.3 ∙ d.4;
      }

pub recover-Reserved :
    (s n : ℕ) (q : TaskQueue) (free ready : List (List ℕ))
    → s + n ≤ 8
    → IsQueue q free ready []
    → Reserved q.slots q.capacity (recover s n q)
unfolding recover
recover-Reserved s zero q free ready l h = record {
  free' = free;
  ready' = ready;
  valid = h;
  slots_kept = refl;
  capacity_kept = refl;
}
recover-Reserved s (suc n) q free ready l h =
    let dug =
      after_dig s (omega arith) q.slots q.capacity (dig s 4 [] q) (recover (suc s) n)
        (λ q' free' ready' h'. recover-Reserved (suc s) n q' free' ready' (omega arith) h')
        (dig-DugFrom s (omega arith) 4 [] q free ready h tt) in
    elim (Bool-cases (q.cancelled_riding == 0 || ltb q.capacity q.cancelled_riding)) [
      | inl b ↦ rw (b) (record {
        free' = free;
        ready' = ready;
        valid = h;
        slots_kept = refl;
        capacity_kept = refl;
      })
      | inr b ↦ rw (b) dug
    ]
