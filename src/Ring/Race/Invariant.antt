-- ===== src/Ring/Race/Invariant.antt =====
-- What the producer keeps of every slot, and what a subscriber knows of its own.
use shm_actors.Prelude.{
  refl, subst, ==_iff, if◌then◌else◌, ne→==_false, ℕ, suc, ◌+◌, ◌%◌, ◌≤◌, ◌<◌, ◌≡◌, ◌≢◌, ◌⊎◌, inl,
  inr, arith, length-set, get_or, ◌∙◌, sym, ap, get_or-set_self, get_or-set_ne, ℕ_discrete,
}
use shm_actors.Core.Desc.{ChunkDesc}
use shm_actors.Ring.{Ring, Slot, empty_slot, reliable_unused, head, slot_index}
use shm_actors.Ring.Geometry.{Shape, capacity_pos, slot_index-mod, slot_index-lt}
use shm_actors.Ring.Race.{
  Writer, idle, writing, wrote_desc, wrote_seq, put_field, slot_at, with_slot, write_step,
}
use shm_actors.Ring.Race.Fields.{mix}
use native.Mathlib.Nat.{add-mod_right}

-- The end of the sequences that the slots may hold.
abbrev pub limit : Writer → ℕ → ℕ
limit (wrote_seq seq) h = h + 1
limit w h = h

-- A slot is unused, or holds one of the last `capacity` sequences that belong to it.
abbrev pub Fits : (capacity limit j : ℕ) → Slot → Type 0
Fits capacity limit j s =
    (s.seq ≡ reliable_unused)
    ⊎ ((s.seq % capacity ≡ j) × (s.seq < limit) × (limit ≤ s.seq + capacity))

-- The descriptor that a slot had for its sequence.
abbrev pub Kept : (ℕ → ChunkDesc) → (seq : ℕ) → ChunkDesc → Type 0
Kept msgs seq desc = (seq ≡ reliable_unused) ⊎ (desc ≡ msgs seq)

-- Its descriptor is that of its sequence, but in the slot that the producer is writing to: there the
-- first `n` fields are of the next message.
abbrev pub Carries : (ℕ → ChunkDesc) → (capacity h j : ℕ) → Writer → Slot → Type 0
Carries msgs capacity h j (writing n seq) s =
    ((j ≡ h % capacity) × ((old : ChunkDesc) × (s.desc ≡ mix n (msgs h) old) × Kept msgs s.seq old))
    ⊎ ((j ≢ h % capacity) × Kept msgs s.seq s.desc)
Carries msgs capacity h j (wrote_desc seq) s =
    ((j ≡ h % capacity) × (s.desc ≡ msgs h))
    ⊎ ((j ≢ h % capacity) × ((s.seq ≡ reliable_unused) ⊎ (s.desc ≡ msgs s.seq)))
Carries msgs capacity h j w s = (s.seq ≡ reliable_unused) ⊎ (s.desc ≡ msgs s.seq)

abbrev pub AtHead : Writer → ℕ → Type 0
AtHead idle h = Unit {0}
AtHead (writing n seq) h = (seq ≡ h) × (n ≤ 5)
AtHead (wrote_desc seq) h = seq ≡ h
AtHead (wrote_seq seq) h = seq ≡ h

pub record Produced (msgs : ℕ → ChunkDesc) (k left : ℕ) (w : Writer) (r : Ring) : Type 0 where
  pub shape : Shape k r
  pub room : head r + left < reliable_unused
  pub at_head : AtHead w (head r)
  pub fits :
      (j : ℕ)
      → j < r.capacity
      → Fits r.capacity (limit w (head r)) j (get_or r.region.slots j empty_slot)
  pub carries :
      (j : ℕ)
      → j < r.capacity
      → Carries msgs r.capacity (head r) j w (get_or r.region.slots j empty_slot)

module _ (msgs : ℕ → ChunkDesc) (k left : ℕ) where
  -- What a slot looks like after a write to the producer's slot.
  after_write :
      (r : Ring) (s : Slot) (j : ℕ)
      → Shape k r
      → j < r.capacity
      → ((j ≡ head r % r.capacity)
          × (get_or (with_slot r (head r) s).region.slots j empty_slot ≡ s))
        ⊎ ((j ≢ head r % r.capacity)
            × (get_or (with_slot r (head r) s).region.slots j empty_slot
                ≡ get_or r.region.slots j empty_slot))
  after_write r s j shape lt = elim (ℕ_discrete j (head r % r.capacity)) [
    | yes e ↦ inl (
      e,
      rw (e, ← slot_index-mod shape (head r))
          (get_or-set_self r.region.slots (slot_index r (head r)) s empty_slot
            (slot_index-lt shape (head r))),
    )
    | no ne ↦ inr (
      ne,
      get_or-set_ne r.region.slots (slot_index r (head r)) j s empty_slot
          (λ e. ne (sym e ∙ slot_index-mod shape (head r))),
    )
  ]

  write-Shape : (r : Ring) (s : Slot) → Shape k r → Shape k (with_slot r (head r) s)
  write-Shape r s shape = record {
    power = shape.power;
    masked = shape.masked;
    allocated = omega (arith, length-set r.region.slots (slot_index r (head r)) s, shape.allocated);
  }

  -- The producer takes the slot of its next message.
  pub begin-Produced :
      (r : Ring)
      → Produced msgs k (suc left) idle r
      → let (w, r') = write_step msgs idle r in Produced msgs k left w r'
  unfolding write_step
  begin-Produced r v = record {
    shape = v.shape;
    room = omega (arith, v.room);
    at_head = (refl, omega arith);
    fits = v.fits;
    carries = λ j lt. elim (ℕ_discrete j (head r % r.capacity)) [
      | yes e ↦ inl (e, ((get_or r.region.slots j empty_slot).desc, refl, v.carries j lt))
      | no ne ↦ inr (ne, v.carries j lt)
    ];
  }

  -- What the slots carry after one more field.
  field-Carries :
      (n : ℕ) (r : Ring) (j : ℕ) (s s' : Slot)
      → Carries msgs r.capacity (head r) j (writing n (head r)) s
      → ((j ≡ head r % r.capacity) × (s' ≡ record s { desc = put_field n (msgs (head r)) s.desc }))
        ⊎ ((j ≢ head r % r.capacity) × (s' ≡ s))
      → Carries msgs r.capacity (head r) j (writing (suc n) (head r)) s'
  field-Carries n r j s s' (inl (e, (old, d, c))) (inl (e', q)) = inl (
    e,
    (
      old,
      ap (λ (t : Slot). t.desc) q ∙ ap (put_field n (msgs (head r))) d,
      subst (λ (t : Slot). Kept msgs t.seq old) (sym q) c,
    ),
  )
  field-Carries n r j s s' (inl c) (inr q) = absurd (q.0 c.0)
  field-Carries n r j s s' (inr c) (inl q) = absurd (c.0 q.0)
  field-Carries n r j s s' (inr c) (inr q) =
      inr (c.0, subst (λ (t : Slot). Kept msgs t.seq t.desc) (sym q.1) c.1)

  pub write_field-Produced :
      (n : ℕ) (r : Ring)
      → Produced msgs k (suc left) (writing n (head r)) r
      → let (w, r') = write_step msgs (writing n (head r)) r in Produced msgs k left w r'
  unfolding write_step
  write_field-Produced n r v = elim (ℕ_discrete n 5) [
    | yes e ↦
        subst (λ w. Produced msgs k left w (with_slot r (head r) written))
          (sym (
            ap (λ b. if b then wrote_desc (head r) else writing (suc n) (head r))
              ((==_iff n 5).1 e)))
          (record {
            shape = write-Shape r written v.shape;
            room = omega (arith, v.room);
            at_head = refl;
            fits = fits;
            carries = λ j lt. full j e (fields j lt);
          })
    | no ne ↦
        subst (λ w. Produced msgs k left w (with_slot r (head r) written))
          (sym (
            ap (λ b. if b then wrote_desc (head r) else writing (suc n) (head r))
              (ne→==_false n 5 ne)))
          (record {
            shape = write-Shape r written v.shape;
            room = omega (arith, v.room);
            at_head = (refl, omega (arith, v.at_head, ne));
            fits = fits;
            carries = fields;
          })
  ]
    where
      written : Slot
      written = record (slot_at r (head r)) {
        desc = put_field n (msgs (head r)) (slot_at r (head r)).desc;
      }

      same : slot_at r (head r) ≡ get_or r.region.slots (head r % r.capacity) empty_slot
      same = ap (λ i. get_or r.region.slots i empty_slot) (slot_index-mod v.shape (head r))

      after : ℕ → Slot
      after j = get_or (with_slot r (head r) written).region.slots j empty_slot

      fits : (j : ℕ) → j < r.capacity → Fits r.capacity (head r) j (after j)
      fits j lt = ground (arith, after_write r written j v.shape lt, v.fits j lt, same)

      was :
          (j : ℕ)
          → j ≡ head r % r.capacity
          → slot_at r (head r) ≡ get_or r.region.slots j empty_slot
      was j e = same ∙ ap (λ i. get_or r.region.slots i empty_slot) (sym e)

      fields :
          (j : ℕ)
          → j < r.capacity
          → Carries msgs r.capacity (head r) j (writing (suc n) (head r)) (after j)
      fields j lt =
          field-Carries n r j (get_or r.region.slots j empty_slot) (after j) (v.carries j lt)
            (elim (after_write r written j v.shape lt) [
              | inl q ↦ inl (
                q.0,
                q.1
                    ∙ ap (λ (t : Slot). record t { desc = put_field n (msgs (head r)) t.desc })
                        (was j q.0),
              )
              | inr q ↦ inr q
            ])

      full :
          (j : ℕ)
          → n ≡ 5
          → Carries msgs r.capacity (head r) j (writing (suc n) (head r)) (after j)
          → Carries msgs r.capacity (head r) j (wrote_desc (head r)) (after j)
      full j e (inl (e', (old, d, c))) = inl (e', d ∙ ap (λ m. mix (suc m) (msgs (head r)) old) e)
      full j e (inr c) = inr c

  pub write_seq-Produced :
      (r : Ring)
      → Produced msgs k (suc left) (wrote_desc (head r)) r
      → let (w, r') = write_step msgs (wrote_desc (head r)) r in Produced msgs k left w r'
  unfolding write_step
  write_seq-Produced r v = record {
    shape = write-Shape r written v.shape;
    room = omega (arith, v.room);
    at_head = ground arith;
    fits = λ j lt. ground (
      arith,
      after_write r written j v.shape lt,
      v.fits j lt,
      capacity_pos v.shape,
      add-mod_right (get_or r.region.slots j empty_slot).seq r.capacity,
      ap (λ n. n % r.capacity) {x = head r}
          {y = (get_or r.region.slots j empty_slot).seq + r.capacity},
    );
    carries = λ j lt. ground (arith, after_write r written j v.shape lt, v.carries j lt, same);
  }
    where
      written : Slot
      written = record (slot_at r (head r)) { seq = head r }

      same : slot_at r (head r) ≡ get_or r.region.slots (head r % r.capacity) empty_slot
      same = ap (λ i. get_or r.region.slots i empty_slot) (slot_index-mod v.shape (head r))

  pub write_head-Produced :
      (seq : ℕ) (r : Ring)
      → Produced msgs k (suc left) (wrote_seq seq) r
      → let (w, r') = write_step msgs (wrote_seq seq) r in Produced msgs k left w r'
  unfolding write_step
  write_head-Produced seq r v = record {
    shape = record {
      power = v.shape.power;
      masked = v.shape.masked;
      allocated = v.shape.allocated;
    };
    room = omega (arith, v.room, v.at_head);
    at_head = tt;
    fits = λ j lt. ground (arith, v.fits j lt, v.at_head, v.room);
    carries = λ j lt. v.carries j lt;
  }
