-- ===== src/Ring/Race/Seen.antt =====
-- What a subscriber knows of the slot of its cursor, as the producer and it make their accesses.
use shm_actors.Prelude.{
  if◌then◌else◌, ne→==_false, ℕ, suc, ◌+◌, ◌-◌, ◌%◌, ◌≤◌, ◌<◌, ◌≡◌, ◌⊎◌, inl, inr, List, [], ◌∷◌,
  arith, length, get_or, ◌∙◌, sym, ap, subst, Bool-cases, ==_iff, ◌==◌, ltb, leb, refl,
}
use shm_actors.Core.Desc.{ChunkDesc}
use shm_actors.Ring.{
  Ring, Slot, empty_slot, reliable_unused, head, slot_index, sample, lagged, empty,
}
use shm_actors.Ring.Geometry.{Shape, mod-ne, capacity_pos, slot_index-mod, slot_index-lt}
use shm_actors.Ring.Race.{
  Writer, idle, writing, put_field, wrote_desc, wrote_seq, Reader, reading, gated, matched, copied,
  raced, returned, slot_at, with_slot, write_step, read_step, System, Turn, producer, subscriber,
  turn, run,
}
use shm_actors.Ring.Race.Fields.{mix, Among, whole-Among, mix-Among, copy-Among}
use shm_actors.Ring.Race.Invariant.{
  Produced, Kept, Carries, limit, begin-Produced, write_field-Produced, write_seq-Produced,
  write_head-Produced,
}
use shm_actors.Prelude.{get_or-set_self, get_or-set_ne, ℕ_discrete}
use shm_actors.Ring.Geometry.{slot_index-lt}
use native.Mathlib.Nat.{mod-lt}

module _ (msgs : ℕ → ChunkDesc) (k : ℕ) where
  write-Produced :
      (left : ℕ) (w : Writer) (r : Ring)
      → Produced msgs k (suc left) w r
      → Produced msgs k left (write_step msgs w r).0 (write_step msgs w r).1
  write-Produced left idle r v = begin-Produced msgs k left r v
  write-Produced left (writing n seq) r v =
      subst
        (λ q.
          Produced msgs k left (write_step msgs (writing n q) r).0
            (write_step msgs (writing n q) r).1)
        (sym v.at_head.0)
        (write_field-Produced msgs k left n r
          (subst (λ q. Produced msgs k (suc left) (writing n q) r) v.at_head.0 v))
  write-Produced left (wrote_desc seq) r v =
      subst
        (λ q.
          Produced msgs k left (write_step msgs (wrote_desc q) r).0
            (write_step msgs (wrote_desc q) r).1)
        (sym v.at_head)
        (write_seq-Produced msgs k left r
          (subst (λ q. Produced msgs k (suc left) (wrote_desc q) r) v.at_head v))
  write-Produced left (wrote_seq seq) r v = write_head-Produced msgs k left seq r v

  weaken :
      (left : ℕ) (w : Writer) (r : Ring) → Produced msgs k (suc left) w r → Produced msgs k left w r
  weaken left w r v = record {
    shape = v.shape;
    room = omega (arith, v.room);
    at_head = v.at_head;
    fits = v.fits;
    carries = v.carries;
  }

  module _ (cursor : ℕ) where
    -- The first `n` fields are those of the cursor's message or of the one that replaces it.
    abbrev pub Mine : (n : ℕ) → Ring → ChunkDesc → Type 0
    Mine n r desc = Among n (msgs cursor) (msgs (cursor + r.capacity)) desc

    -- With `n` fields copied after a first test of the sequence.
    abbrev pub Copied : (n : ℕ) → Ring → ChunkDesc → Type 0
    Copied n r desc =
        ((cursor < (slot_at r cursor).seq) × ((slot_at r cursor).seq < reliable_unused))
        ⊎ (((slot_at r cursor).seq ≡ cursor) × (cursor < reliable_unused) × Mine n r desc)

    -- What a subscriber knows of the slot of its cursor.
    abbrev pub Knows : Ring → Reader → Type 0
    Knows r reading = Unit {0}
    Knows r gated = cursor < head r
    Knows r (matched n desc) = (n ≤ 5) × Copied n r desc
    Knows r (copied desc) = Copied 6 r desc
    Knows r raced = Unit {0}
    Knows r (returned (sample desc)) = Mine 6 r desc
    Knows r (returned out) = Unit {0}

    -- The slot of the cursor, by its index.
    own_slot :
        {r : Ring}
        → Shape k r
        → slot_at r cursor ≡ get_or r.region.slots (cursor % r.capacity) empty_slot
    own_slot {r} shape = ap (λ i. get_or r.region.slots i empty_slot) (slot_index-mod shape cursor)

    own_lt : {r : Ring} → Shape k r → cursor % r.capacity < r.capacity
    own_lt shape = mod-lt cursor (capacity_pos shape)

    own_after :
        (r : Ring) (s : Slot)
        → Shape k r
        → ((slot_at (with_slot r (head r) s) cursor ≡ s) × (slot_at r cursor ≡ slot_at r (head r)))
          ⊎ (slot_at (with_slot r (head r) s) cursor ≡ slot_at r cursor)
    own_after r s shape = elim (ℕ_discrete (slot_index r (head r)) (slot_index r cursor)) [
      | yes e ↦ inl (
        rw (← e) (
            get_or-set_self r.region.slots (slot_index r (head r)) s empty_slot
              (slot_index-lt shape (head r))),
        ap (λ i. get_or r.region.slots i empty_slot) (sym e),
      )
      | no ne ↦ inr (
          get_or-set_ne r.region.slots (slot_index r (head r)) (slot_index r cursor) s empty_slot
            ne)
    ]

    -- A sequence in the slot only grows.
    Grown : Ring → Ring → Type 0
    Grown r r' =
        ((slot_at r cursor).seq ≤ (slot_at r' cursor).seq)
        × ((slot_at r' cursor).seq < reliable_unused)

    write-Grown :
        (left : ℕ) (w : Writer) (r : Ring)
        → Produced msgs k (suc left) w r
        → (slot_at r cursor).seq < reliable_unused
        → Grown r (write_step msgs w r).1
    unfolding write_step Grown
    write-Grown left idle r v h = (omega arith, h)
    write-Grown left (writing n seq) r v h = rw (v.at_head.0) (
        ground (
          arith,
          own_after r
              (record (slot_at r (head r)) {
                desc = put_field n (msgs (head r)) (slot_at r (head r)).desc;
              })
              v.shape,
        ))
    write-Grown left (wrote_desc seq) r v h = rw (v.at_head) (
        ground (
          arith,
          own_after r (record (slot_at r (head r)) { seq = head r }) v.shape,
          v.fits (cursor % r.capacity) (own_lt v.shape),
          own_slot v.shape,
          v.room,
        ))
    write-Grown left (wrote_seq seq) r v h = ground (arith, v.at_head, v.room)

    write_fixed :
        (left : ℕ) (w : Writer) (r : Ring)
        → Produced msgs k (suc left) w r
        → let r' = (write_step msgs w r).1 in (r'.capacity ≡ r.capacity) × (head r ≤ head r')
    unfolding write_step
    write_fixed left idle r v = (refl, omega arith)
    write_fixed left (writing n seq) r v = (refl, omega arith)
    write_fixed left (wrote_desc seq) r v = ground arith
    write_fixed left (wrote_seq seq) r v = ground (arith, v.at_head, v.room)

    write-Copied :
        (left : ℕ) (w : Writer) (r : Ring) (n : ℕ) (desc : ChunkDesc)
        → Produced msgs k (suc left) w r
        → Copied n r desc
        → Copied n (write_step msgs w r).1 desc
    unfolding Grown
    write-Copied left w r n desc v (inl h) = inl (omega (arith, write-Grown left w r v h.1))
    write-Copied left w r n desc v (inr h) =
        let g = write-Grown left w r v (omega arith) in
        elim (ℕ_discrete (slot_at (write_step msgs w r).1 cursor).seq cursor) [
          | yes same ↦ inr (
            same,
            h.1,
            subst (λ c. Among n (msgs cursor) (msgs (cursor + c)) desc)
                (sym (write_fixed left w r v).0) h.2,
          )
          | no moved ↦ inl (omega (arith, g))
        ]

    write-Knows :
        (left : ℕ) (w : Writer) (r : Ring) (p : Reader)
        → Produced msgs k (suc left) w r
        → Knows r p
        → Knows (write_step msgs w r).1 p
    unfolding Grown
    write-Knows left w r reading v h = tt
    write-Knows left w r gated v h = omega (arith, write_fixed left w r v)
    write-Knows left w r (matched n desc) v h = (h.0, write-Copied left w r n desc v h.1)
    write-Knows left w r (copied desc) v h = write-Copied left w r 6 desc v h
    write-Knows left w r raced v h = tt
    write-Knows left w r (returned (sample desc)) v h =
        subst (λ c. Among 6 (msgs cursor) (msgs (cursor + c)) desc) (sym (write_fixed left w r v).0)
          h
    write-Knows left w r (returned (lagged n c)) v h = tt
    write-Knows left w r (returned empty) v h = tt

    -- The slot of the cursor is the one that the producer is writing to.
    next_over :
        (left : ℕ) (w : Writer) (r : Ring)
        → Produced msgs k left w r
        → limit w (head r) ≡ head r
        → cursor % r.capacity ≡ head r % r.capacity
        → (slot_at r cursor).seq ≡ cursor
        → cursor < reliable_unused
        → head r ≡ cursor + r.capacity
    next_over left w r v l m e h = ground (
      arith,
      v.fits (cursor % r.capacity) (own_lt v.shape),
      own_slot v.shape,
      mod-ne r.capacity cursor (head r) (capacity_pos v.shape),
    )

    own_message :
        (seq : ℕ) (desc : ChunkDesc)
        → seq ≡ cursor
        → cursor < reliable_unused
        → Kept msgs seq desc
        → desc ≡ msgs cursor
    own_message seq desc e h (inl u) = absurd (omega (arith, u))
    own_message seq desc e h (inr d) = d ∙ ap msgs e

    Kept-Mine :
        (r : Ring)
        → (slot_at r cursor).seq ≡ cursor
        → cursor < reliable_unused
        → Kept msgs (slot_at r cursor).seq (slot_at r cursor).desc
        → Mine 6 r (slot_at r cursor).desc
    Kept-Mine r e h c =
        whole-Among (msgs cursor) (msgs (cursor + r.capacity)) (slot_at r cursor).desc
          (inl (own_message (slot_at r cursor).seq (slot_at r cursor).desc e h c))

    Carries-Mine :
        (left : ℕ) (w : Writer) (r : Ring)
        → Produced msgs k left w r
        → (slot_at r cursor).seq ≡ cursor
        → cursor < reliable_unused
        → Carries msgs r.capacity (head r) (cursor % r.capacity) w (slot_at r cursor)
        → Mine 6 r (slot_at r cursor).desc
    Carries-Mine left idle r v e h c = Kept-Mine r e h c
    Carries-Mine left (wrote_seq seq) r v e h c = Kept-Mine r e h c
    Carries-Mine left (writing n seq) r v e h (inr c) = Kept-Mine r e h c.1
    Carries-Mine left (writing n seq) r v e h (inl (m, (old, d, c))) =
        let own = own_message (slot_at r cursor).seq old e h c in
        let over = next_over left (writing n seq) r v refl m e h in
        subst (Among 6 (msgs cursor) (msgs (cursor + r.capacity)))
          (sym (d ∙ (λ i. mix n (msgs (over i)) (own i))))
          (mix-Among n (msgs cursor) (msgs (cursor + r.capacity)))
    Carries-Mine left (wrote_desc seq) r v e h (inr c) = Kept-Mine r e h c.1
    Carries-Mine left (wrote_desc seq) r v e h (inl c) =
        whole-Among (msgs cursor) (msgs (cursor + r.capacity)) (slot_at r cursor).desc
          (inr (c.1 ∙ ap msgs (next_over left (wrote_desc seq) r v refl c.0 e h)))

    -- What the slot of the cursor carries while its sequence is the cursor.
    own_desc :
        (left : ℕ) (w : Writer) (r : Ring)
        → Produced msgs k left w r
        → (slot_at r cursor).seq ≡ cursor
        → cursor < reliable_unused
        → Mine 6 r (slot_at r cursor).desc
    own_desc left w r v e h = Carries-Mine left w r v e h (
        subst (Carries msgs r.capacity (head r) (cursor % r.capacity) w) (sym (own_slot v.shape))
          (v.carries (cursor % r.capacity) (own_lt v.shape)))

    -- One more field is copied.
    copy-Copied :
        (left : ℕ) (w : Writer) (r : Ring) (n : ℕ) (desc : ChunkDesc)
        → Produced msgs k left w r
        → n ≤ 5
        → Copied n r desc
        → Copied (suc n) r (put_field n (slot_at r cursor).desc desc)
    copy-Copied left w r n desc v l (inl h) = inl h
    copy-Copied left w r n desc v l (inr h) = inr (
      h.0,
      h.1,
      copy-Among n (msgs cursor) (msgs (cursor + r.capacity)) (slot_at r cursor).desc desc l
          (own_desc left w r v h.0 h.1) h.2,
    )

    matched_twice :
        (r : Ring) (desc : ChunkDesc)
        → Knows r (copied desc)
        → (slot_at r cursor).seq ≡ cursor
        → Mine 6 r desc
    matched_twice r desc (inl h) e = absurd (omega arith)
    matched_twice r desc (inr h) e = h.2

    read-Knows :
        (left : ℕ) (w : Writer) (r : Ring) (p : Reader)
        → Produced msgs k left w r
        → Knows r p
        → Knows r (read_step cursor p r)
    unfolding read_step
    read-Knows left w r reading v h = elim (Bool-cases (leb (head r) cursor)) [
      | inl e ↦ rw e tt
      | inr e ↦ rw e (elim (Bool-cases (ltb r.capacity (head r - cursor))) [
        | inl e' ↦ rw e' tt
        | inr e' ↦ rw e' (ground arith)
      ])
    ]
    read-Knows left w r gated v h = elim (Bool-cases ((slot_at r cursor).seq == cursor)) [
      | inl e ↦
          let same = (==_iff (slot_at r cursor).seq cursor).0 e in
          rw e (omega arith, inr (same, omega (arith, v.room), tt))
      | inr e ↦ rw e tt
    ]
    read-Knows left w r (matched n desc) v h =
        let more = copy-Copied left w r n desc v h.0 h.1 in
        let next = put_field n (slot_at r cursor).desc desc in
        elim (ℕ_discrete n 5) [
          | yes e ↦
              subst (Knows r)
                (sym (ap (λ b. if b then copied next else matched (suc n) next) ((==_iff n 5).1 e)))
                (subst (λ m. Copied (suc m) r next) e more)
          | no ne ↦
              subst (Knows r)
                (sym
                  (ap (λ b. if b then copied next else matched (suc n) next) (ne→==_false n 5 ne)))
                (omega (arith, h.0, ne), more)
        ]
    read-Knows left w r (copied desc) v h = elim (Bool-cases ((slot_at r cursor).seq == cursor)) [
      | inl e ↦ rw e (matched_twice r desc h ((==_iff _ cursor).0 e))
      | inr e ↦ rw e tt
    ]
    read-Knows left w r raced v h = tt
    read-Knows left w r (returned (sample desc)) v h = h
    read-Knows left w r (returned (lagged n c)) v h = tt
    read-Knows left w r (returned empty) v h = tt

    pub run-Knows :
        (ts : List Turn) (s : System)
        → Produced msgs k (length ts) s.writer s.ring
        → Knows s.ring s.reader
        → Knows (run msgs cursor s ts).ring (run msgs cursor s ts).reader
          × ((run msgs cursor s ts).ring.capacity ≡ s.ring.capacity)
    unfolding run turn
    run-Knows [] s v h = (h, refl)
    run-Knows (producer ∷ ts) s v h =
        let (known, same) =
          run-Knows ts (turn msgs cursor s producer) (write-Produced (length ts) s.writer s.ring v)
            (write-Knows (length ts) s.writer s.ring s.reader v h) in
        (known, same ∙ (write_fixed (length ts) s.writer s.ring v).0)
    run-Knows (subscriber ∷ ts) s v h =
        run-Knows ts (turn msgs cursor s subscriber) (weaken (length ts) s.writer s.ring v)
          (read-Knows (suc (length ts)) s.writer s.ring s.reader v h)
