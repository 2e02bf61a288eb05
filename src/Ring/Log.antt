-- ===== src/Ring/Log.antt =====
-- A ring holds the last `capacity` entries of the log of all that was published.
use shm_actors.Prelude.{
  ℕ, ◌+◌, ◌-◌, ◌%◌, ◌^◌, ◌≤◌, ◌<◌, ◌≡◌, ok, List, [], ◌∷◌, ◌++◌, ltb, leb, if◌then◌else◌, arith,
  length, length-append, length-set, length-replicate, get_or, set, get_or-set_self, get_or-set_ne,
  get_or-append_left, get_or-append_last, ap, ◌∙◌, sym, inl, inr, Bool-cases, dec_lt, subst,
}
use shm_actors.Core.Desc.{ChunkDesc, zero_desc}
use shm_actors.Ring.{
  Ring, Slot, is_power_below, empty_slot, init, head, slot_index, publish, ReadOutcome, sample,
  lagged, empty, read_at,
}
use shm_actors.Ring.Geometry.{
  Shape, power_of_two, mod-ne, capacity_pos, slot_index-mod, slot_index-lt,
}

pub record Holds (k : ℕ) (log : List ChunkDesc) (r : Ring) : Type 0 where
  pub shape : Shape k r
  pub counted : head r ≡ length log
  pub room : length log < 2 ^ 64 - 1
  pub live :
      (s : ℕ)
      → s < length log
      → length log ≤ s + r.capacity
      → get_or r.region.slots (s % r.capacity) empty_slot
        ≡ record { seq = s; desc = get_or log s zero_desc }

-- An accepted capacity is a power of two, and the new ring holds the empty log.
pub init-Holds :
    (base region_len capacity : ℕ) {r : Ring}
    → init base region_len capacity ≡ ok r
    → (k : ℕ) × Holds k [] r × (r.capacity ≡ capacity)
unfolding init
init-Holds base region_len capacity {r} e = elim (Bool-cases (is_power_below 32 capacity)) [
  | inl p ↦
      let (k, lt, q) = power_of_two 32 capacity p in
      (
        k,
        record {
          shape = record {
            power = ground arith;
            masked = ground arith;
            allocated = ground (arith, length-replicate capacity empty_slot);
          };
          counted = ground arith;
          room = omega arith;
          live = λ s h. absurd (omega arith);
        },
        ground arith,
      )
  | inr p ↦ absurd (ground arith)
]

-- Publishing appends to the log.
pub publish-Holds :
    (k : ℕ) (log : List ChunkDesc) (r : Ring) (desc : ChunkDesc)
    → Holds k log r
    → length log + 1 < 2 ^ 64 - 1
    → Holds k (log ++ (desc ∷ [])) (publish r desc).1
unfolding publish
publish-Holds k log r desc v fits = record {
  shape = record {
    power = v.shape.power;
    masked = v.shape.masked;
    allocated =
        omega (arith, length-set r.region.slots (slot_index r (head r)) written, v.shape.allocated);
  };
  counted = omega (arith, v.counted, length-append log (desc ∷ []));
  room = omega (arith, length-append log (desc ∷ []));
  live = λ s h near.
      slot s (omega (arith, length-append log (desc ∷ [])))
        (omega (arith, length-append log (desc ∷ [])));
}
  where
    written : Slot
    written = record { seq = head r; desc = desc }

    index : slot_index r (head r) ≡ length log % r.capacity
    index = slot_index-mod v.shape (head r) ∙ ap (λ n. n % r.capacity) v.counted

    inside : slot_index r (head r) < length r.region.slots
    inside = slot_index-lt v.shape (head r)

    old :
        (s : ℕ)
        → s < length log
        → length log < s + r.capacity
        → get_or (set r.region.slots (slot_index r (head r)) written) (s % r.capacity) empty_slot
          ≡ record { seq = s; desc = get_or (log ++ (desc ∷ [])) s zero_desc }
    old s lt near =
        get_or-set_ne r.region.slots (slot_index r (head r)) (s % r.capacity) written empty_slot
          (λ e.
            mod-ne r.capacity s (length log) (capacity_pos v.shape) lt near (sym (sym index ∙ e)))
        ∙ v.live s lt (omega arith)
        ∙ ap (λ d. record { seq = s; desc = d })
            (sym (get_or-append_left log (desc ∷ []) s zero_desc lt))

    new :
        get_or
          (set r.region.slots (slot_index r (head r)) written)
          (length log % r.capacity)
          empty_slot
        ≡ record { seq = length log; desc = get_or (log ++ (desc ∷ [])) (length log) zero_desc }
    new =
        rw
          (
            ← index,
            get_or-set_self r.region.slots (slot_index r (head r)) written empty_slot inside,
          )
          (ground
            (arith, v.counted, get_or-append_last log desc zero_desc (length log) (omega arith)))

    slot :
        (s : ℕ)
        → s < length log + 1
        → length log + 1 ≤ s + r.capacity
        → get_or (set r.region.slots (slot_index r (head r)) written) (s % r.capacity) empty_slot
          ≡ record { seq = s; desc = get_or (log ++ (desc ∷ [])) s zero_desc }
    slot s lt near = elim (dec_lt s (length log)) [
      | yes p ↦ old s p (omega arith)
      | no p ↦
          let e : length log ≡ s = omega arith in
          subst
            (λ n.
              get_or (set r.region.slots (slot_index r (head r)) written) (n % r.capacity)
                empty_slot
              ≡ record { seq = n; desc = get_or (log ++ (desc ∷ [])) n zero_desc })
            e new
    ]

-- What a reader of the log sees at `cursor`, when the last `capacity` entries are kept.
unfoldable pub read_log : ℕ → List ChunkDesc → ℕ → ReadOutcome
read_log capacity log cursor =
    if leb (length log) cursor
    then empty
    else if ltb (cursor + capacity) (length log)
    then lagged (length log - capacity - cursor) (length log - capacity)
    else sample (get_or log cursor zero_desc)

-- Reading the ring is reading the log: nothing at or past its end, the entry itself within the
-- last `capacity`, and before that the number of entries missed and the oldest one kept.
pub read_at-read_log :
    (k : ℕ) (log : List ChunkDesc) (r : Ring) (cursor : ℕ)
    → Holds k log r
    → read_at r cursor ≡ read_log r.capacity log cursor
unfolding read_at read_log
read_at-read_log k log r cursor v = elim (dec_lt cursor (length log)) [
  | no past ↦ ground (arith, v.counted)
  | yes before ↦ elim (dec_lt (cursor + r.capacity) (length log)) [
    | yes lapped ↦ ground (arith, v.counted, v.room)
    | no kept ↦ ground (
      arith,
      v.counted,
      v.live cursor before (omega arith),
      ap (λ i. get_or r.region.slots i empty_slot) (slot_index-mod v.shape cursor),
    )
  ]
]
