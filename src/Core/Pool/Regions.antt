-- ===== src/Core/Pool/Regions.antt =====
-- Where `create` places the regions of the classes in a payload of less than 4 GiB.
use shm_actors.Prelude.{ℕ, ◌+◌, ◌*◌, ◌%◌, ◌^◌, ◌≤◌, ◌<◌, ◌≡◌, sym, subst, List, [], ◌∷◌, ok, arith}
use shm_actors.Core.Pool.{
  ClassHeader, SizeClass, Segment, Pool, align_up, index_classes, place_classes, compute_layout,
  new_classes, created, create,
}

-- The bytes of a class's region.
abbrev pub span : ClassHeader → ℕ
span c = c.chunk_count * c.chunk_size

-- Every region starts on a 64-byte bound, after the regions before it, from `low` on, and
-- the last one ends by `high`.
abbrev pub Placed : ℕ → List ClassHeader → ℕ → Type 0
Placed low [] high = low ≤ high
Placed low (c ∷ cs) high =
    (low ≤ c.data_offset) × (c.data_offset % 64 ≡ 0) × Placed (c.data_offset + span c) cs high

align_up_bounds : (x : ℕ) → (x ≤ align_up x 64) × (align_up x 64 % 64 ≡ 0)
align_up_bounds x = (omega arith, omega arith)

place_classes_end : (cs : List SizeClass) (off : ℕ) → off ≤ (place_classes cs off).1
place_classes_end [] off = omega arith
place_classes_end (c ∷ cs) off = omega (
  arith,
  place_classes_end cs (align_up off 64 + c.chunk_count * c.chunk_size),
  align_up_bounds off,
)

new_classes-Placed :
    (cs : List SizeClass) (low off total high : ℕ)
    → low ≤ off
    → (place_classes cs off).1 ≤ high
    → high < 2 ^ 32
    → Placed low (new_classes cs (index_classes cs total).0 (place_classes cs off).0) high
new_classes-Placed [] low off total high a b h = omega arith
new_classes-Placed (c ∷ cs) low off total high a b h =
    subst
      (λ d.
        (low ≤ d)
        × (d % 64 ≡ 0)
        × Placed (d + c.chunk_count * c.chunk_size)
            (new_classes cs (index_classes cs ((total + c.chunk_count) % 2 ^ 32)).0
              (place_classes cs (align_up off 64 + c.chunk_count * c.chunk_size)).0)
            high)
      (sym fits)
      (
        omega (arith, align_up_bounds off),
        (align_up_bounds off).1,
        new_classes-Placed cs (align_up off 64 + c.chunk_count * c.chunk_size)
            (align_up off 64 + c.chunk_count * c.chunk_size) ((total + c.chunk_count) % 2 ^ 32) high
            (omega arith) b h,
      )
  where
    fits : align_up off 64 % 2 ^ 32 ≡ align_up off 64
    fits = omega (arith, place_classes_end cs (align_up off 64 + c.chunk_count * c.chunk_size))

pub create_inv :
    (segment : Segment) (config : List SizeClass) (p : Pool)
    → create segment config ≡ ok p
    → (p ≡ created segment config (compute_layout config))
      × ((compute_layout config).total_bytes ≤ segment.payload_len)
unfolding create
create_inv segment config p e = grind arith

-- A pool that `create` makes has its classes' regions behind the headers and the control words,
-- on 64-byte bounds, one after the other, and inside the payload of the segment, for a payload
-- of less than 4 GiB.
pub create-Placed :
    (segment : Segment) (config : List SizeClass) (p : Pool)
    → segment.payload_len < 2 ^ 32
    → create segment config ≡ ok p
    → Placed
        ((compute_layout config).ctrl_offset + (compute_layout config).total_chunks * 16)
        p.classes
        segment.payload_len
unfolding create compute_layout
create-Placed segment config p h e =
    subst
      (λ q.
        Placed ((compute_layout config).ctrl_offset + (compute_layout config).total_chunks * 16)
          q.classes segment.payload_len)
      (sym inv.0)
      (new_classes-Placed config start start 0 segment.payload_len (omega arith) inv.1 h)
  where
    start : ℕ
    start = (compute_layout config).ctrl_offset + (compute_layout config).total_chunks * 16

    inv :
        (p ≡ created segment config (compute_layout config))
        × ((compute_layout config).total_bytes ≤ segment.payload_len)
    inv = create_inv segment config p e
