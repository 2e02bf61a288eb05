-- ===== src/Core/Desc.antt =====
-- crates/shm-core/src/desc.rs: chunk descriptors, and the 64-bit manifest pointer.
pub mod Packing
use shm_actors.Prelude.{ℕ, ◌+◌, ◌*◌, ◌/◌, ◌%◌, ◌^◌, Bool, ◌&&◌, ◌==◌}

-- Every field is a u32.
pub record ChunkDesc : Type 0 where
  pub segment_id : ℕ
  pub generation : ℕ
  pub offset : ℕ
  pub len : ℕ
  pub schema_id : ℕ
  pub pad : ℕ

-- `ChunkDesc::ZERO`
abbrev pub zero_desc : ChunkDesc
zero_desc = record { segment_id = 0; generation = 0; offset = 0; len = 0; schema_id = 0; pad = 0 }

unfoldable pub is_zero : ChunkDesc → Bool
is_zero d =
    d.segment_id == 0
    && (d.generation == 0 && (d.offset == 0 && (d.len == 0 && (d.schema_id == 0 && d.pad == 0))))

-- A word of 64 bits. The two shifted halves are disjoint for u32 arguments, so `|` is `+`.
pub record PackedRef : Type 0 where
  pub bits : ℕ

unfoldable pub pack : ℕ → ℕ → PackedRef
pack segment_id offset = record { bits = segment_id * 2 ^ 32 + offset }

unfoldable pub from_desc : ChunkDesc → PackedRef
unfolding pack
from_desc d = pack d.segment_id d.offset

-- `(self.0 >> 32) & SEGMENT_MASK`
unfoldable pub segment_of : PackedRef → ℕ
segment_of r = r.bits / 2 ^ 32 % 2 ^ 32

-- `self.0 & OFFSET_MASK`
unfoldable pub offset_of : PackedRef → ℕ
offset_of r = r.bits % 2 ^ 32

unfoldable pub unpack : PackedRef → ℕ × ℕ
unfolding segment_of offset_of
unpack r = (segment_of r, offset_of r)
