-- ===== src/Core/Desc/Packing.antt =====
-- The manifest pointer, packed and unpacked.
use shm_actors.Prelude.{ℕ, ◌^◌, ◌<◌, ◌≡◌, true, arith}
use shm_actors.Core.Desc.{ChunkDesc, PackedRef, zero_desc, is_zero, pack, unpack}

-- Packing a u32 segment id and a u32 offset and unpacking them gives both back.
pub unpack-pack :
    (segment_id offset : ℕ)
    → segment_id < 2 ^ 32
    → offset < 2 ^ 32
    → unpack (pack segment_id offset) ≡ (segment_id, offset)
unfolding unpack pack
unpack-pack s o hs ho = ground arith

pub pack-unpack : (r : PackedRef) → r.bits < 2 ^ 64 → pack (unpack r).0 (unpack r).1 ≡ r
unfolding unpack pack
pack-unpack r h = ground arith

pub is_zero_lem : (d : ChunkDesc) → is_zero d ≡ true → d ≡ zero_desc
unfolding is_zero
is_zero_lem d h = ground arith
