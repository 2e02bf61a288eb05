-- ===== src/Core/Pool.antt =====
-- crates/shm-core/src/pool.rs: size classes of chunks, each with a Treiber stack of free chunks.
-- A class keeps the next-links of its chunks, which the sources store in the first four bytes of
-- the chunks, as a list indexed by the slot. That is faithful for chunks of four bytes and more,
-- whose links do not overlap; `create` of the sources does not refuse smaller ones. Each operation
-- runs with no other party between its accesses, so that a compare-and-swap loop ends in its first
-- round.
pub mod FreeList
pub mod Tag
pub mod Regions
pub mod Locate
pub mod Stacks
pub mod Count
pub mod Created
pub mod Alloc
pub mod Cycle
use shm_actors.Prelude.{
  ℕ, zero, suc, ◌+◌, ◌-◌, ◌*◌, ◌/◌, ◌%◌, ◌^◌, Bool, Option, none, some, List, [], ◌∷◌, map, Result,
  ok, err, ◌>>=◌, ok_or, ◌==◌, ◌&&◌, ltb, leb, if◌then◌else◌, length, get_elem?, get_or, set,
  replicate,
}
use shm_actors.Core.Error.{
  Error, CoreResult, layout_overflow, layout_mismatch, pool_exhausted, out_of_bounds, misaligned,
}
use shm_actors.Core.Desc.{ChunkDesc}
use shm_actors.Core.Ctrl.{ChunkCtrl, init_at}

-- b"SHMPOOL2", little-endian
abbrev pub pool_magic : ℕ
pool_magic = 0x324c4f4f504d4853

-- EMPTY
abbrev pub empty : ℕ
empty = 2 ^ 32 - 1

-- HEADER_SIZE of the segment
abbrev pub header_size : ℕ
header_size = 64

-- For a power of two, `(x + a - 1) & !(a - 1)` is the multiple of `a` below `x + a`.
abbrev pub align_up : ℕ → ℕ → ℕ
align_up x a = (x + a - 1) / a * a

pub record SizeClass : Type 0 where
  pub chunk_size : ℕ
  pub chunk_count : ℕ

-- `PoolConfig::max_chunk_size`, over the sizes of the classes
unfoldable pub max_chunk_size : List SizeClass → ℕ
max_chunk_size [] = 0
max_chunk_size (c ∷ cs) =
    let rest = max_chunk_size cs in if ltb rest c.chunk_size then c.chunk_size else rest

-- A class in the segment. `head` is `(tag << 32) | slot`.
pub record ClassHeader : Type 0 where
  pub head : ℕ
  pub chunk_size : ℕ
  pub chunk_count : ℕ
  pub base_index : ℕ
  pub data_offset : ℕ
  pub links : List ℕ

-- The halves are disjoint for u32 arguments, so `|` is `+`.
abbrev pub head_pack : ℕ → ℕ → ℕ
head_pack tag slot = tag * 2 ^ 32 + slot

abbrev pub tag_of : ℕ → ℕ
tag_of v = v / 2 ^ 32 % 2 ^ 32

abbrev pub slot_of : ℕ → ℕ
slot_of v = v % 2 ^ 32

abbrev pub head_unpack : ℕ → ℕ × ℕ
head_unpack v = (tag_of v, slot_of v)

-- The popped slot and the head after it.
unfoldable pub treiber_pop : ℕ → (ℕ → ℕ) → Option ℕ × ℕ
treiber_pop head read_next =
    if slot_of head == empty
    then (none, head)
    else (some (slot_of head), head_pack ((tag_of head + 1) % 2 ^ 32) (read_next (slot_of head)))

-- The links, which `write_next` changes, and the head after the push.
unfoldable pub treiber_push {ℓ} : {L : Type ℓ} → ℕ → ℕ → (ℕ → ℕ → L) → L × ℕ
treiber_push head slot write_next =
    (write_next slot (slot_of head), head_pack ((tag_of head + 1) % 2 ^ 32) slot)

-- A segment's id, and the bytes of its payload.
pub record Segment : Type 0 where
  pub id : ℕ
  pub payload_len : ℕ

pub record Pool : Type 0 where
  pub segment : Segment
  pub magic : ℕ
  pub classes : List ClassHeader
  pub ctrls : List ChunkCtrl

-- The bytes of PoolHeader, ClassHeader and ChunkCtrl.
abbrev pub pool_header_bytes : ℕ
pool_header_bytes = 24

abbrev pub class_header_bytes : ℕ
class_header_bytes = 32

abbrev pub ctrl_bytes : ℕ
ctrl_bytes = 16

pub record Layout : Type 0 where
  pub classes_offset : ℕ
  pub ctrl_offset : ℕ
  pub data_offsets : List ℕ
  pub base_indices : List ℕ
  pub total_chunks : ℕ
  pub total_bytes : ℕ

-- The first loop of `compute_layout`: the index of each class's first chunk, and the chunks.
abbrev pub index_classes : List SizeClass → ℕ → List ℕ × ℕ
index_classes [] total = ([], total)
index_classes (c ∷ cs) total =
    let rest = index_classes cs ((total + c.chunk_count) % 2 ^ 32) in (total ∷ rest.0, rest.1)

-- The second: the start of each class's region, and the end of the last.
abbrev pub place_classes : List SizeClass → ℕ → List ℕ × ℕ
place_classes [] off = ([], off)
place_classes (c ∷ cs) off =
    let rest = place_classes cs (align_up off 64 + c.chunk_count * c.chunk_size) in
    (align_up off 64 ∷ rest.0, rest.1)

unfoldable pub compute_layout : List SizeClass → Layout
compute_layout config =
    let indices = index_classes config 0 in
    let classes_offset = align_up pool_header_bytes 8 in
    let ctrl_offset = align_up (classes_offset + length config * class_header_bytes) 8 in
    let placed = place_classes config (ctrl_offset + indices.1 * ctrl_bytes) in
    record {
      classes_offset = classes_offset;
      ctrl_offset = ctrl_offset;
      data_offsets = placed.0;
      base_indices = indices.0;
      total_chunks = indices.1;
      total_bytes = placed.1;
    }

-- The chain of links from `local` on, with `n` chunks to go.
abbrev pub link_chain : ℕ → ℕ → ℕ → List ℕ
link_chain chunk_count local zero = []
link_chain chunk_count local (suc n) =
    (if ltb (local + 1) chunk_count then local + 1 else empty)
    ∷ link_chain chunk_count (suc local) n

abbrev pub new_class : SizeClass → ℕ → ℕ → ClassHeader
new_class c base_index data_offset = record {
  head = head_pack 0 (if ltb 0 c.chunk_count then 0 else empty);
  chunk_size = c.chunk_size;
  chunk_count = c.chunk_count;
  base_index = base_index;
  data_offset = data_offset % 2 ^ 32;
  links = link_chain c.chunk_count 0 c.chunk_count;
}

abbrev pub new_classes : List SizeClass → List ℕ → List ℕ → List ClassHeader
new_classes (c ∷ cs) (b ∷ bs) (d ∷ ds) = new_class c b d ∷ new_classes cs bs ds
new_classes _ _ _ = []

abbrev pub created : Segment → List SizeClass → Layout → Pool
created segment config layout = record {
  segment = segment;
  magic = pool_magic;
  classes = new_classes config layout.base_indices layout.data_offsets;
  ctrls = replicate layout.total_chunks (init_at 0);
}

unfoldable pub create : Segment → List SizeClass → CoreResult Pool
unfolding compute_layout
create segment config =
    let layout = compute_layout config in
    if length config == 0
    then err layout_overflow
    else if ltb segment.payload_len layout.total_bytes
    then err layout_overflow
    else ok (created segment config layout)

unfoldable pub attach : Pool → CoreResult Pool
attach p = if p.magic == pool_magic then ok p else err layout_mismatch

-- The first class that is large enough, and its index.
abbrev pub find_class : List ClassHeader → ℕ → ℕ → Option (ℕ × ClassHeader)
find_class [] i size = none
find_class (c ∷ cs) i size =
    let rest = find_class cs (suc i) size in if leb size c.chunk_size then some (i, c) else rest

abbrev pub chunk_offset : ClassHeader → ℕ → ℕ
chunk_offset c local = c.data_offset + local * c.chunk_size

abbrev pub read_link : ClassHeader → ℕ → ℕ
read_link c slot = get_or c.links slot empty

abbrev pub no_ctrl : ChunkCtrl
no_ctrl = record { word = 0; owner_actor = 0; generation = 0 }

abbrev pub desc_of : Pool → ClassHeader → ℕ → ChunkDesc
desc_of p c local = record {
  segment_id = p.segment.id;
  generation = (get_or p.ctrls (c.base_index + local) no_ctrl).generation;
  offset = (header_size + chunk_offset c local) % 2 ^ 32;
  len = c.chunk_size;
  schema_id = 0;
  pad = 0;
}

abbrev pub take_chunk : Pool → ℕ → ClassHeader → Option ℕ × ℕ → CoreResult (ChunkDesc × Pool)
take_chunk p i c (none, head) = err pool_exhausted
take_chunk p i c (some local, head) =
    ok (desc_of p c local, record p { classes = set p.classes i (record c { head = head }) })

unfoldable pub alloc : Pool → ℕ → CoreResult (ChunkDesc × Pool)
unfolding treiber_pop
alloc p size = ok_or (find_class p.classes 0 size) layout_overflow >>= λ found.
    take_chunk p found.0 found.1 (treiber_pop found.1.head (read_link found.1))

-- The loop of `locate`, from class `i` on.
abbrev pub locate_from : List ClassHeader → ℕ → ℕ → CoreResult (ℕ × ℕ × ℕ)
locate_from [] i payload_off = err out_of_bounds
locate_from (c ∷ cs) i payload_off =
    let rest = locate_from cs (suc i) payload_off in
    let rel = payload_off - c.data_offset in
    let local = rel / c.chunk_size % 2 ^ 32 in
    if leb c.data_offset payload_off
      && ltb payload_off (c.data_offset + c.chunk_count * c.chunk_size)
    then if rel % c.chunk_size == 0 then ok (i, local, c.base_index + local) else err misaligned
    else rest

unfoldable pub locate : Pool → ℕ → CoreResult (ℕ × ℕ × ℕ)
locate p seg_offset =
    if ltb seg_offset header_size
    then err out_of_bounds
    else locate_from p.classes 0 (seg_offset - header_size)

unfoldable pub ctrl_by_index : Pool → ℕ → CoreResult ChunkCtrl
ctrl_by_index p global = ok_or (get_elem? p.ctrls global) out_of_bounds

unfoldable pub ctrl : Pool → ChunkDesc → CoreResult ChunkCtrl
unfolding locate
ctrl p desc = locate p desc.offset >>= λ at. ok (get_or p.ctrls at.2 no_ctrl)

-- The push on class `i` in `free`: its link and its head.
abbrev pub push_chunk : ClassHeader → ℕ → ClassHeader
unfolding treiber_push
push_chunk c local =
    let pushed = treiber_push c.head local (set c.links) in
    record c { links = pushed.0; head = pushed.1 }

abbrev pub update_at : List ClassHeader → ℕ → (ClassHeader → ClassHeader) → List ClassHeader
update_at [] i f = []
update_at (c ∷ cs) zero f = f c ∷ cs
update_at (c ∷ cs) (suc i) f = c ∷ update_at cs i f

unfoldable pub free : Pool → ChunkDesc → CoreResult Pool
unfolding locate
free p desc = locate p desc.offset >>= λ at.
    ok (record p { classes = update_at p.classes at.0 (λ c. push_chunk c at.1) })

-- The walk of `free_count`, on fuel.
abbrev pub count_chain : (ℕ → ℕ) → ℕ → ℕ → Option ℕ
count_chain read_next zero slot = if slot == empty then some 0 else none
count_chain read_next (suc fuel) slot =
    let rest = count_chain read_next fuel (read_next slot) in
    if slot == empty then some 0 else elim rest [ none ↦ none | some n ↦ some (suc n) ]

-- One step of fuel for each chunk.
unfoldable pub free_count : ClassHeader → Option ℕ
free_count c = count_chain (read_link c) c.chunk_count (slot_of c.head)
