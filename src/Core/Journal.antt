-- ===== src/Core/Journal.antt =====
-- crates/shm-core/src/journal.rs: what an actor still holds, for the coordinator to reclaim
-- after a crash. A bitmap word is the list of its 64 bits, the lowest first. Each operation runs
-- with no other party between its accesses, so that a compare-and-swap ends in its first round.
pub mod Entries
pub mod Bitmap
pub mod Records
pub mod Full
pub mod Created
pub mod Replay
use shm_actors.Prelude.{
  map, ℕ, zero, suc, ◌+◌, ◌-◌, ◌*◌, ◌/◌, ◌%◌, ◌^◌, Bool, true, false, not, ◌&&◌, Option, none, some,
  List, [], ◌∷◌, ◌++◌, ok, err, ◌==◌, ltb, leb, if◌then◌else◌, length, get_or, set, replicate,
}
use shm_actors.Core.Error.{
  Error, CoreResult, layout_overflow, layout_mismatch, journal_full, out_of_bounds,
}
use shm_actors.Core.Desc.{ChunkDesc}
use shm_actors.Core.Pool.{Segment, align_up}

-- b"SHMJRNL3", little-endian
abbrev pub journal_magic : ℕ
journal_magic = 0x334c4e524a4d4853

abbrev pub entry_empty : ℕ
entry_empty = 0

abbrev pub entry_chunk_pin : ℕ
entry_chunk_pin = 1

abbrev pub entry_artifact_pin : ℕ
entry_artifact_pin = 2

abbrev pub entry_write_lease : ℕ
entry_write_lease = 3

abbrev pub entry_staged_manifest : ℕ
entry_staged_manifest = 4

-- The words of the payload are `w[0]` to `w[5]`.
pub record JournalEntry : Type 0 where
  pub kind : ℕ
  pub pad : ℕ
  pub w0 : ℕ
  pub w1 : ℕ
  pub w2 : ℕ
  pub w3 : ℕ
  pub w4 : ℕ
  pub w5 : ℕ

-- `JournalEntry::ZERO`
abbrev pub zero_entry : JournalEntry
zero_entry = record { kind = entry_empty; pad = 0; w0 = 0; w1 = 0; w2 = 0; w3 = 0; w4 = 0; w5 = 0 }

unfoldable pub chunk_pin : ChunkDesc → JournalEntry
chunk_pin desc = record {
  kind = entry_chunk_pin;
  pad = 0;
  w0 = desc.segment_id;
  w1 = desc.generation;
  w2 = desc.offset;
  w3 = desc.len;
  w4 = desc.schema_id;
  w5 = desc.pad;
}

unfoldable pub artifact_pin : ℕ → ℕ → ℕ → JournalEntry
artifact_pin artifact_id incarnation version = record {
  kind = entry_artifact_pin;
  pad = 0;
  w0 = artifact_id;
  w1 = version % 2 ^ 32;
  w2 = version / 2 ^ 32 % 2 ^ 32;
  w3 = incarnation;
  w4 = 0;
  w5 = 0;
}

unfoldable pub write_lease : ℕ → ℕ → ℕ → JournalEntry
write_lease artifact_id incarnation fence = record {
  kind = entry_write_lease;
  pad = 0;
  w0 = artifact_id;
  w1 = fence;
  w2 = incarnation;
  w3 = 0;
  w4 = 0;
  w5 = 0;
}

unfoldable pub staged_manifest : ℕ → ℕ → ℕ → ℕ → JournalEntry
staged_manifest artifact_id incarnation manifest generation = record {
  kind = entry_staged_manifest;
  pad = 0;
  w0 = artifact_id;
  w1 = incarnation;
  w2 = manifest % 2 ^ 32;
  w3 = manifest / 2 ^ 32 % 2 ^ 32;
  w4 = generation;
  w5 = 0;
}

-- Fields in the order of the sources: `artifact_id`, `incarnation`, and then `version`, `fence`,
-- or `manifest` and `generation`.
pub data JournalRecord : Type 0 where
  chunk_pinned : ChunkDesc → JournalRecord
  artifact_pinned : (artifact_id incarnation version : ℕ) → JournalRecord
  lease_held : (artifact_id incarnation fence : ℕ) → JournalRecord
  manifest_staged : (artifact_id incarnation manifest generation : ℕ) → JournalRecord

-- `u64::from(lo) | (u64::from(hi) << 32)`, of halves that are disjoint
abbrev pub join_words : ℕ → ℕ → ℕ
join_words lo hi = lo + hi * 2 ^ 32

unfoldable pub to_record : JournalEntry → Option JournalRecord
to_record e =
    if e.kind == entry_chunk_pin
    then some (
        chunk_pinned (record {
          segment_id = e.w0;
          generation = e.w1;
          offset = e.w2;
          len = e.w3;
          schema_id = e.w4;
          pad = e.w5;
        }))
    else if e.kind == entry_artifact_pin
    then some (artifact_pinned e.w0 e.w3 (join_words e.w1 e.w2))
    else if e.kind == entry_write_lease
    then some (lease_held e.w0 e.w2 e.w1)
    else if e.kind == entry_staged_manifest
    then some (manifest_staged e.w0 e.w1 (join_words e.w2 e.w3) e.w4)
    else none

-- The journal in its segment. The handle's pointers are the fields themselves.
pub record Journal : Type 0 where
  pub magic : ℕ
  pub capacity : ℕ
  pub hint : ℕ
  pub bitmap : List (List Bool)
  pub slots : List JournalEntry

abbrev pub words : Journal → ℕ
words j = (j.capacity + 63) / 64

-- The bytes up to the bitmap, up to the slots, the bitmap's words, and the bytes in all.
unfoldable pub layout : ℕ → ℕ × ℕ × ℕ × ℕ
layout capacity =
    let n = (capacity + 63) / 64 in
    let bitmap_off = align_up 16 8 in
    let slots_off = align_up (bitmap_off + n * 8) 4 in
    (bitmap_off, slots_off, n, slots_off + capacity * 32)

-- No bit of a word is set.
abbrev pub zero_word : List Bool
zero_word = replicate 64 false

abbrev pub new_journal : ℕ → Journal
new_journal capacity = record {
  magic = journal_magic;
  capacity = capacity;
  hint = 0;
  bitmap = replicate ((capacity + 63) / 64) zero_word;
  slots = replicate capacity zero_entry;
}

unfoldable pub create : Segment → ℕ → CoreResult Journal
unfolding layout
create segment capacity =
    if capacity == 0
    then err layout_overflow
    else if ltb segment.payload_len (layout capacity).3
    then err layout_overflow
    else ok (new_journal capacity)

-- The capacity is read from the header, which keeps it in a u32.
unfoldable pub attach : Journal → CoreResult Journal
attach j =
    if j.magic == journal_magic
    then ok (record j { capacity = j.capacity % 2 ^ 32 })
    else err layout_mismatch

-- The low bits that count in a word: `valid_mask` is a mask of that many ones.
abbrev pub valid_bits : Journal → ℕ → ℕ
valid_bits j w = if ltb (w + 1) (words j) then 64 else j.capacity - (words j - 1) * 64

-- The index of a bit in a word of one bit more.
abbrev pub shifted : Option ℕ → Option ℕ
shifted none = none
shifted (some i) = some (suc i)

-- `(!cur & valid).trailing_zeros()`, or none where `cur & valid == valid`
abbrev pub first_clear : List Bool → ℕ → Option ℕ
first_clear [] n = none
first_clear (b ∷ bs) zero = none
first_clear (b ∷ bs) (suc n) = let rest = first_clear bs n in if b then shifted rest else some 0

abbrev pub word : Journal → ℕ → List Bool
word j w = get_or j.bitmap w []

-- The slot is written, then its bit set, then the hint moved.
abbrev pub recorded : Journal → JournalEntry → ℕ → ℕ → Journal
recorded j entry w bit = record j {
  slots = set j.slots (w * 64 + bit) entry;
  bitmap = set j.bitmap w (set (word j w) bit true);
  hint = (w * 64 + bit + 1) % 2 ^ 32;
}

-- A round in word `w`: the next round, if the word is full.
abbrev pub record_at :
    Journal → JournalEntry → ℕ → Option ℕ → CoreResult (ℕ × Journal) → CoreResult (ℕ × Journal)
record_at j entry w none rest = rest
record_at j entry w (some bit) rest = ok (w * 64 + bit, recorded j entry w bit)

-- The loop over the words, from `step` on, with `n` steps to go.
abbrev pub scan : Journal → JournalEntry → ℕ → ℕ → ℕ → CoreResult (ℕ × Journal)
scan j entry start step zero = err journal_full
scan j entry start step (suc n) =
    let rest = scan j entry start (suc step) n in
    let w = (start + step) % words j in
    record_at j entry w (first_clear (word j w) (valid_bits j w)) rest

-- `words.max(1)` is `words` except for an empty journal, where no step is taken.
unfoldable pub record_entry : Journal → JournalEntry → CoreResult (ℕ × Journal)
record_entry j entry = scan j entry (j.hint / 64 % words j) 0 (words j)

-- `BorrowJournal::record`
unfoldable pub record_pin : Journal → ChunkDesc → CoreResult (ℕ × Journal)
unfolding record_entry chunk_pin
record_pin j desc = record_entry j (chunk_pin desc)

unfoldable pub record_artifact_pin : Journal → ℕ → ℕ → ℕ → CoreResult (ℕ × Journal)
unfolding record_entry artifact_pin
record_artifact_pin j artifact_id incarnation version =
    record_entry j (artifact_pin artifact_id incarnation version)

unfoldable pub record_staged_manifest : Journal → ℕ → ℕ → ℕ → ℕ → CoreResult (ℕ × Journal)
unfolding record_entry staged_manifest
record_staged_manifest j artifact_id incarnation manifest generation =
    record_entry j (staged_manifest artifact_id incarnation manifest generation)

unfoldable pub record_write_lease : Journal → ℕ → ℕ → ℕ → CoreResult (ℕ × Journal)
unfolding record_entry write_lease
record_write_lease j artifact_id incarnation fence =
    record_entry j (write_lease artifact_id incarnation fence)

abbrev pub bit_at : List (List Bool) → ℕ → Bool
bit_at bitmap slot = get_or (get_or bitmap (slot / 64) []) (slot % 64) false

abbrev pub put_bit : List (List Bool) → ℕ → Bool → List (List Bool)
put_bit bitmap slot b = set bitmap (slot / 64) (set (get_or bitmap (slot / 64) []) (slot % 64) b)

-- Whether the caller cleared the bit.
unfoldable pub release : Journal → ℕ → CoreResult (Bool × Journal)
release j slot =
    if leb j.capacity slot
    then err out_of_bounds
    else ok (
      bit_at j.bitmap slot,
      record j { bitmap = put_bit j.bitmap slot false; hint = slot % 2 ^ 32 },
    )

unfoldable pub is_occupied : Journal → ℕ → Bool
is_occupied j slot = if leb j.capacity slot then false else bit_at j.bitmap slot

-- The ones among the low bits.
abbrev pub count_ones : List Bool → ℕ → ℕ
count_ones [] n = 0
count_ones (b ∷ bs) zero = 0
count_ones (b ∷ bs) (suc n) = (if b then 1 else 0) + count_ones bs n

abbrev pub count_words : Journal → List (List Bool) → ℕ → ℕ
count_words j [] w = 0
count_words j (bits ∷ rest) w = count_ones bits (valid_bits j w) + count_words j rest (suc w)

unfoldable pub len : Journal → ℕ
len j = count_words j j.bitmap 0

abbrev pub replay_slot : Journal → ℕ → Bool → List (ℕ × JournalRecord) → List (ℕ × JournalRecord)
replay_slot j idx b rest =
    if b
    then (elim (to_record (get_or j.slots idx zero_entry)) [
      | none ↦ rest
      | some r ↦ (idx, r) ∷ rest
    ])
    else rest

-- The bits of one word that are set, the lowest first; `idx` is the slot of the first bit.
abbrev pub replay_bits : Journal → ℕ → List Bool → ℕ → List (ℕ × JournalRecord)
replay_bits j idx [] n = []
replay_bits j idx (b ∷ bs) zero = []
replay_bits j idx (b ∷ bs) (suc n) = replay_slot j idx b (replay_bits j (suc idx) bs n)

abbrev pub replay_words : Journal → List (List Bool) → ℕ → List (ℕ × JournalRecord)
replay_words j [] w = []
replay_words j (bits ∷ rest) w =
    replay_bits j (w * 64) bits (valid_bits j w) ++ replay_words j rest (suc w)

unfoldable pub replay_indexed : Journal → List (ℕ × JournalRecord)
unfolding to_record
replay_indexed j = replay_words j j.bitmap 0

unfoldable pub replay : Journal → List JournalRecord
unfolding replay_indexed
replay j = map (λ r. r.1) (replay_indexed j)
