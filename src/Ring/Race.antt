-- ===== src/Ring/Race.antt =====
-- `Ring::publish` against `Ring::read_at`, one shared access at a time, over sequentially
-- consistent memory. A descriptor is written, and copied, one u32 field after the other, so that
-- wider accesses are among the orders; in which order a compiler copies the fields is not modelled.
pub mod Overtaken
pub mod Fields
pub mod Invariant
pub mod Seen
pub mod Safety
use shm_actors.Prelude.{
  ℕ, zero, suc, ◌+◌, ◌-◌, ◌%◌, ◌^◌, Bool, true, false, List, [], ◌∷◌, ◌==◌, ltb, leb, if◌then◌else◌,
  get_or, set,
}
use shm_actors.Core.Desc.{ChunkDesc, zero_desc}
use shm_actors.Ring.{
  Ring, Slot, empty_slot, head, slot_index, oldest, ReadOutcome, sample, lagged, empty, with_header,
}

-- Where the producer stands in `publish`, with its local `seq`.
pub data Writer : Type 0 where
  idle : Writer
  writing : (n seq : ℕ) → Writer  -- before the write of field `n` of the descriptor
  wrote_desc : (seq : ℕ) → Writer  -- before the store of the slot's `seq`
  wrote_seq : (seq : ℕ) → Writer  -- before the store of `head`

-- Where a subscriber stands in `read_at`.
pub data Reader : Type 0 where
  reading : Reader
  gated : Reader  -- past the head gate and the lap check
  matched : (n : ℕ) → ChunkDesc → Reader  -- `seq == cursor` once, and `n` fields copied
  copied : ChunkDesc → Reader  -- before the second load of `seq`
  raced : Reader  -- before the fresh load of `head`
  returned : ReadOutcome → Reader

abbrev pub slot_at : Ring → ℕ → Slot
slot_at r seq = get_or r.region.slots (slot_index r seq) empty_slot

abbrev pub with_slot : Ring → ℕ → Slot → Ring
with_slot r seq s = record r {
  region = record { header = r.region.header; slots = set r.region.slots (slot_index r seq) s };
}

-- Field `n` of `from`, put into `d`.
abbrev pub put_field : (n : ℕ) → (from d : ChunkDesc) → ChunkDesc
put_field zero from d = record d { segment_id = from.segment_id }
put_field (suc zero) from d = record d { generation = from.generation }
put_field (suc (suc zero)) from d = record d { offset = from.offset }
put_field (suc (suc (suc zero))) from d = record d { len = from.len }
put_field (suc (suc (suc (suc zero)))) from d = record d { schema_id = from.schema_id }
put_field (suc (suc (suc (suc (suc n))))) from d = record d { pad = from.pad }

-- The producer publishes `msgs 0`, `msgs 1`, and so on.
unfoldable pub write_step : (ℕ → ChunkDesc) → Writer → Ring → Writer × Ring
write_step msgs idle r = (writing 0 (head r), r)
write_step msgs (writing n seq) r = (
  if n == 5 then wrote_desc seq else writing (suc n) seq,
  with_slot r seq (record (slot_at r seq) { desc = put_field n (msgs seq) (slot_at r seq).desc }),
)
write_step msgs (wrote_desc seq) r =
    (wrote_seq seq, with_slot r seq (record (slot_at r seq) { seq = seq }))
write_step msgs (wrote_seq seq) r =
    (idle, with_header r (record r.region.header { head = (seq + 1) % 2 ^ 64 }))

unfoldable pub read_step : ℕ → Reader → Ring → Reader
read_step cursor reading r =
    if leb (head r) cursor
    then returned empty
    else if ltb r.capacity (head r - cursor)
    then returned (lagged (oldest r - cursor) (oldest r))
    else gated
read_step cursor gated r = if (slot_at r cursor).seq == cursor then matched 0 zero_desc else raced
read_step cursor (matched n d) r =
    let d' = put_field n (slot_at r cursor).desc d in
    if n == 5 then copied d' else matched (suc n) d'
read_step cursor (copied desc) r =
    if (slot_at r cursor).seq == cursor then returned (sample desc) else raced
read_step cursor raced r = returned (lagged (oldest r - cursor) (oldest r))
read_step cursor (returned out) r = returned out

pub record System : Type 0 where
  pub ring : Ring
  pub writer : Writer
  pub reader : Reader

pub data Turn : Type 0 where
  producer subscriber : Turn

unfoldable pub turn : (ℕ → ChunkDesc) → ℕ → System → Turn → System
turn msgs cursor s producer = record s {
  writer = (write_step msgs s.writer s.ring).0;
  ring = (write_step msgs s.writer s.ring).1;
}
turn msgs cursor s subscriber = record s { reader = read_step cursor s.reader s.ring }

unfoldable pub run : (ℕ → ChunkDesc) → ℕ → System → List Turn → System
run msgs cursor s [] = s
run msgs cursor s (t ∷ ts) = run msgs cursor (turn msgs cursor s t) ts
