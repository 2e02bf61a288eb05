-- ===== src/Ring.antt =====
-- The shm-ring crate: ring.rs and error.rs. A call runs here with no other party between its
-- accesses; `Race` takes `publish` and `read_at` apart. subscribe.rs and publish.rs are in
-- `Subscribe`.
pub mod Geometry
pub mod Log
pub mod Subscribe
pub mod Reliable
pub mod Race
use shm_actors.Prelude.{
  ℕ, zero, suc, ◌+◌, ◌-◌, ◌*◌, ◌/◌, ◌%◌, ◌^◌, Bool, true, false, not, ◌&&◌, ◌||◌, List, [], ◌∷◌,
  Option, none, some, Result, ok, err, ◌==◌, ltb, leb, if◌then◌else◌, bit_and, get_or, set,
  replicate,
}
use shm_actors.Core.Desc.{ChunkDesc, zero_desc}

pub data Error : Type 0 where
  bad_capacity : ℕ → Error
  region_too_small : (need have : ℕ) → Error
  misaligned bad_magic : Error
  reliable_table_full : ℕ → Error

-- b"SHMRING1" as a little-endian u64
abbrev pub ring_magic : ℕ
ring_magic = 0x31474e49524d4853

abbrev pub max_reliable : ℕ
max_reliable = 8

abbrev pub reliable_unused : ℕ
reliable_unused = 2 ^ 64 - 1

pub record RingHeader : Type 0 where
  pub magic : ℕ
  pub capacity : ℕ
  pub mask : ℕ
  pub head : ℕ
  pub waiters : ℕ
  pub doorbell_seq : ℕ
  pub reliable : List ℕ

pub record Slot : Type 0 where
  pub seq : ℕ
  pub desc : ChunkDesc

-- The shared bytes: the header at the base, and the slot array.
pub record Region : Type 0 where
  pub header : RingHeader
  pub slots : List Slot

-- The handle, with the region behind its pointers.
pub record Ring : Type 0 where
  pub region : Region
  pub capacity : ℕ
  pub mask : ℕ

abbrev pub empty_slot : Slot
empty_slot = record { seq = reliable_unused; desc = zero_desc }

-- For a power of two `a`, `(x + a - 1) & !(a - 1)` rounds down to a multiple of `a`.
abbrev pub align_up : ℕ → ℕ → ℕ
align_up x a = (x + a - 1) / a * a

-- size_of::<RingHeader>() is 96, and size_of::<Slot>() is 32.
abbrev pub slots_offset : ℕ
slots_offset = align_up 96 64

abbrev pub required_bytes : ℕ → ℕ
required_bytes capacity = slots_offset + capacity * 32

-- `u32::is_power_of_two`: a search among 2^0 .. 2^(n-1)
unfoldable pub is_power_below : ℕ → ℕ → Bool
is_power_below zero x = false
is_power_below (suc n) x = x == 2 ^ n || is_power_below n x

abbrev pub fresh_region : ℕ → Region
fresh_region capacity = record {
  header = record {
    magic = ring_magic;
    capacity = capacity;
    mask = capacity - 1;
    head = 0;
    waiters = 0;
    doorbell_seq = 0;
    reliable = replicate max_reliable reliable_unused;
  };
  slots = replicate capacity empty_slot;
}

-- `base` is the address of the region.
unfoldable pub init : ℕ → ℕ → ℕ → Result Error Ring
unfolding is_power_below
init base region_len capacity =
    if capacity == 0 || not (is_power_below 32 capacity)
    then err (bad_capacity capacity)
    else if not (base % 8 == 0)
    then err misaligned
    else if ltb region_len (required_bytes capacity)
    then err (region_too_small (required_bytes capacity) region_len)
    else ok (record { region = fresh_region capacity; capacity = capacity; mask = capacity - 1 })

unfoldable pub attach : Region → ℕ → ℕ → Result Error Ring
attach region base region_len =
    if not (base % 8 == 0)
    then err misaligned
    else if ltb region_len 96
    then err (region_too_small 96 region_len)
    else if not (region.header.magic == ring_magic)
    then err bad_magic
    else if ltb region_len (required_bytes region.header.capacity)
    then err (region_too_small (required_bytes region.header.capacity) region_len)
    else ok
        (record { region = region; capacity = region.header.capacity; mask = region.header.mask })

abbrev pub head : Ring → ℕ
head r = r.region.header.head

-- The index that `slot_ptr` computes.
abbrev pub slot_index : Ring → ℕ → ℕ
slot_index r seq = bit_and seq r.mask

abbrev pub with_header : Ring → RingHeader → Ring
with_header r h = record r { region = record { header = h; slots = r.region.slots } }

unfoldable pub publish : Ring → ChunkDesc → Bool × Ring
publish r desc =
    let seq = head r in
    (
      ltb 0 r.region.header.waiters,
      record r {
        region = record {
          header = record r.region.header { head = (seq + 1) % 2 ^ 64 };
          slots = set r.region.slots (slot_index r seq) (record { seq = seq; desc = desc });
        };
      },
    )

pub data ReadOutcome : Type 0 where
  sample : ChunkDesc → ReadOutcome
  lagged : (skipped new_cursor : ℕ) → ReadOutcome
  empty : ReadOutcome

-- `head - capacity` of a u64
abbrev pub oldest : Ring → ℕ
oldest r = (head r + 2 ^ 64 - r.capacity) % 2 ^ 64

-- With nobody between the accesses the second test of `seq` sees what the first one saw.
unfoldable pub read_at : Ring → ℕ → ReadOutcome
read_at r cursor =
    if leb (head r) cursor
    then empty
    else if ltb r.capacity (head r - cursor)
    then lagged (oldest r - cursor) (oldest r)
    else let slot = get_or r.region.slots (slot_index r cursor) empty_slot in
      if slot.seq == cursor then sample slot.desc else lagged (oldest r - cursor) (oldest r)

unfoldable pub add_waiter : Ring → Ring
add_waiter r =
    with_header r (record r.region.header { waiters = (r.region.header.waiters + 1) % 2 ^ 32 })

unfoldable pub remove_waiter : Ring → Ring
remove_waiter r =
    with_header r
      (record r.region.header { waiters = (r.region.header.waiters + 2 ^ 32 - 1) % 2 ^ 32 })

-- The first unused cell, counting from `i`.
unfoldable pub first_unused : List ℕ → ℕ → Option ℕ
first_unused [] i = none
first_unused (v ∷ vs) i = if v == reliable_unused then some i else first_unused vs (i + 1)

abbrev pub with_reliable : Ring → List ℕ → Ring
with_reliable r cells = with_header r (record r.region.header { reliable = cells })

unfoldable pub register_reliable : Ring → ℕ → Result Error (ℕ × Ring)
unfolding first_unused
register_reliable r cursor = elim (first_unused r.region.header.reliable 0) [
  | none ↦ err (reliable_table_full max_reliable)
  | some i ↦ ok (i, with_reliable r (set r.region.header.reliable i cursor))
]

unfoldable pub update_reliable : Ring → ℕ → ℕ → Ring
update_reliable r idx cursor = with_reliable r (set r.region.header.reliable idx cursor)

unfoldable pub release_reliable : Ring → ℕ → Ring
release_reliable r idx = with_reliable r (set r.region.header.reliable idx reliable_unused)

-- `min.map_or(v, |m| m.min(v))`
abbrev pub smaller : Option ℕ → ℕ → ℕ
smaller none v = v
smaller (some m) v = if ltb v m then v else m

unfoldable pub min_cursor : Option ℕ → List ℕ → Option ℕ
min_cursor acc [] = acc
min_cursor acc (v ∷ vs) = min_cursor (if v == reliable_unused then acc else some (smaller acc v)) vs

unfoldable pub min_reliable_cursor : Ring → Option ℕ
unfolding min_cursor
min_reliable_cursor r = min_cursor none r.region.header.reliable

unfoldable pub would_backpressure : Ring → Bool
unfolding min_reliable_cursor
would_backpressure r = elim (min_reliable_cursor r) [
  | some least ↦ ltb r.capacity (head r - least)
  | none ↦ false
]
