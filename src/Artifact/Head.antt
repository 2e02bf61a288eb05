-- ===== src/Artifact/Head.antt =====
-- crates/shm-artifact/src/head.rs: the control block of an artifact, with its pin slots and its
-- fenced write lease. Each method runs with no other party between its accesses, so that a
-- compare-and-swap loop ends in its first round.
pub mod Lease
pub mod Slots
pub mod Race
use shm_actors.Prelude.{
  ℕ, zero, suc, ◌+◌, ◌-◌, ◌*◌, ◌/◌, ◌%◌, ◌^◌, Bool, true, false, not, Option, none, some, List, [],
  ◌∷◌, replicate, ◌==◌, ◌&&◌, if◌then◌else◌,
}

-- b"SHMAHEA3", little-endian
abbrev pub head_magic : ℕ
head_magic = 0x33414548414d4853

abbrev pub no_incarnation : ℕ
no_incarnation = 0

abbrev pub first_incarnation : ℕ
first_incarnation = 1

abbrev pub no_version : ℕ
no_version = 0

abbrev pub owner_none : ℕ
owner_none = 0

-- The halves are disjoint for u32 arguments, so `|` is `+`.
abbrev pub pack_lease : ℕ → ℕ → ℕ
pack_lease owner fence = owner * 2 ^ 32 + fence

abbrev pub lease_owner : ℕ → ℕ
lease_owner packed = packed / 2 ^ 32 % 2 ^ 32

abbrev pub lease_fence : ℕ → ℕ
lease_fence packed = packed % 2 ^ 32

abbrev pub max_live_versions : ℕ
max_live_versions = 64

-- SLOT_FREE, SLOT_LIVE and SLOT_FREEING
abbrev pub slot_free : ℕ
slot_free = 0

abbrev pub slot_live : ℕ
slot_live = 1

abbrev pub slot_freeing : ℕ
slot_freeing = 2

pub record PinSlot : Type 0 where
  pub version : ℕ
  pub manifest : ℕ
  pub pins : ℕ
  pub state : ℕ

abbrev pub free_slot : PinSlot
free_slot = record { version = 0; manifest = 0; pins = 0; state = slot_free }

unfoldable pub publish_pin : PinSlot → PinSlot
publish_pin s = record s { pins = (s.pins + 1) % 2 ^ 32 }

unfoldable pub accept_pin : PinSlot → ℕ → Bool
accept_pin s v = s.state == slot_live && s.version == v

-- The count before, and the slot after.
unfoldable pub unpin : PinSlot → ℕ × PinSlot
unpin s = (s.pins, record s { pins = (s.pins + 2 ^ 32 - 1) % 2 ^ 32 })

unfoldable pub try_unpin : PinSlot → Option ℕ × PinSlot
try_unpin s = if s.pins == 0 then (none, s) else (some s.pins, record s { pins = s.pins - 1 })

unfoldable pub elect_freeing : PinSlot → Bool × PinSlot
elect_freeing s =
    if s.state == slot_live then (true, record s { state = slot_freeing }) else (false, s)

abbrev pub pin_scan : PinSlot → ℕ
pin_scan s = s.pins

abbrev pub revert_live : PinSlot → PinSlot
revert_live s = record s { state = slot_live }

abbrev pub store_free : PinSlot → PinSlot
store_free s = record s { version = 0; manifest = 0; state = slot_free }

pub record ArtifactHead : Type 0 where
  pub magic : ℕ
  pub current : ℕ
  pub manifest_desc : ℕ
  pub write_lease : ℕ
  pub schema_id : ℕ
  pub incarnation : ℕ
  pub pins : List PinSlot

unfoldable pub fresh : ArtifactHead
fresh = record {
  magic = head_magic;
  current = no_version;
  manifest_desc = 0;
  write_lease = pack_lease owner_none 0;
  schema_id = 0;
  incarnation = no_incarnation;
  pins = replicate max_live_versions free_slot;
}

abbrev pub check_magic : ArtifactHead → Bool
check_magic h = h.magic == head_magic

abbrev pub is_incarnation : ArtifactHead → ℕ → Bool
is_incarnation h expected = h.incarnation == expected

-- The incarnation before, and the head after.
unfoldable pub retire : ArtifactHead → ℕ × ArtifactHead
retire h = (h.incarnation, record h { incarnation = no_incarnation })

abbrev pub all_free : List PinSlot → Bool
all_free [] = true
all_free (s ∷ ss) = (s.state == slot_free && pin_scan s == 0) && all_free ss

unfoldable pub is_quiescent : ArtifactHead → Bool
is_quiescent h =
    if not (h.current == no_version)
    then false
    else if not (lease_owner h.write_lease == owner_none)
    then false
    else all_free h.pins

unfoldable pub commission : ArtifactHead → ℕ → ArtifactHead
commission h incarnation = record h { incarnation = incarnation }

-- The first slot that passes a test, of the slots from the `i`-th on.
abbrev pub first_slot : (PinSlot → Bool) → ℕ → List PinSlot → Option ℕ
first_slot test i [] = none
first_slot test i (s ∷ ss) =
    let later = first_slot test (suc i) ss in if test s then some i else later

unfoldable pub find_slot_with_manifest : ArtifactHead → ℕ → ℕ → Option ℕ
find_slot_with_manifest h version manifest_bits =
    first_slot (λ s. s.state == slot_live && (s.version == version && s.manifest == manifest_bits))
      0 h.pins

unfoldable pub find_slot : ArtifactHead → ℕ → Option ℕ
find_slot h version = first_slot (λ s. s.state == slot_live && s.version == version) 0 h.pins

-- The loop of `claim_slot`, from the `i`-th slot on.
abbrev pub claim_from : ℕ → ℕ → ℕ → List PinSlot → Option ℕ × List PinSlot
claim_from version manifest i [] = (none, [])
claim_from version manifest i (s ∷ ss) =
    let later = claim_from version manifest (suc i) ss in
    if s.state == slot_free
    then (some i, record s { state = slot_live; manifest = manifest; version = version } ∷ ss)
    else (later.0, s ∷ later.1)

unfoldable pub claim_slot : ArtifactHead → ℕ → ℕ → Option ℕ × ArtifactHead
claim_slot h version manifest =
    let r = claim_from version manifest 0 h.pins in (r.0, record h { pins = r.1 })

-- The token of the lease.
unfoldable pub acquire_write_lease : ArtifactHead → ℕ → Option ℕ × ArtifactHead
acquire_write_lease h owner = if not (lease_owner h.write_lease == owner_none) then (none, h) else (
  some (lease_fence h.write_lease),
  record h { write_lease = pack_lease owner (lease_fence h.write_lease) },
)

abbrev pub lease_held_by : ArtifactHead → ℕ → ℕ → Bool
lease_held_by h owner fence = h.write_lease == pack_lease owner fence

unfoldable pub release_write_lease : ArtifactHead → ℕ → ℕ → Bool × ArtifactHead
release_write_lease h owner token =
    if h.write_lease == pack_lease owner token
    then (true, record h { write_lease = pack_lease owner_none ((token + 1) % 2 ^ 32) })
    else (false, h)

unfoldable pub force_release_write_lease : ArtifactHead → Bool × ArtifactHead
force_release_write_lease h = if lease_owner h.write_lease == owner_none then (false, h) else (
  true,
  record h { write_lease = pack_lease owner_none ((lease_fence h.write_lease + 1) % 2 ^ 32) },
)

abbrev pub write_lease_owner : ArtifactHead → ℕ
write_lease_owner h = lease_owner h.write_lease
