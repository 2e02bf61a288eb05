-- ===== src/Artifact/Head/Race.antt =====
-- Readers, reclaimers and committers on one pin slot, one shared access at a time: the pin of
-- `pin_inner`, `undo_pin`, the drop of a pin, `try_retire_version_at`, and of a commit the part from
-- `claim_slot` on, with its rollback, of crates/shm-artifact/src/artifact.rs and head.rs. Memory is
-- sequentially consistent, which the fences of `accept_pin` and `pin_scan` are there for.
--
-- A search of the table is the test of this one slot, and a reader that tries again is another
-- reader. A reader's pin counts as accepted when the slot's manifest is the head's: the read of the
-- manifest and the journal entry that follow are left out, and so are the head's schema id, the
-- chunks that a commit or a rollback releases besides, the coordinator's sweeps but for the
-- retirement of the head, and the replay of a dead actor's pins.
pub mod Tally
pub mod Pins
pub mod Stale
use shm_actors.Prelude.{
  ℕ, ◌+◌, ◌-◌, ◌%◌, ◌^◌, Option, none, some, List, [], ◌∷◌, ◌==◌, if◌then◌else◌, get_elem?, set,
}
use shm_actors.Artifact.Head.{PinSlot, slot_free, slot_live, slot_freeing}

-- Where a thread stands on the slot: with the version `v` that it is about, the incarnation `inc` of
-- its handle, and, for a reclaimer that knows the version's manifest, that manifest. A committer
-- expects the current version to be `e`, and installs version `v` with manifest `m`.
pub data Pc : Type 0 where
  publishing : (v inc : ℕ) → Pc  -- a reader, before `publish_pin`
  checking_state : (v inc : ℕ) → Pc  -- in `accept_pin`, before the load of the state
  checking_version : (v inc : ℕ) → Pc  -- in `accept_pin`, before the load of the version
  checking_incarnation : (v inc : ℕ) → Pc  -- before `is_incarnation`
  checking_desc : (v : ℕ) → Pc  -- before the load of the head's `manifest_desc`
  checking_manifest : (v desc : ℕ) → Pc  -- before the load of the slot's manifest
  pinned : (v : ℕ) → Pc  -- the pin is accepted; the next access is its drop
  undoing : Pc  -- before the `unpin` of `undo_pin`
  undone : Pc  -- the last pin was undone: before the load of the slot's version
  undone_of : (v : ℕ) → Pc  -- that version found: before the load of `current`
  dropped : (v : ℕ) → Pc  -- the last pin was dropped: before the load of `current`
  finding_state : (v : ℕ) → Option ℕ → Pc  -- a reclaimer in `find_slot`, before the load of the state
  finding_version : (v : ℕ) → Option ℕ → Pc  -- before the load of the version
  finding_manifest : (v : ℕ) → Option ℕ → (bits : ℕ) → Pc  -- before the load of the manifest
  checking_current : (v : ℕ) → Option ℕ → Pc  -- before the load of `current`
  electing : (v : ℕ) → Option ℕ → Pc  -- before `elect_freeing`
  scanning : (v : ℕ) → Option ℕ → Pc  -- before the first `pin_scan`
  reverting : (v : ℕ) → Option ℕ → Pc  -- before `revert_live`
  rescanning : (v : ℕ) → Option ℕ → Pc  -- before the second `pin_scan`
  releasing : Pc  -- before it releases the manifest that the slot names
  clearing_version clearing_manifest clearing_state : Pc  -- before the stores of `store_free`
  claiming : (e v m inc : ℕ) → Pc  -- a committer in `claim_slot`, before its compare-exchange
  storing_manifest : (e v m inc : ℕ) → Pc  -- before the store of the manifest
  storing_version : (e v m inc : ℕ) → Pc  -- before the store of the version
  revalidating : (e v m inc : ℕ) → Pc  -- before `revalidate_incarnation`
  giving_version giving_manifest giving_state : Pc  -- stale: before the stores of `store_free`
  loading_prior : (e v m : ℕ) → Pc  -- before the load of the head's `manifest_desc`
  installing : (e v m prior : ℕ) → Pc  -- before the compare-exchange of `current`
  storing_desc : (e m prior : ℕ) → Pc  -- before the store of the head's `manifest_desc`
  rolling_state : (v : ℕ) → Pc  -- in `rollback_staged`, before the load of the state
  rolling_version : (v : ℕ) → Pc  -- before the load of the version
  dropping_version dropping_state : Pc  -- before the stores of `rollback_staged`
  retiring : Pc  -- a coordinator, before `ArtifactHead::retire`
  finished : Pc

-- The slot, the head's current version, its manifest and its incarnation, and the manifests that
-- were released, the last first.
pub record Shared : Type 0 where
  pub slot : PinSlot
  pub current : ℕ
  pub manifest_desc : ℕ
  pub incarnation : ℕ
  pub released : List ℕ

abbrev pub with_state : Shared → ℕ → Shared
with_state c state = record c { slot = record c.slot { state = state } }

abbrev pub with_version : Shared → ℕ → Shared
with_version c v = record c { slot = record c.slot { version = v } }

abbrev pub with_manifest : Shared → ℕ → Shared
with_manifest c m = record c { slot = record c.slot { manifest = m } }

-- `fetch_sub` on the pins
abbrev pub unpinned : Shared → Shared
unpinned c = record c { slot = record c.slot { pins = (c.slot.pins + 2 ^ 32 - 1) % 2 ^ 32 } }

-- A reader that has undone the last pin goes on to retire the version of the slot.
abbrev pub after_undo : (prev : ℕ) → Pc
after_undo prev = if prev == 1 then undone else finished

-- One that has dropped the last pin retires its own.
abbrev pub after_drop : (prev v : ℕ) → Pc
after_drop prev v = if prev == 1 then dropped v else finished

-- `find_slot`, or `find_slot_with_manifest`, when the version is the one looked for.
abbrev pub after_version : ℕ → Option ℕ → Pc
after_version v none = checking_current v none
after_version v (some bits) = finding_manifest v (some bits) bits

-- A committer that has installed its version retires the one before, if there is one.
abbrev pub after_install : (e prior : ℕ) → Pc
after_install e prior = if e == 0 then finished else finding_state e (some prior)

-- The last test of a pin: the slot's manifest is the head's.
abbrev pub after_manifest : (manifest desc v : ℕ) → Pc
after_manifest manifest desc v = if manifest == desc then pinned v else undoing

-- A committer that has claimed the slot goes on if its handle is not stale.
abbrev pub after_claim : (incarnation inc e v m : ℕ) → Pc
after_claim incarnation inc e v m =
    if incarnation == inc then loading_prior e v m else giving_version

-- A rollback frees the slot if it is still LIVE, and of the committer's version.
abbrev pub after_lost_state : (state v : ℕ) → Pc
after_lost_state state v = if state == slot_live then rolling_version v else finished

abbrev pub after_lost_version : (version v : ℕ) → Pc
after_lost_version version v = if version == v then dropping_version else finished

unfoldable pub advance : Pc → Shared → Pc × Shared
advance (publishing v inc) c =
    (checking_state v inc, record c { slot = record c.slot { pins = (c.slot.pins + 1) % 2 ^ 32 } })
advance (checking_state v inc) c =
    (if c.slot.state == slot_live then checking_version v inc else undoing, c)
advance (checking_version v inc) c =
    (if c.slot.version == v then checking_incarnation v inc else undoing, c)
advance (checking_incarnation v inc) c =
    (if c.incarnation == inc then checking_desc v else undoing, c)
advance (checking_desc v) c = (checking_manifest v c.manifest_desc, c)
advance (checking_manifest v desc) c = (after_manifest c.slot.manifest desc v, c)
advance (pinned v) c = (after_drop c.slot.pins v, unpinned c)
advance undoing c = (after_undo c.slot.pins, unpinned c)
advance undone c = (if c.slot.version == 0 then finished else undone_of c.slot.version, c)
advance (undone_of v) c = (if c.current == v then finished else finding_state v none, c)
advance (dropped v) c = (if c.current == v then finished else finding_state v none, c)
advance (finding_state v by) c =
    (if c.slot.state == slot_live then finding_version v by else finished, c)
advance (finding_version v by) c = (if c.slot.version == v then after_version v by else finished, c)
advance (finding_manifest v by bits) c =
    (if c.slot.manifest == bits then checking_current v by else finished, c)
advance (checking_current v by) c = (if c.current == v then finished else electing v by, c)
advance (electing v by) c =
    if c.slot.state == slot_live then (scanning v by, with_state c slot_freeing) else (finished, c)
advance (scanning v by) c = (if c.slot.pins == 0 then releasing else reverting v by, c)
advance (reverting v by) c = (rescanning v by, with_state c slot_live)
advance (rescanning v by) c = (if c.slot.pins == 0 then finding_state v by else finished, c)
advance releasing c = (clearing_version, record c { released = c.slot.manifest ∷ c.released })
advance clearing_version c = (clearing_manifest, with_version c 0)
advance clearing_manifest c = (clearing_state, with_manifest c 0)
advance clearing_state c = (finished, with_state c slot_free)
advance (claiming e v m inc) c =
    if c.slot.state == slot_free
    then (storing_manifest e v m inc, with_state c slot_live)
    else (finished, c)
advance (storing_manifest e v m inc) c = (storing_version e v m inc, with_manifest c m)
advance (storing_version e v m inc) c = (revalidating e v m inc, with_version c v)
advance (revalidating e v m inc) c = (after_claim c.incarnation inc e v m, c)
advance giving_version c = (giving_manifest, with_version c 0)
advance giving_manifest c = (giving_state, with_manifest c 0)
advance giving_state c = (finished, with_state c slot_free)
advance (loading_prior e v m) c = (installing e v m c.manifest_desc, c)
advance (installing e v m prior) c =
    if c.current == e
    then (storing_desc e m prior, record c { current = v })
    else (rolling_state v, c)
advance (storing_desc e m prior) c = (after_install e prior, record c { manifest_desc = m })
advance (rolling_state v) c = (after_lost_state c.slot.state v, c)
advance (rolling_version v) c = (after_lost_version c.slot.version v, c)
advance dropping_version c = (dropping_state, with_version c 0)
advance dropping_state c = (finished, with_state c slot_free)
advance retiring c = (finished, record c { incarnation = 0 })
advance finished c = (finished, c)

pub record System : Type 0 where
  pub shared : Shared
  pub threads : List Pc

-- The scheduler lets thread `i` make its next access.
unfoldable pub schedule : System → ℕ → System
schedule s i = elim (get_elem? s.threads i) [
  | none ↦ s
  | some p ↦ record {
    shared = (advance p s.shared).1;
    threads = set s.threads i (advance p s.shared).0;
  }
]

unfoldable pub run : System → List ℕ → System
run s [] = s
run s (i ∷ is) = run (schedule s i) is
