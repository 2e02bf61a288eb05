-- ===== src/Tests/HeadTests.antt =====
-- The head of an artifact at concrete values.
use shm_actors.Prelude.{
  ℕ, ◌∷◌, [], none, List, ◌+◌, ◌*◌, ◌^◌, ◌<◌, ◌≡◌, ◌≢◌, ◌↔◌, inl, inr, refl, true, none, some, [],
  ◌∷◌, arith,
}
use shm_actors.Artifact.Head.{
  ArtifactHead, free_slot, slot_free, slot_live, slot_freeing, acquire_write_lease,
  force_release_write_lease, lease_held_by, claim_slot, find_slot,
}
use shm_actors.Artifact.Head.Lease.{
  acquires, forces, run, ended, step, lease_held_by_iff, write_locked,
}
use shm_actors.Artifact.Head.Slots.{Taken, find_slot-claim_slot}
use shm_actors.Artifact.Head.Race
use shm_actors.Artifact.Head.Race.{pinned, publishing, finding_state, System, advance, schedule}
use shm_actors.Artifact.Head.Race.Tally.{tally}
use shm_actors.Artifact.Head.Race.Pins.{NoneGivesUp, pinned_protected}
use shm_actors.Artifact.Head.Race.Stale.{stale_start, stale_order, current_released}

-- Actor 7 holds the lease under token 3.
abbrev leased : ArtifactHead
leased = record {
  magic = 0x33414548414d4853;
  current = 4;
  manifest_desc = 0;
  write_lease = 7 * 2 ^ 32 + 3;
  schema_id = 0;
  incarnation = 1;
  pins = free_slot ∷ free_slot ∷ [];
}

-- Actor 9 is refused, the lease is taken from actor 7, and actor 9 gets it.
lease_held_by_iff_example :
    (lease_held_by (run leased (acquires 9 ∷ forces ∷ acquires 9 ∷ [])) 7 3 ≡ true)
    ↔ (ended leased (acquires 9 ∷ forces ∷ acquires 9 ∷ []) ≡ 0)
unfolding ended step acquire_write_lease force_release_write_lease
lease_held_by_iff_example =
    lease_held_by_iff leased 7 3 (acquires 9 ∷ forces ∷ acquires 9 ∷ []) refl (omega arith)
      (omega arith) (omega arith) (omega arith, omega arith, (omega arith, omega arith, tt))
      (omega arith)

write_locked_example : acquire_write_lease leased 9 ≡ (none, leased)
write_locked_example = write_locked leased 7 3 9 refl (omega arith) (omega arith) (omega arith)

find_slot-claim_slot_example :
    let h = record leased {
      pins = record { version = 5; manifest = 77; pins = 0; state = slot_live } ∷ free_slot ∷ [];
    } in
    Taken 5 77 0 leased.pins h.pins × (find_slot h 5 ≡ some 0)
unfolding claim_slot find_slot
find_slot-claim_slot_example =
    find_slot-claim_slot leased
      (record leased {
        pins = record { version = 5; manifest = 77; pins = 0; state = slot_live } ∷ free_slot ∷ [];
      })
      5 77 0 refl refl

-- A reader and a reclaimer of version 4 at its slot, when version 5 is installed and the head still
-- has the manifest of version 4.
abbrev meeting : System
meeting = record {
  shared = record {
    slot = record { version = 4; manifest = 77; pins = 0; state = slot_live };
    current = 5;
    manifest_desc = 77;
    incarnation = 1;
    released = [];
  };
  threads = publishing 4 1 ∷ finding_state 4 none ∷ [];
}

-- The reclaimer is elected between the two halves of the reader's pin, and scans it.
abbrev meeting_order : List ℕ
meeting_order = 1 ∷ 1 ∷ 1 ∷ 0 ∷ 0 ∷ 1 ∷ 0 ∷ 1 ∷ 0 ∷ 0 ∷ 0 ∷ []

meeting_lem : NoneGivesUp meeting meeting_order
unfolding schedule advance tally
meeting_lem =
    (refl, (refl, (refl, (refl, (refl, (refl, (refl, (refl, (refl, (refl, (refl, tt)))))))))))

pinned_protected_example :
    let s = Race.run meeting meeting_order in
    (s.shared.slot.state ≢ slot_free) × (0 < s.shared.slot.pins) × ((tally s.threads).past ≡ 0)
unfolding Race.run schedule advance
pinned_protected_example =
    pinned_protected meeting meeting_order 0 4 (inl refl, (inr refl, tt)) (omega arith) refl
      (λ e. omega (arith, e)) meeting_lem refl

current_released_example :
    let s = (Race.run (stale_start 4 77 5 79 1 6 88) stale_order).shared in
    (s.current ≡ 6)
    × (s.manifest_desc ≡ 88)
    × (s.slot.version ≡ 6)
    × (s.slot.state ≡ slot_freeing)
    × (s.released ≡ 88 ∷ 77 ∷ [])
current_released_example = current_released 4 77 5 79 1 6 88 (λ e. omega (arith, e))
