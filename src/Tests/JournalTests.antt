-- ===== src/Tests/JournalTests.antt =====
-- A journal of two slots at concrete values.
use shm_actors.Prelude.{◌⊎◌, ℕ, ◌≡◌, ◌↔◌, ◌<◌, refl, ok, err, some, true, false, arith}
use shm_actors.Core.Error.{journal_full}
use shm_actors.Core.Pool.{Segment}
use shm_actors.Core.Journal.{
  Journal, JournalEntry, new_journal, create, release, record_entry, is_occupied, len, attach,
  write_lease, artifact_pinned, replay_indexed, recorded,
}
use shm_actors.Core.Journal.Entries.{entry_of}
use shm_actors.Core.Journal.Records.{IsJournal, record_entry-Recorded}
use shm_actors.Core.Journal.Full.{Released, journal_full_iff, release_elects}
use shm_actors.Core.Journal.Created.{create-IsJournal}
use shm_actors.Core.Journal.Replay.{lookup, replay-record_entry}

abbrev segment : Segment
segment = record { id = 9; payload_len = 4096 }

abbrev two_slots : Journal
two_slots = new_journal 2

two_slots_created : create segment 2 ≡ ok two_slots
unfolding create
two_slots_created = refl

two_slots-IsJournal : IsJournal two_slots
two_slots-IsJournal = (create-IsJournal segment 2 two_slots two_slots_created).0

-- After an artifact pin in slot 0.
abbrev pin_entry : JournalEntry
pin_entry = record { kind = 2; pad = 0; w0 = 5; w1 = 4; w2 = 1; w3 = 1; w4 = 0; w5 = 0 }

abbrev pinned : Journal
pinned = recorded two_slots pin_entry 0 0

pin_recorded : record_entry two_slots pin_entry ≡ ok (0, pinned)
unfolding record_entry
pin_recorded = refl

pin_recorded_entry_of :
    record_entry two_slots (entry_of (artifact_pinned 5 1 4294967300)) ≡ ok (0, pinned)
unfolding record_entry entry_of
pin_recorded_entry_of = refl

pinned-IsJournal : IsJournal pinned
pinned-IsJournal =
    (record_entry-Recorded two_slots pin_entry 0 pinned two_slots-IsJournal pin_recorded).valid

attach_example : attach pinned ≡ ok pinned
unfolding attach
attach_example = refl

len_example : len pinned ≡ 1
unfolding len
len_example = refl

journal_full_iff_example :
    (((r : ℕ × Journal) × (record_entry pinned (write_lease 5 1 2) ≡ ok r)
        × (r.0 < 2)
        × (is_occupied pinned r.0 ≡ false))
      ⊎ (record_entry pinned (write_lease 5 1 2) ≡ err journal_full))
    × ((record_entry pinned (write_lease 5 1 2) ≡ err journal_full)
        ↔ ((i : ℕ) → i < 2 → is_occupied pinned i ≡ true))
journal_full_iff_example = journal_full_iff pinned (write_lease 5 1 2) pinned-IsJournal

release_elects_example :
    (j : Journal) × (release pinned 0 ≡ ok (true, j))
    × Released pinned 0 j
    × ((j' : Journal) × (release j 0 ≡ ok (false, j')))
unfolding is_occupied
release_elects_example = release_elects pinned 0 pinned-IsJournal (omega arith)

replay-record_entry_example :
    lookup (replay_indexed pinned) 0 ≡ some (artifact_pinned 5 1 4294967300)
replay-record_entry_example =
    replay-record_entry two_slots (artifact_pinned 5 1 4294967300) 0 pinned two_slots-IsJournal
      (omega arith) pin_recorded_entry_of
