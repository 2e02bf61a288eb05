-- ===== src/Core/Journal/Entries.antt =====
-- The four entries decode to what they were built from.
use shm_actors.Prelude.{ℕ, ◌/◌, ◌%◌, ◌^◌, ◌<◌, ◌≡◌, refl, ap, some, arith}
use shm_actors.Core.Journal.{
  JournalEntry, JournalRecord, to_record, chunk_pin, artifact_pin, write_lease, staged_manifest,
  chunk_pinned, artifact_pinned, lease_held, manifest_staged, join_words,
}

-- What an actor holds: the arguments of the four builders.
unfoldable pub entry_of : JournalRecord → JournalEntry
unfolding chunk_pin artifact_pin write_lease staged_manifest
entry_of (chunk_pinned d) = chunk_pin d
entry_of (artifact_pinned a i v) = artifact_pin a i v
entry_of (lease_held a i f) = write_lease a i f
entry_of (manifest_staged a i m g) = staged_manifest a i m g

-- The 64-bit field of a record fits its two words.
abbrev pub Fits : JournalRecord → Type 0
Fits (artifact_pinned a i v) = v < 2 ^ 64
Fits (manifest_staged a i m g) = m < 2 ^ 64
Fits _ = Unit {0}

join_split : (v : ℕ) → v < 2 ^ 64 → join_words (v % 2 ^ 32) (v / 2 ^ 32 % 2 ^ 32) ≡ v
join_split v h = omega arith

-- Each of the four builders makes an entry that decodes to its arguments, for a version or a
-- manifest of 64 bits.
pub to_record-entry_of : (r : JournalRecord) → Fits r → to_record (entry_of r) ≡ some r
unfolding to_record entry_of
to_record-entry_of (chunk_pinned d) h = refl
to_record-entry_of (artifact_pinned a i v) h =
    ap (λ t. some (artifact_pinned a i t)) (join_split v h)
to_record-entry_of (lease_held a i f) h = refl
to_record-entry_of (manifest_staged a i m g) h =
    ap (λ t. some (manifest_staged a i t g)) (join_split m h)
