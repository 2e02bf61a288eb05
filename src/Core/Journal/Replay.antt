-- ===== src/Core/Journal/Replay.antt =====
-- What a replay yields.
use shm_actors.Prelude.{
  ok, ℕ, zero, suc, ◌+◌, ◌*◌, ◌/◌, ◌%◌, ◌≤◌, ◌<◌, ◌≡◌, ◌≢◌, refl, sym, ap, ◌∙◌, subst, Bool, true,
  false, Option, none, some, List, [], ◌∷◌, ◌++◌, arith, get_or, ◌==◌, if◌then◌else◌, Option-cases,
  inl, inr, ==_refl, ne→==_false,
}
use shm_actors.Core.Journal.{
  Journal, JournalRecord, zero_entry, valid_bits, is_occupied, to_record, replay_slot, replay_bits,
  replay_words, replay_indexed, record_entry,
}
use shm_actors.Core.Journal.Entries.{entry_of, Fits, to_record-entry_of}
use shm_actors.Core.Journal.Records.{IsJournal, record_entry-Recorded, in_range_valid, occupied_lem}

-- The record that a replay has for a slot.
abbrev pub lookup : List (ℕ × JournalRecord) → ℕ → Option JournalRecord
lookup [] i = none
lookup (r ∷ rest) i = if r.0 == i then some r.1 else lookup rest i

-- The record of an occupied slot.
abbrev pub held : Journal → ℕ → Bool → Option JournalRecord
held j i b = if b then to_record (get_or j.slots i zero_entry) else none

lookup-slot_other :
    (j : Journal) (idx i : ℕ) (b : Bool) (rest more : List (ℕ × JournalRecord))
    → idx ≢ i
    → lookup (replay_slot j idx b rest ++ more) i ≡ lookup (rest ++ more) i
lookup-slot_other j idx i false rest more n = refl
lookup-slot_other j idx i true rest more n =
    elim (Option-cases (to_record (get_or j.slots idx zero_entry))) [
      | inl q ↦ rw (q) refl
      | inr r ↦ rw (r.1, ne→==_false idx i n) refl
    ]

lookup-slot_self :
    (j : Journal) (idx : ℕ) (b : Bool) (rest more : List (ℕ × JournalRecord))
    → lookup (rest ++ more) idx ≡ none
    → lookup (replay_slot j idx b rest ++ more) idx ≡ held j idx b
lookup-slot_self j idx false rest more h = h
lookup-slot_self j idx true rest more h =
    elim (Option-cases (to_record (get_or j.slots idx zero_entry))) [
      | inl q ↦ rw (q) h
      | inr r ↦ rw (r.1, ==_refl idx) refl
    ]

-- Slots outside the word are left to the rest of the replay.
lookup-bits_outside :
    (j : Journal) (idx : ℕ) (bits : List Bool) (n i : ℕ) (more : List (ℕ × JournalRecord))
    → ((k : ℕ) → k < n → idx + k ≢ i)
    → lookup (replay_bits j idx bits n ++ more) i ≡ lookup more i
lookup-bits_outside j idx [] n i more h = refl
lookup-bits_outside j idx (b ∷ bs) zero i more h = refl
lookup-bits_outside j idx (b ∷ bs) (suc n) i more h =
    lookup-slot_other j idx i b (replay_bits j (suc idx) bs n) more
      (λ e. h 0 (omega arith) (omega (arith, e)))
    ∙ lookup-bits_outside j (suc idx) bs n i more
        (λ k l e. h (suc k) (omega arith) (omega (arith, e)))

lookup-bits_inside :
    (j : Journal) (idx : ℕ) (bits : List Bool) (n k : ℕ) (more : List (ℕ × JournalRecord))
    → k < n
    → lookup more (idx + k) ≡ none
    → lookup (replay_bits j idx bits n ++ more) (idx + k) ≡ held j (idx + k) (get_or bits k false)
lookup-bits_inside j idx [] n k more l h = h
lookup-bits_inside j idx (b ∷ bs) zero k more l h = absurd (omega arith)
lookup-bits_inside j idx (b ∷ bs) (suc n) zero more l h =
    subst (λ t. lookup (replay_slot j idx b (replay_bits j (suc idx) bs n) ++ more) t ≡ held j t b)
      (omega arith)
      (lookup-slot_self j idx b (replay_bits j (suc idx) bs n) more (
        lookup-bits_outside j (suc idx) bs n idx more (λ k _ e. omega (arith, e))
        ∙ ap (lookup more) (omega arith)
        ∙ h))
lookup-bits_inside j idx (b ∷ bs) (suc n) (suc k) more l h =
    lookup-slot_other j idx (idx + suc k) b (replay_bits j (suc idx) bs n) more
      (λ e. omega (arith, e))
    ∙ subst (λ t. lookup (replay_bits j (suc idx) bs n ++ more) t ≡ held j t (get_or bs k false))
        (omega arith)
        (lookup-bits_inside j (suc idx) bs n k more (omega arith)
          (ap (lookup more) (omega arith) ∙ h))

valid_bits_le : (j : Journal) (w : ℕ) → valid_bits j w ≤ 64
valid_bits_le j w = ground arith

-- Slots below the words to come are not in the rest of the replay.
lookup-words_below :
    (j : Journal) (bm : List (List Bool)) (w i : ℕ)
    → i < w * 64
    → lookup (replay_words j bm w) i ≡ none
lookup-words_below j [] w i l = refl
lookup-words_below j (bits ∷ bm) w i l =
    lookup-bits_outside j (w * 64) bits (valid_bits j w) i (replay_words j bm (suc w))
      (λ k _ e. omega (arith, e))
    ∙ lookup-words_below j bm (suc w) i (omega arith)

lookup-words :
    (j : Journal) (bm : List (List Bool)) (w v b : ℕ)
    → b < valid_bits j (w + v)
    → lookup (replay_words j bm w) ((w + v) * 64 + b)
      ≡ held j ((w + v) * 64 + b) (get_or (get_or bm v []) b false)
lookup-words j [] w v b l = refl
lookup-words j (bits ∷ bm) w zero b l =
    subst
      (λ t.
        lookup (replay_words j (bits ∷ bm) w) (t * 64 + b)
        ≡ held j (t * 64 + b) (get_or bits b false))
      (omega arith)
      (lookup-bits_inside j (w * 64) bits (valid_bits j w) b (replay_words j bm (suc w))
        (subst (λ t. b < valid_bits j t) (omega arith) l)
        (lookup-words_below j bm (suc w) (w * 64 + b) (omega (arith, l, valid_bits_le j (w + 0)))))
lookup-words j (bits ∷ bm) w (suc v) b l =
    lookup-bits_outside j (w * 64) bits (valid_bits j w) ((w + suc v) * 64 + b)
      (replay_words j bm (suc w)) (λ k m e. omega (arith, e, m, valid_bits_le j w))
    ∙ subst
        (λ t.
          lookup (replay_words j bm (suc w)) (t * 64 + b)
          ≡ held j (t * 64 + b) (get_or (get_or bm v []) b false))
        (omega arith)
        (lookup-words j bm (suc w) v b (subst (λ t. b < valid_bits j t) (omega arith) l))

-- A replay has, for every slot of the journal, the record that its entry decodes to if the slot
-- is occupied and the entry's kind is known, and nothing otherwise.
pub lookup-replay_indexed :
    (j : Journal) (i : ℕ)
    → i < j.capacity
    → lookup (replay_indexed j) i ≡ held j i (is_occupied j i)
unfolding replay_indexed
lookup-replay_indexed j i l =
    subst
      (λ t.
        lookup (replay_words j j.bitmap 0) t
        ≡ held j t (get_or (get_or j.bitmap (i / 64) []) (i % 64) false))
      (omega arith)
      (lookup-words j j.bitmap 0 (i / 64) (i % 64)
        (subst (λ t. i % 64 < valid_bits j t) (omega arith) (in_range_valid j i l).1))
    ∙ ap (held j i) (sym (occupied_lem j i l))

-- A slot that is occupied is one of the journal's.
occupied_in_range : (j : Journal) (i : ℕ) → is_occupied j i ≡ true → i < j.capacity
unfolding is_occupied
occupied_in_range j i h = ground arith

-- What an actor recorded is what a replay finds in the slot that it was given, whatever it holds
-- besides.
pub replay-record_entry :
    (j : Journal) (r : JournalRecord) (i : ℕ) (j' : Journal)
    → IsJournal j
    → Fits r
    → record_entry j (entry_of r) ≡ ok (i, j')
    → lookup (replay_indexed j') i ≡ some r
replay-record_entry j r i j' v f e =
    let done = record_entry-Recorded j (entry_of r) i j' v e in
    lookup-replay_indexed j' i (occupied_in_range j' i done.taken)
    ∙ ap (held j' i) done.taken
    ∙ ap to_record done.written
    ∙ to_record-entry_of r f
