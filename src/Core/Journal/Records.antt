-- ===== src/Core/Journal/Records.antt =====
-- What recording an entry does to the journal: it takes one slot, which was free.
use shm_actors.Prelude.{
  ℕ, zero, suc, ◌+◌, ◌*◌, ◌/◌, ◌%◌, ◌<◌, ◌≡◌, ◌≢◌, inl, inr, refl, sym, ap, ◌∙◌, subst, true, false,
  Option, none, some, [], ok, arith, length, get_or, set, length-set, Option-cases, get_or-set_self,
  get_or-set_ne, if◌then◌else◌, leb, ok-injective, err≢ok,
}
use mathlib.Core.Path.{ap₂}
use native.Mathlib.Nat.{mod-lt}
use shm_actors.Core.Journal.{
  Journal, JournalEntry, zero_entry, words, word, valid_bits, recorded, record_at, scan,
  record_entry, bit_at, is_occupied, first_clear,
}
use shm_actors.Core.Journal.Bitmap.{
  Shaped, put-Shaped, bit_at-put_self, bit_at-put_ne, first_clear-some,
}

-- A journal as `create` lays it out.
pub record IsJournal (j : Journal) : Type 0 where
  pub positive : 0 < j.capacity
  pub bits : length j.bitmap ≡ words j
  pub shaped : Shaped j.bitmap
  pub entries : length j.slots ≡ j.capacity

-- The bits that count in a word are those of the slots.
valid_in_range :
    (j : Journal) (w b : ℕ)
    → w < words j
    → b < valid_bits j w
    → (b < 64) × (w * 64 + b < j.capacity)
valid_in_range j w b h l = ground arith

pub in_range_valid :
    (j : Journal) (i : ℕ) → i < j.capacity → (i / 64 < words j) × (i % 64 < valid_bits j (i / 64))
in_range_valid j i h = ground arith

pub occupied_lem : (j : Journal) (i : ℕ) → i < j.capacity → is_occupied j i ≡ bit_at j.bitmap i
unfolding is_occupied
occupied_lem j i h = ground arith

-- What recording `entry` did: slot `i` was free and holds it now, and no other slot changed.
pub record Recorded (j : Journal) (entry : JournalEntry) (i : ℕ) (j' : Journal) : Type 0 where
  pub in_range : i < j.capacity
  pub was_free : is_occupied j i ≡ false
  pub taken : is_occupied j' i ≡ true
  pub written : get_or j'.slots i zero_entry ≡ entry
  pub bits_kept : (k : ℕ) → k ≢ i → is_occupied j' k ≡ is_occupied j k
  pub slots_kept : (k : ℕ) → k ≢ i → get_or j'.slots k zero_entry ≡ get_or j.slots k zero_entry
  pub valid : IsJournal j'

recorded-Recorded :
    (j : Journal) (entry : JournalEntry) (w b : ℕ)
    → IsJournal j
    → w < words j
    → first_clear (word j w) (valid_bits j w) ≡ some b
    → Recorded j entry (w * 64 + b) (recorded j entry w b)
unfolding is_occupied
recorded-Recorded j entry w b v h e =
    let clear = first_clear-some (word j w) (valid_bits j w) b e in
    let ranges = valid_in_range j w b h clear.0 in
    let w_in : w < length j.bitmap = omega (arith, v.bits) in
    let i_in : w * 64 + b < length j.slots = omega (arith, v.entries, ranges.1) in
    record {
      in_range = ranges.1;
      was_free =
          occupied_lem j (w * 64 + b) ranges.1
          ∙ ap₂ (λ p q. get_or (get_or j.bitmap p []) q false) (omega (arith, ranges.0))
              (omega (arith, ranges.0))
          ∙ clear.2;
      taken =
          occupied_lem (recorded j entry w b) (w * 64 + b) ranges.1
          ∙ bit_at-put_self j.bitmap w b true v.shaped w_in (w * 64 + b) ranges.0 refl;
      written = get_or-set_self j.slots (w * 64 + b) entry zero_entry i_in;
      bits_kept = λ k n.
          ap (λ t. if leb j.capacity k then false else t)
            (bit_at-put_ne j.bitmap w b true v.shaped w_in k ranges.0 n);
      slots_kept = λ k n. get_or-set_ne j.slots (w * 64 + b) k entry zero_entry (λ q. n (sym q));
      valid = record {
        positive = v.positive;
        bits = length-set j.bitmap w (set (word j w) b true) ∙ v.bits;
        shaped = put-Shaped j.bitmap w b true v.shaped w_in;
        entries = length-set j.slots (w * 64 + b) entry ∙ v.entries;
      };
    }

-- One step of the loop: the word's first clear bit, or the rest of the loop.
pub scan_step :
    (j : Journal) (entry : JournalEntry) (start step n : ℕ) (o : Option ℕ)
    → first_clear (word j ((start + step) % words j)) (valid_bits j ((start + step) % words j)) ≡ o
    → scan j entry start step (suc n)
      ≡ record_at j entry ((start + step) % words j) o (scan j entry start (suc step) n)
scan_step j entry start step n o q =
    ap (λ t. record_at j entry ((start + step) % words j) t (scan j entry start (suc step) n)) q

pub scan-Recorded :
    (j : Journal) (entry : JournalEntry) (start step n i : ℕ) (j' : Journal)
    → IsJournal j
    → scan j entry start step n ≡ ok (i, j')
    → Recorded j entry i j'
scan-Recorded j entry start step zero i j' v e = absurd (err≢ok e)
scan-Recorded j entry start step (suc n) i j' v e =
    elim (Option-cases (first_clear (word j w) (valid_bits j w))) [
      | inl full ↦
          scan-Recorded j entry start (suc step) n i j' v
            (sym (scan_step j entry start step n none full) ∙ e)
      | inr found ↦
          let same =
            ok-injective (sym (scan_step j entry start step n (some found.0) found.1) ∙ e) in
          subst {A = ℕ × Journal} (λ r. Recorded j entry r.0 r.1) same
            (recorded-Recorded j entry w found.0 v w_in found.1)
    ]
  where
    w : ℕ
    w = (start + step) % words j

    w_in : w < words j
    w_in = mod-lt (start + step) (omega (arith, v.positive))

-- Recording an entry returns a slot that was free, which then holds the entry, and changes no
-- other slot.
pub record_entry-Recorded :
    (j : Journal) (entry : JournalEntry) (i : ℕ) (j' : Journal)
    → IsJournal j
    → record_entry j entry ≡ ok (i, j')
    → Recorded j entry i j'
unfolding record_entry
record_entry-Recorded j entry i j' v e =
    scan-Recorded j entry (j.hint / 64 % words j) 0 (words j) i j' v e
