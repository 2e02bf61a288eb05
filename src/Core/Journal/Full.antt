-- ===== src/Core/Journal/Full.antt =====
-- When the journal is full, and what releasing a slot does.
use mathlib.Core.Bool.{true≢false}
use native.Mathlib.Nat.{mod-lt, mod-eq_of_lt, add-mod_right}
use shm_actors.Prelude.{
  ℕ, zero, suc, ◌+◌, ◌-◌, ◌*◌, ◌/◌, ◌%◌, ◌^◌, ◌≤◌, ◌<◌, ◌≡◌, ◌≢◌, ◌⊎◌, ◌↔◌, inl, inr, refl, sym, ap,
  ◌∙◌, subst, true, false, none, some, ok, err, arith, length, set, length-set, Option-cases,
  if◌then◌else◌, leb, lt→leb_false, err≢ok, dec_lt, ℕ_discrete,
}
use shm_actors.Core.Error.{journal_full}
use shm_actors.Core.Journal.{
  Journal, JournalEntry, words, word, valid_bits, recorded, scan, record_entry, bit_at, put_bit,
  release, is_occupied, first_clear,
}
use shm_actors.Core.Journal.Bitmap.{
  Shaped-elem, put-Shaped, bit_at-put_self, bit_at-put_ne, first_clear-none,
}
use shm_actors.Core.Journal.Records.{
  IsJournal, scan_step, scan-Recorded, in_range_valid, occupied_lem,
}

-- A loop that fails has found the words of its rounds full.
scan_full :
    (j : Journal) (entry : JournalEntry) (start step n s : ℕ)
    → scan j entry start step n ≡ err journal_full
    → step ≤ s
    → s < step + n
    → first_clear (word j ((start + s) % words j)) (valid_bits j ((start + s) % words j)) ≡ none
scan_full j entry start step zero s e l m = absurd (omega arith)
scan_full j entry start step (suc n) s e l m =
    elim (Option-cases
      (first_clear (word j ((start + step) % words j)) (valid_bits j ((start + step) % words j)))) [
        | inl full ↦ elim (ℕ_discrete step s) [
          | yes q ↦
              subst
                (λ s.
                  first_clear (word j ((start + s) % words j))
                    (valid_bits j ((start + s) % words j))
                  ≡ none)
                q full
          | no ne ↦
              scan_full j entry start (suc step) n s
                (sym (scan_step j entry start step n none full) ∙ e) (omega arith) (omega arith)
        ]
        | inr found ↦
            absurd (err≢ok (sym e ∙ scan_step j entry start step n (some found.0) found.1))
      ]

-- Every word has its round.
round_of : (start w n : ℕ) → start < n → w < n → (s : ℕ) × (s < n) × ((start + s) % n ≡ w)
round_of start w n h l = elim (dec_lt w start) [
  | yes before ↦ (
    w + n - start,
    omega arith,
    ap (λ t. t % n) (omega arith) ∙ add-mod_right w n ∙ mod-eq_of_lt l,
  )
  | no after ↦ (w - start, omega arith, ap (λ t. t % n) (omega arith) ∙ mod-eq_of_lt l)
]

-- A loop ends with a slot or with the one error.
scan_outcome :
    (j : Journal) (entry : JournalEntry) (start step n : ℕ)
    → (scan j entry start step n ≡ err journal_full)
      ⊎ ((r : ℕ × Journal) × (scan j entry start step n ≡ ok r))
scan_outcome j entry start step zero = inl refl
scan_outcome j entry start step (suc n) =
    let rest = scan_outcome j entry start (suc step) n in
    elim (Option-cases
      (first_clear (word j ((start + step) % words j)) (valid_bits j ((start + step) % words j)))) [
        | inl full ↦ elim rest [
          | inl e ↦ inl (scan_step j entry start step n none full ∙ e)
          | inr r ↦ inr (r.0, scan_step j entry start step n none full ∙ r.1)
        ]
        | inr found ↦ inr (
          (
            (start + step) % words j * 64 + found.0,
            recorded j entry ((start + step) % words j) found.0,
          ),
          scan_step j entry start step n (some found.0) found.1,
        )
      ]

-- Recording in a journal answers with a slot that was free, or fails with JournalFull, and with no
-- other error. It fails exactly when every slot is occupied.
pub journal_full_iff :
    (j : Journal) (entry : JournalEntry)
    → IsJournal j
    → (((r : ℕ × Journal) × (record_entry j entry ≡ ok r)
          × (r.0 < j.capacity)
          × (is_occupied j r.0 ≡ false))
        ⊎ (record_entry j entry ≡ err journal_full))
      × ((record_entry j entry ≡ err journal_full)
          ↔ ((i : ℕ) → i < j.capacity → is_occupied j i ≡ true))
unfolding record_entry
journal_full_iff j entry v = (outcome, (full, refuses))
  where
    start : ℕ
    start = j.hint / 64 % words j

    outcome :
        ((r : ℕ × Journal) × (scan j entry start 0 (words j) ≡ ok r)
          × (r.0 < j.capacity)
          × (is_occupied j r.0 ≡ false))
        ⊎ (scan j entry start 0 (words j) ≡ err journal_full)
    outcome = elim (scan_outcome j entry start 0 (words j)) [
      | inl e ↦ inr e
      | inr r ↦
          let got = scan-Recorded j entry start 0 (words j) r.0.0 r.0.1 v r.1 in
          inl (r.0, r.1, got.in_range, got.was_free)
    ]

    full :
        scan j entry start 0 (words j) ≡ err journal_full
        → (i : ℕ) → i < j.capacity
        → is_occupied j i ≡ true
    full e i l =
        let valid = in_range_valid j i l in
        let round =
          round_of start (i / 64) (words j) (mod-lt (j.hint / 64) (omega (arith, v.positive)))
            valid.0 in
        let word_full =
          subst (λ w. first_clear (word j w) (valid_bits j w) ≡ none) round.2
            (scan_full j entry start 0 (words j) round.0 e (omega arith)
              (omega (arith, round.1))) in
        occupied_lem j i l
        ∙ first_clear-none (word j (i / 64)) (valid_bits j (i / 64)) (i % 64) word_full valid.1
            (omega (arith, Shaped-elem j.bitmap (i / 64) v.shaped (omega (arith, v.bits, valid.0))))

    refuses :
        ((i : ℕ) → i < j.capacity → is_occupied j i ≡ true)
        → scan j entry start 0 (words j) ≡ err journal_full
    refuses all = elim (scan_outcome j entry start 0 (words j)) [
      | inl e ↦ e
      | inr r ↦
          let got = scan-Recorded j entry start 0 (words j) r.0.0 r.0.1 v r.1 in
          absurd (true≢false (sym (all r.0.0 got.in_range) ∙ got.was_free))
    ]

-- What releasing a slot does.
pub record Released (j : Journal) (i : ℕ) (j' : Journal) : Type 0 where
  pub cleared : is_occupied j' i ≡ false
  pub others_kept : (k : ℕ) → k ≢ i → is_occupied j' k ≡ is_occupied j k
  pub entries_kept : j'.slots ≡ j.slots
  pub stays : IsJournal j'

-- Releasing a slot of the journal answers whether it was occupied, and frees it and no other: of
-- two calls on an occupied slot the first is told to drop the borrow and the second is not.
pub release_elects :
    (j : Journal) (i : ℕ)
    → IsJournal j
    → i < j.capacity
    → (j' : Journal) × (release j i ≡ ok (is_occupied j i, j'))
      × Released j i j'
      × ((j'' : Journal) × (release j' i ≡ ok (false, j'')))
unfolding release is_occupied
release_elects j i v l = (after, released, effect, (after_again, again))
  where
    after : Journal
    after = record j { bitmap = put_bit j.bitmap i false; hint = i % 2 ^ 32 }

    after_again : Journal
    after_again = record after { bitmap = put_bit after.bitmap i false; hint = i % 2 ^ 32 }

    w_in : i / 64 < length j.bitmap
    w_in = omega (arith, v.bits)

    cleared : bit_at after.bitmap i ≡ false
    cleared =
        bit_at-put_self j.bitmap (i / 64) (i % 64) false v.shaped w_in i (omega arith) (omega arith)

    released : release j i ≡ ok (is_occupied j i, after)
    released = rw (lt→leb_false j.capacity i l) refl

    again : release after i ≡ ok (false, after_again)
    again = rw (lt→leb_false j.capacity i l, cleared) refl

    effect : Released j i after
    effect = record {
      cleared = occupied_lem after i l ∙ cleared;
      others_kept = λ k n.
          ap (λ t. if leb j.capacity k then false else t)
            (bit_at-put_ne j.bitmap (i / 64) (i % 64) false v.shaped w_in k (omega arith)
              (λ e. n (omega (arith, e))));
      entries_kept = refl;
      stays = record {
        positive = v.positive;
        bits = length-set j.bitmap (i / 64) (set (word j (i / 64)) (i % 64) false) ∙ v.bits;
        shaped = put-Shaped j.bitmap (i / 64) (i % 64) false v.shaped w_in;
        entries = v.entries;
      };
    }
