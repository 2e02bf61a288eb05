-- ===== src/Core/Journal/Created.antt =====
-- A new journal is empty.
use shm_actors.Prelude.{
  ℕ, zero, suc, ◌+◌, ◌/◌, ◌%◌, ◌<◌, ◌≡◌, refl, subst, false, ok, [], arith, get_or, replicate,
  length-replicate, get_or-replicate, leb, Bool-cases, inl, inr,
}
use shm_actors.Core.Pool.{Segment}
use shm_actors.Core.Journal.{Journal, create, new_journal, zero_word, zero_entry, is_occupied}
use shm_actors.Core.Journal.Bitmap.{Shaped}
use shm_actors.Core.Journal.Records.{IsJournal}

Shaped-replicate : (n : ℕ) → Shaped (replicate n zero_word)
Shaped-replicate zero = tt
Shaped-replicate (suc n) = (refl, Shaped-replicate n)

get_or-zero_words : (n w b : ℕ) → get_or (get_or (replicate n zero_word) w []) b false ≡ false
get_or-zero_words zero w b = refl
get_or-zero_words (suc n) zero b = get_or-replicate 64 b false
get_or-zero_words (suc n) (suc w) b = get_or-zero_words n w b

create_inv :
    (segment : Segment) (capacity : ℕ) (j : Journal)
    → create segment capacity ≡ ok j
    → (new_journal capacity ≡ j) × (0 < capacity)
unfolding create
create_inv segment capacity j e = grind arith

new_journal_free : (capacity i : ℕ) → is_occupied (new_journal capacity) i ≡ false
unfolding is_occupied
new_journal_free capacity i = elim (Bool-cases (leb capacity i)) [
  | inl q ↦ rw (q) refl
  | inr q ↦ rw (q) (get_or-zero_words ((capacity + 63) / 64) (i / 64) (i % 64))
]

-- A journal that `create` makes is laid out for the operations, has room for what was asked,
-- and holds nothing.
pub create-IsJournal :
    (segment : Segment) (capacity : ℕ) (j : Journal)
    → create segment capacity ≡ ok j
    → IsJournal j × (j.capacity ≡ capacity) × ((i : ℕ) → is_occupied j i ≡ false)
create-IsJournal segment capacity j e =
    let inv = create_inv segment capacity j e in
    subst (λ j. IsJournal j × (j.capacity ≡ capacity) × ((i : ℕ) → is_occupied j i ≡ false)) inv.0
      (
        record {
          positive = inv.1;
          bits = length-replicate ((capacity + 63) / 64) zero_word;
          shaped = Shaped-replicate ((capacity + 63) / 64);
          entries = length-replicate capacity zero_entry;
        },
        refl,
        new_journal_free capacity,
      )
