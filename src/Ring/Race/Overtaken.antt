-- ===== src/Ring/Race/Overtaken.antt =====
-- A subscriber exactly one capacity behind, read against a producer that begins its next message.
use shm_actors.Prelude.{
  zero, suc, ◌<◌, ◌==◌, if◌then◌else◌, length, set, refl, ==_iff, ℕ, ◌+◌, ◌%◌, ◌≡◌, List, [], ◌∷◌,
  arith, get_or, ◌∙◌, sym, ap, get_or-set_self,
}
use shm_actors.Core.Desc.{ChunkDesc, zero_desc}
use shm_actors.Ring.{Ring, Slot, empty_slot, head, slot_index, sample}
use shm_actors.Ring.Log.{Holds}
use shm_actors.Ring.Geometry.{capacity_pos, slot_index-mod, slot_index-lt}
use shm_actors.Ring.Race.{
  Writer, writing, wrote_desc, gated, matched, raced, put_field, with_slot, Turn, idle, reading,
  returned, slot_at, producer, subscriber, turn, run, write_step, read_step,
}
use shm_actors.Ring.Race.Fields.{mix}
use native.Mathlib.Nat.{add-mod_right}

-- Both tests of a subscriber about the producer's seven accesses up to the end of the descriptor.
abbrev pub overtaking : List Turn
overtaking =
    subscriber ∷ subscriber ∷ producer ∷ producer ∷ producer ∷ producer ∷ producer ∷ producer
    ∷ producer ∷ subscriber ∷ subscriber ∷ subscriber ∷ subscriber ∷ subscriber ∷ subscriber
    ∷ subscriber ∷ []

-- A second write to a slot.
set_again : (xs : List Slot) (i : ℕ) (a b : Slot) → set (set xs i a) i b ≡ set xs i b
set_again [] i a b = refl
set_again (x ∷ xs) zero a b = refl
set_again (x ∷ xs) (suc i) a b = ap (λ t. x ∷ t) (set_again xs i a b)

module _ (msgs : ℕ → ChunkDesc) where
  abbrev produce : Writer × Ring → Writer × Ring
  produce p = write_step msgs p.0 p.1

  -- A field is written into a slot that has been written to before.
  write_again :
      (n seq : ℕ) (r : Ring) (s : Slot)
      → slot_index r seq < length r.region.slots
      → write_step msgs (writing n seq) (with_slot r seq s) ≡ (
        if n == 5 then wrote_desc seq else writing (suc n) seq,
        with_slot r seq (record s { desc = put_field n (msgs seq) s.desc }),
      )
  unfolding write_step
  write_again n seq r s l = λ i. (
    if n == 5 then wrote_desc seq else writing (suc n) seq,
    record r { region = record { header = r.region.header; slots = twice i } },
  )
    where
      here : slot_at (with_slot r seq s) seq ≡ s
      here = get_or-set_self r.region.slots (slot_index r seq) s empty_slot l

      twice :
          set
            (set r.region.slots (slot_index r seq) s)
            (slot_index r seq)
            (record (slot_at (with_slot r seq s) seq) {
              desc = put_field n (msgs seq) (slot_at (with_slot r seq s) seq).desc;
            })
          ≡ set r.region.slots
              (slot_index r seq)
              (record s { desc = put_field n (msgs seq) s.desc })
      twice =
          set_again r.region.slots (slot_index r seq) s _
          ∙ ap
              (λ (t : Slot).
                set r.region.slots (slot_index r seq)
                  (record t { desc = put_field n (msgs seq) t.desc }))
              here

  -- The seven accesses of the producer.
  written_over :
      (r : Ring)
      → slot_index r (head r) < length r.region.slots
      → produce (produce (produce (produce (produce (produce (produce (idle, r))))))) ≡ (
        wrote_desc (head r),
        with_slot r (head r) (record (slot_at r (head r)) { desc = msgs (head r) }),
      )
  unfolding write_step
  written_over r l =
      ap (λ p. produce (produce (produce (produce p)))) (write_again 1 (head r) r (part 1) l)
      ∙ ap (λ p. produce (produce (produce p))) (write_again 2 (head r) r (part 2) l)
      ∙ ap (λ p. produce (produce p)) (write_again 3 (head r) r (part 3) l)
      ∙ ap produce (write_again 4 (head r) r (part 4) l)
      ∙ write_again 5 (head r) r (part 5) l
    where
      part : ℕ → Slot
      part n = record (slot_at r (head r)) {
        desc = mix n (msgs (head r)) (slot_at r (head r)).desc;
      }

-- The fields are copied, and the second test passes.
copied_over :
    (msgs : ℕ → ChunkDesc) (cursor : ℕ) (w : Writer) (r : Ring)
    → (slot_at r cursor).seq ≡ cursor
    → (run msgs cursor
        (record { ring = r; writer = w; reader = matched 0 zero_desc })
        (subscriber ∷ subscriber ∷ subscriber ∷ subscriber ∷ subscriber ∷ subscriber ∷ subscriber
          ∷ [])).reader
      ≡ returned (sample (slot_at r cursor).desc)
unfolding run turn read_step
copied_over msgs cursor w r e =
    ap (λ b. if b then returned (sample (slot_at r cursor).desc) else raced)
      ((==_iff (slot_at r cursor).seq cursor).1 e)

-- The producer writes the descriptor of message `cursor + capacity` into the slot of message
-- `cursor` before it moves the slot's `seq`, so that a subscriber that reads in between takes the
-- new descriptor for the old one: both tests of `seq` pass. This is so for every ring that is full
-- from `cursor` on.
pub overtaken :
    (msgs : ℕ → ChunkDesc) (k : ℕ) (log : List ChunkDesc) (r : Ring) (cursor : ℕ)
    → Holds k log r
    → head r ≡ cursor + r.capacity
    → (run msgs cursor (record { ring = r; writer = idle; reader = reading }) overtaking).reader
      ≡ returned (sample (msgs (cursor + r.capacity)))
unfolding run turn write_step read_step
overtaken msgs k log r cursor v full =
    ap
      (λ p.
        (run msgs cursor (record { ring = r; writer = idle; reader = p })
          (producer ∷ producer ∷ producer ∷ producer ∷ producer ∷ producer ∷ producer
            ∷ copies)).reader)
      tests_pass
    ∙ ap
        (λ (p : Writer × Ring).
          (run msgs cursor (record { ring = p.1; writer = p.0; reader = matched 0 zero_desc })
            copies).reader)
        (written_over msgs r (slot_index-lt v.shape (head r)))
    ∙ copied_over msgs cursor (wrote_desc (head r)) (with_slot r (head r) written) seq_kept
    ∙ ap (λ (s : Slot). returned (sample s.desc)) here
    ∙ ap (λ n. returned (sample (msgs n))) full
  where
    same : slot_index r (head r) ≡ slot_index r cursor
    same =
        slot_index-mod v.shape (head r)
        ∙ ap (λ n. n % r.capacity) full
        ∙ add-mod_right cursor r.capacity
        ∙ sym (slot_index-mod v.shape cursor)

    held : (slot_at r cursor).seq ≡ cursor
    held =
        ap (λ i. (get_or r.region.slots i empty_slot).seq) (slot_index-mod v.shape cursor)
        ∙ ap (λ (s : Slot). s.seq)
            (v.live cursor (omega (arith, v.counted, capacity_pos v.shape))
              (omega (arith, v.counted)))

    copies : List Turn
    copies =
        subscriber ∷ subscriber ∷ subscriber ∷ subscriber ∷ subscriber ∷ subscriber ∷ subscriber
        ∷ []

    written : Slot
    written = record (slot_at r (head r)) { desc = msgs (head r) }

    here : slot_at (with_slot r (head r) written) cursor ≡ written
    here =
        ap (λ i. get_or (with_slot r (head r) written).region.slots i empty_slot) (sym same)
        ∙ get_or-set_self r.region.slots (slot_index r (head r)) written empty_slot
            (slot_index-lt v.shape (head r))

    seq_kept : (slot_at (with_slot r (head r) written) cursor).seq ≡ cursor
    seq_kept =
        ap (λ (s : Slot). s.seq) here
        ∙ ap (λ i. (get_or r.region.slots i empty_slot).seq) same
        ∙ held

    gate : read_step cursor reading r ≡ gated
    gate = ground (arith, full, capacity_pos v.shape)

    tests_pass : read_step cursor (read_step cursor reading r) r ≡ matched 0 zero_desc
    tests_pass =
        ap (λ p. read_step cursor p r) gate
        ∙ ap (λ b. if b then matched 0 zero_desc else raced)
            ((==_iff (slot_at r cursor).seq cursor).1 held)
