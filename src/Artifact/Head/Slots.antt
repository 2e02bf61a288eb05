-- ===== src/Artifact/Head/Slots.antt =====
-- The table of pin slots: a slot is claimed, and looked for.
use shm_actors.Prelude.{
  ℕ, suc, ◌+◌, ◌≡◌, ◌≢◌, inl, inr, refl, sym, ap, subst, ◌∙◌, Bool, Option, none, some, List, [],
  ◌∷◌, arith, ◌==◌, ◌&&◌, if◌then◌else◌, ==_refl, ==_iff, Bool-cases,
}
use shm_actors.Artifact.Head.{
  ArtifactHead, PinSlot, slot_free, slot_live, first_slot, find_slot, claim_from, claim_slot,
}

abbrev tracks : ℕ → PinSlot → Bool
tracks v s = s.state == slot_live && s.version == v

-- The `k`-th slot is the first free one, and is taken for a version.
pub data Taken (v m : ℕ) : ℕ → List PinSlot → List PinSlot → Type 0 where
  here :
      {s : PinSlot} {ss : List PinSlot}
      → s.state ≡ slot_free
      → Taken v m 0 (s ∷ ss) (record s { state = slot_live; manifest = m; version = v } ∷ ss)
  there :
      {s : PinSlot} {k : ℕ} {ss ss' : List PinSlot}
      → s.state ≢ slot_free
      → Taken v m k ss ss'
      → Taken v m (suc k) (s ∷ ss) (s ∷ ss')

-- A claim from the `i`-th slot on.
abbrev Claims : ℕ → ℕ → ℕ → List PinSlot → Option ℕ × List PinSlot → Type 0
Claims v m i ss (none, ss') = ss' ≡ ss
Claims v m i ss (some j, ss') = (k : ℕ) × (j ≡ i + k) × Taken v m k ss ss'

then_Claims :
    (v m i : ℕ) (s : PinSlot) (ss : List PinSlot) (r : Option ℕ × List PinSlot)
    → s.state ≢ slot_free
    → Claims v m (suc i) ss r
    → Claims v m i (s ∷ ss) (r.0, s ∷ r.1)
then_Claims v m i s ss (none, ss') n c = ap (λ t. s ∷ t) c
then_Claims v m i s ss (some j, ss') n c = (suc c.0, omega (arith, c.1), there n c.2)

claim_from-Claims : (v m i : ℕ) (ss : List PinSlot) → Claims v m i ss (claim_from v m i ss)
claim_from-Claims v m i [] = refl
claim_from-Claims v m i (s ∷ ss) = elim (Bool-cases (s.state == slot_free)) [
  | inl b ↦ rw (b) (0, omega arith, here ((==_iff s.state slot_free).0 b))
  | inr b ↦ rw (b) (
      then_Claims v m i s ss (claim_from v m (suc i) ss) (λ e. ground (arith, b, e))
        (claim_from-Claims v m (suc i) ss))
]

-- The slot that was taken is the one that is found.
some_not_none : (i : ℕ) → some i ≢ none
some_not_none i e = cc e

first_slot-Taken :
    (v m i k : ℕ) (ss ss' : List PinSlot)
    → Taken v m k ss ss'
    → first_slot (tracks v) i ss ≡ none
    → first_slot (tracks v) i ss' ≡ some (i + k)
first_slot-Taken v m i _ _ _ (here f) e = rw (==_refl v) (ap some (omega arith))
first_slot-Taken v m i _ _ _ (there {s = s} {k = k} {ss = ss} {ss' = ss'} n t) e =
    elim (Bool-cases (tracks v s)) [
      | inl b ↦ absurd (
          some_not_none i
            (ap (λ c. if c then some i else first_slot (tracks v) (suc i) ss) (sym b) ∙ e))
      | inr b ↦ rw (b) (
          first_slot-Taken v m (suc i) k ss ss' t
            (ap (λ c. if c then some i else first_slot (tracks v) (suc i) ss) (sym b) ∙ e)
          ∙ ap some (omega arith))
    ]

-- A claim of a slot takes the first free slot for the version and its manifest, and leaves the
-- others as they are. When no slot tracked the version before, it is the slot that a reader of the
-- version finds.
pub find_slot-claim_slot :
    (h h' : ArtifactHead) (v m j : ℕ)
    → claim_slot h v m ≡ (some j, h')
    → find_slot h v ≡ none
    → Taken v m j h.pins h'.pins × (find_slot h' v ≡ some j)
unfolding claim_slot find_slot
find_slot-claim_slot h h' v m j e n =
    let c =
      subst {A = Option ℕ × List PinSlot} (Claims v m 0 h.pins) (λ i. ((e i).0, (e i).1.pins))
        (claim_from-Claims v m 0 h.pins) in
    let same : j ≡ c.0 = omega (arith, c.1) in
    (
      subst (λ k. Taken v m k h.pins h'.pins) (sym same) c.2,
      first_slot-Taken v m 0 c.0 h.pins h'.pins c.2 n ∙ ap some (sym c.1),
    )
