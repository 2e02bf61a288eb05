-- ===== src/Task/Lease/Election.antt =====
-- A release of a lease record, and a later release that expects the same word.
use shm_actors.Prelude.{
  ℕ, ◌+◌, ◌%◌, ◌^◌, ◌<◌, ◌≡◌, ◌⊎◌, refl, ◌∙◌, subst, true, false, List, [], ◌∷◌, arith,
}
use shm_actors.Task.Lease.{
  LeaseBinding, LeaseSlot, lease_none, lease_armed, lease_released, lease_acked, lease_word_gen,
  lease_word_state, arm, try_ack, try_release, retire,
}

-- The calls on a record.
pub data Call : Type 0 where
  arms : (binding : LeaseBinding) (slot_idx seq deadline : ℕ) → Call
  acks releases : ℕ → Call
  retires : Call

unfoldable pub step : LeaseSlot → Call → LeaseSlot
unfolding arm try_ack try_release retire
step l (arms b slot_idx seq deadline) = arm l b slot_idx seq deadline
step l (acks observed) = (try_ack l observed).1
step l (releases observed) = (try_release l observed).1
step l retires = retire l

-- A word that a party has seen armed, or acked.
abbrev pub Held : ℕ → Type 0
Held observed =
    (lease_word_state observed ≡ lease_armed) ⊎ (lease_word_state observed ≡ lease_acked)

-- What the callers keep to: only a record that is free is armed, only one that was released is
-- retired, and a word is acked or released that was seen armed or acked.
abbrev pub Allowed : LeaseSlot → Call → Type 0
Allowed l (arms b slot_idx seq deadline) = lease_word_state l.word ≡ lease_none
Allowed l (acks observed) = lease_word_state observed ≡ lease_armed
Allowed l (releases observed) = Held observed
Allowed l retires = lease_word_state l.word ≡ lease_released

unfoldable pub run : LeaseSlot → List Call → LeaseSlot
run l [] = l
run l (c ∷ cs) = run (step l c) cs

abbrev pub AllAllowed : LeaseSlot → List Call → Type 0
AllAllowed l [] = Unit {0}
AllAllowed l (c ∷ cs) = Allowed l c × AllAllowed (step l c) cs

abbrev pub arms_of : Call → ℕ
arms_of (arms b slot_idx seq deadline) = 1
arms_of _ = 0

unfoldable pub count_arms : List Call → ℕ
count_arms [] = 0
count_arms (c ∷ cs) = arms_of c + count_arms cs

-- The record is over for generation `g`, with `k` armings since: it is not held at `g`.
abbrev Over : ℕ → ℕ → LeaseSlot → Type 0
Over g k l =
    (l.word < 2 ^ 64)
    × (lease_word_gen l.word ≡ (g + k) % 2 ^ 32)
    × ((0 < k)
        ⊎ ((lease_word_state l.word ≡ lease_none) ⊎ (lease_word_state l.word ≡ lease_released)))

step-Over :
    (g k : ℕ) (l : LeaseSlot) (c : Call)
    → Over g k l
    → Allowed l c
    → Over g (k + arms_of c) (step l c)
unfolding step arm try_ack try_release retire
step-Over g k l (arms b slot_idx seq deadline) o a = ground arith
step-Over g k l (acks observed) o a = ground arith
step-Over g k l (releases observed) o a = ground arith
step-Over g k l retires o a = ground arith

run-Over :
    (g k : ℕ) (l : LeaseSlot) (cs : List Call)
    → Over g k l
    → AllAllowed l cs
    → Over g (k + count_arms cs) (run l cs)
unfolding run count_arms
run-Over g k l [] o a = subst (λ n. Over g n l) (omega arith) o
run-Over g k l (c ∷ cs) o a =
    subst (λ n. Over g n (run (step l c) cs)) (omega arith)
      (run-Over g (k + arms_of c) (step l c) cs (step-Over g k l c o a.0) a.1)

won-Over :
    (l : LeaseSlot) (observed : ℕ)
    → (try_release l observed).0 ≡ true
    → Over (lease_word_gen observed) 0 (try_release l observed).1
unfolding try_release
won-Over l observed t = ground arith

Over-lost :
    (observed n : ℕ) (l : LeaseSlot)
    → Held observed
    → n < 2 ^ 32
    → Over (lease_word_gen observed) n l
    → (try_release l observed).0 ≡ false
unfolding try_release
Over-lost observed n l h m o = ground arith

-- Once a release has succeeded, a release with the same observed word fails after any allowed
-- calls in between that arm the record fewer than 2^32 times.
pub released_once :
    (l : LeaseSlot) (observed : ℕ) (cs : List Call)
    → Held observed
    → (try_release l observed).0 ≡ true
    → AllAllowed (try_release l observed).1 cs
    → count_arms cs < 2 ^ 32
    → (try_release (run (try_release l observed).1 cs) observed).0 ≡ false
released_once l observed cs h t a n =
    Over-lost observed (0 + count_arms cs) (run (try_release l observed).1 cs) h (omega (arith, n))
      (run-Over (lease_word_gen observed) 0 (try_release l observed).1 cs (won-Over l observed t) a)

gen-step :
    (l : LeaseSlot) (c : Call)
    → lease_word_gen (step l c).word ≡ (lease_word_gen l.word + arms_of c) % 2 ^ 32
unfolding step arm try_ack try_release retire
gen-step l (arms b slot_idx seq deadline) = ground arith
gen-step l (acks observed) = ground arith
gen-step l (releases observed) = ground arith
gen-step l retires = ground arith

gen-run :
    (l : LeaseSlot) (cs : List Call)
    → lease_word_gen (run l cs).word ≡ (lease_word_gen l.word + count_arms cs) % 2 ^ 32
unfolding run count_arms
gen-run l [] = omega arith
gen-run l (c ∷ cs) = omega (arith, gen-run (step l c) cs, gen-step l c)

-- What a record is tied to.
abbrev pub binding_of : LeaseSlot → LeaseBinding × ℕ × ℕ
binding_of l = (
  record { artifact_id = l.artifact_id; incarnation = l.incarnation; version = l.version },
  l.slot_idx,
  l.seq,
)

binding-step : (l : LeaseSlot) (c : Call) → arms_of c ≡ 0 → binding_of (step l c) ≡ binding_of l
unfolding step arm try_ack try_release retire
binding-step l (arms b slot_idx seq deadline) h = absurd (omega (arith, h))
binding-step l (acks observed) h = ground arith
binding-step l (releases observed) h = ground arith
binding-step l retires h = refl

binding-run :
    (l : LeaseSlot) (cs : List Call) → count_arms cs ≡ 0 → binding_of (run l cs) ≡ binding_of l
unfolding run count_arms
binding-run l [] h = refl
binding-run l (c ∷ cs) h =
    binding-run (step l c) cs (omega (arith, h)) ∙ binding-step l c (omega (arith, h))

won_gen :
    (l : LeaseSlot) (observed : ℕ)
    → (try_release l observed).0 ≡ true
    → lease_word_gen l.word ≡ lease_word_gen observed
unfolding try_release
won_gen l observed t = ground arith

-- A release that succeeds at the generation of an arming finds the binding, the task slot and the
-- sequence number of that arming, after any calls in between that arm the record fewer than 2^32
-- times.
pub binding_won :
    (l : LeaseSlot) (b : LeaseBinding) (slot_idx seq deadline observed : ℕ) (cs : List Call)
    → lease_word_gen observed ≡ lease_word_gen (arm l b slot_idx seq deadline).word
    → count_arms cs < 2 ^ 32
    → (try_release (run (arm l b slot_idx seq deadline) cs) observed).0 ≡ true
    → binding_of (run (arm l b slot_idx seq deadline) cs) ≡ (b, slot_idx, seq)
unfolding arm
binding_won l b slot_idx seq deadline observed cs g n t =
    binding-run (arm l b slot_idx seq deadline) cs (
      omega (
        arith,
        gen-run (arm l b slot_idx seq deadline) cs,
        won_gen (run (arm l b slot_idx seq deadline) cs) observed t,
        g,
        n,
      ))
