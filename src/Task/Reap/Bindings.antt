-- ===== src/Task/Reap/Bindings.antt =====
-- What a reap of the bindings releases.
use shm_actors.Prelude.{
  ◌^◌, ℕ, zero, suc, ◌+◌, ◌≤◌, ◌<◌, ◌≡◌, ◌≢◌, inl, inr, refl, sym, ap, subst, ◌∙◌, false, Option,
  none, some, [], ◌∷◌, List, arith, length, get_or, set, get_or-set_ne, get_or-set_self, length-set,
  ==_refl, if◌then◌else◌, Bool-cases, ℕ_discrete,
}
use shm_actors.Task.Lease.{
  LeaseBinding, LeaseSlot, lease_none, lease_released, pack_lease_word, lease_word_gen,
  lease_word_state, try_release, retire,
}
use shm_actors.Task.Queue.{TaskQueue, new_lease, lease_at, push_lease}
use shm_actors.Task.Invariant.{HasStacks}
use shm_actors.Task.Reap.Due.{IsDue, releasable-IsDue, not_IsDue}
use shm_actors.Task.Reap.{
  binding_at, release_lease_record, is_releasable, cons_some, reap_records, reap_bindings,
}

-- A record that is on the free list again, at its generation.
abbrev pub retired : LeaseSlot → LeaseSlot
retired l = record l { word = pack_lease_word (lease_word_gen l.word) lease_none }

-- The bindings of the records from `i` on that are due, in order.
abbrev pub due : TaskQueue → (now grace i n : ℕ) → List LeaseBinding
due q now grace i zero = []
due q now grace i (suc n) =
    let rest = due q now grace (suc i) n in
    if is_releasable q (lease_at q i) now grace then binding_at (lease_at q i) ∷ rest else rest

-- The visit of one record.
abbrev visit : TaskQueue → (now grace i : ℕ) → Option LeaseBinding × TaskQueue
visit q now grace i =
    if is_releasable q (lease_at q i) now grace
    then release_lease_record q i (lease_at q i).word
    else (none, q)

-- The queue, but for the records and the list of the free ones.
pub record KeptTasks (q q' : TaskQueue) : Type 0 where
  pub slots_kept : q'.slots ≡ q.slots
  pub capacity_kept : q'.capacity ≡ q.capacity
  pub records_kept : length q'.leases ≡ length q.leases
  pub stacks_kept : HasStacks q → HasStacks q'

gen_again :
    (w : ℕ) → lease_word_gen (pack_lease_word (lease_word_gen w) lease_released) ≡ lease_word_gen w
gen_again w = omega arith

retired_not_due :
    (q : TaskQueue) (l : LeaseSlot) (now grace : ℕ) → is_releasable q (retired l) now grace ≡ false
retired_not_due q l now grace = rw (state_none) refl
  where
    state_none : lease_word_state (retired l).word ≡ lease_none
    state_none = omega arith

release-retired :
    (q : TaskQueue) (i : ℕ)
    → i < length q.leases
    → ((release_lease_record q i (lease_at q i).word).0 ≡ some (binding_at (lease_at q i)))
      × ((release_lease_record q i (lease_at q i).word).1.leases
          ≡ set q.leases i (retired (lease_at q i)))
      × KeptTasks q (release_lease_record q i (lease_at q i).word).1
unfolding release_lease_record try_release retire push_lease
release-retired q i l = rw (==_refl (lease_at q i).word) (
  refl,
  ap (λ g. set q.leases i (record (lease_at q i) { word = pack_lease_word g lease_none }))
      (gen_again (lease_at q i).word),
  record {
    slots_kept = refl;
    capacity_kept = refl;
    records_kept = length-set q.leases i _;
    stacks_kept = λ h. h;
  },
)

-- What a visit does to the records and answers.
pub record Visited (now grace i : ℕ) (q : TaskQueue) (r : Option LeaseBinding × TaskQueue)
    : Type 0 where
  pub kept : KeptTasks q r.1
  pub at_i : is_releasable r.1 (lease_at r.1 i) now grace ≡ false
  pub others : (j : ℕ) → i ≢ j → lease_at r.1 j ≡ lease_at q j
  pub answer :
      (bs : List LeaseBinding)
      → cons_some r.0 bs
        ≡ (if is_releasable q (lease_at q i) now grace then binding_at (lease_at q i) ∷ bs else bs)

visit-Visited :
    (q : TaskQueue) (now grace i : ℕ)
    → i < length q.leases
    → Visited now grace i q (visit q now grace i)
visit-Visited q now grace i l = elim (Bool-cases (is_releasable q (lease_at q i) now grace)) [
  | inl b ↦
      let r = release_lease_record q i (lease_at q i).word in
      let p = release-retired q i l in
      subst (λ c. Visited now grace i q (if c then r else (none, q))) (sym b)
        (record {
          kept = p.2;
          at_i =
              ap (λ t. is_releasable r.1 t now grace)
                (ap (λ t. get_or t i new_lease) p.1
                  ∙ get_or-set_self q.leases i (retired (lease_at q i)) new_lease l)
              ∙ retired_not_due r.1 (lease_at q i) now grace;
          others = λ j n.
              ap (λ t. get_or t j new_lease) p.1
              ∙ get_or-set_ne q.leases i j (retired (lease_at q i)) new_lease n;
          answer = λ bs. rw (b) (ap (λ o. cons_some o bs) p.0);
        })
  | inr b ↦
      subst
        (λ c.
          Visited now grace i q
            (if c then release_lease_record q i (lease_at q i).word else (none, q)))
        (sym b)
        (record {
          kept = record {
            slots_kept = refl;
            capacity_kept = refl;
            records_kept = refl;
            stacks_kept = λ h. h;
          };
          at_i = b;
          others = λ j n. refl;
          answer = λ bs. rw (b) refl;
        })
]

-- Whether a record is due goes by the tasks alone.
releasable_kept :
    (q q' : TaskQueue) (l : LeaseSlot) (now grace : ℕ)
    → KeptTasks q q'
    → is_releasable q' l now grace ≡ is_releasable q l now grace
releasable_kept q q' l now grace k = λ i.
    is_releasable (record q { slots = k.slots_kept i; capacity = k.capacity_kept i }) l now grace

due_kept :
    (q q' : TaskQueue) (now grace i n : ℕ)
    → KeptTasks q q'
    → ((j : ℕ) → i ≤ j → lease_at q' j ≡ lease_at q j)
    → due q' now grace i n ≡ due q now grace i n
due_kept q q' now grace i zero k e = refl
due_kept q q' now grace i (suc n) k e =
    let rest = due_kept q q' now grace (suc i) n k (λ j l. e j (omega arith)) in
    let same : is_releasable q' (lease_at q' i) now grace
        ≡ is_releasable q (lease_at q i) now grace =
      releasable_kept q q' (lease_at q' i) now grace k
      ∙ ap (λ t. is_releasable q t now grace) (e i (omega arith)) in
    λ m. if same m then binding_at (e i (omega arith) m) ∷ rest m else rest m

KeptTasks-trans : {q q' q'' : TaskQueue} → KeptTasks q q' → KeptTasks q' q'' → KeptTasks q q''
KeptTasks-trans a b = record {
  slots_kept = b.slots_kept ∙ a.slots_kept;
  capacity_kept = b.capacity_kept ∙ a.capacity_kept;
  records_kept = b.records_kept ∙ a.records_kept;
  stacks_kept = λ h. b.stacks_kept (a.stacks_kept h);
}

-- The visits from `i` on.
pub record Released (now grace i n : ℕ) (q : TaskQueue) (r : List LeaseBinding × TaskQueue)
    : Type 0 where
  pub kept : KeptTasks q r.1
  pub earlier : (j : ℕ) → j < i → lease_at r.1 j ≡ lease_at q j
  pub clear : (j : ℕ) → i ≤ j → j < i + n → is_releasable q (lease_at r.1 j) now grace ≡ false
  pub answer : r.0 ≡ due q now grace i n

reap_records-Released :
    (now grace i n : ℕ) (q : TaskQueue)
    → i + n ≤ length q.leases
    → Released now grace i n q (reap_records now grace i n q)
unfolding reap_records
reap_records-Released now grace i zero q l = record {
  kept = record {
    slots_kept = refl;
    capacity_kept = refl;
    records_kept = refl;
    stacks_kept = λ h. h;
  };
  earlier = λ j a. refl;
  clear = λ j a b. absurd (omega (arith, a, b));
  answer = refl;
}
reap_records-Released now grace i (suc n) q l =
    let one = visit-Visited q now grace i (omega arith) in
    let q1 = (visit q now grace i).1 in
    let rest =
      reap_records-Released now grace (suc i) n q1 (omega (arith, one.kept.records_kept)) in
    let q2 = (reap_records now grace (suc i) n q1).1 in
    record {
      kept = KeptTasks-trans one.kept rest.kept;
      earlier = λ j a. rest.earlier j (omega (arith, a)) ∙ one.others j (λ e. omega (arith, a, e));
      clear = λ j a b.
          sym (releasable_kept q q1 (lease_at q2 j) now grace one.kept) ∙ elim (ℕ_discrete i j) [
            | yes same ↦
                subst (λ j. is_releasable q1 (lease_at q2 j) now grace ≡ false) same
                  (ap (λ t. is_releasable q1 t now grace) (rest.earlier i (omega arith)) ∙ one.at_i)
            | no other ↦ rest.clear j (omega (arith, a, other)) (omega (arith, b))
          ];
      answer =
          ap (cons_some (visit q now grace i).0) (
            rest.answer
            ∙ due_kept q q1 now grace (suc i) n one.kept
                (λ j b. one.others j (λ e. omega (arith, b, e))))
          ∙ one.answer (due q now grace (suc i) n);
    }

-- The bindings of the due records among the `n` from `i` on, in order.
pub data DueFrom (q : TaskQueue) (now grace : ℕ) : (i n : ℕ) → List LeaseBinding → Type 0 where
  no_more : {i : ℕ} → DueFrom q now grace i 0 []
  takes :
      {i n : ℕ} {bs : List LeaseBinding}
      → IsDue q (lease_at q i) now grace
      → DueFrom q now grace (suc i) n bs
      → DueFrom q now grace i (suc n) (binding_at (lease_at q i) ∷ bs)
  skips :
      {i n : ℕ} {bs : List LeaseBinding}
      → ¬ IsDue q (lease_at q i) now grace
      → DueFrom q now grace (suc i) n bs
      → DueFrom q now grace i (suc n) bs

due-DueFrom :
    (q : TaskQueue) (now grace i n : ℕ)
    → now < 2 ^ 64
    → DueFrom q now grace i n (due q now grace i n)
due-DueFrom q now grace i zero h = no_more
due-DueFrom q now grace i (suc n) h =
    let rest = due-DueFrom q now grace (suc i) n h in
    let bs = due q now grace (suc i) n in
    elim (Bool-cases (is_releasable q (lease_at q i) now grace)) [
      | inl b ↦
          subst
            (λ c. DueFrom q now grace i (suc n) (if c then binding_at (lease_at q i) ∷ bs else bs))
            (sym b) (takes (releasable-IsDue q (lease_at q i) now grace h b) rest)
      | inr b ↦
          subst
            (λ c. DueFrom q now grace i (suc n) (if c then binding_at (lease_at q i) ∷ bs else bs))
            (sym b) (skips (not_IsDue q (lease_at q i) now grace h b) rest)
    ]

-- A reap of the bindings, at a time that is a u64, answers with the bindings of exactly the records
-- that are due, in the order of the table: those that are acked, and those that are armed, past
-- their deadline and the grace, and of no live task. Afterwards no record is due at that time, and
-- the tasks and their stacks are as they were.
pub reap_bindings-DueFrom :
    (q : TaskQueue) (now grace : ℕ)
    → now < 2 ^ 64
    → DueFrom q now grace 0 (length q.leases) (reap_bindings q now grace).0
      × ((j : ℕ)
          → j < length q.leases
          → ¬ IsDue
              (reap_bindings q now grace).1
              (lease_at (reap_bindings q now grace).1 j)
              now
              grace)
      × ((reap_bindings q now grace).1.slots ≡ q.slots)
      × (HasStacks q → HasStacks (reap_bindings q now grace).1)
unfolding reap_bindings
reap_bindings-DueFrom q now grace h =
    let r = reap_records now grace 0 (length q.leases) q in
    let p = reap_records-Released now grace 0 (length q.leases) q (omega arith) in
    (
      subst (DueFrom q now grace 0 (length q.leases)) (sym p.answer)
          (due-DueFrom q now grace 0 (length q.leases) h),
      λ j l. not_IsDue r.1 (lease_at r.1 j) now grace h (
          releasable_kept q r.1 (lease_at r.1 j) now grace p.kept
          ∙ p.clear j (omega arith) (omega (arith, l))),
      p.kept.slots_kept,
      p.kept.stacks_kept,
    )
