-- ===== src/Task/Worker/Sweep.antt =====
-- A worker's sweep visits every shard, so that it claims a task whenever one is queued.
use shm_actors.Prelude.{
  ℕ, zero, suc, ◌+◌, ◌-◌, ◌*◌, ◌%◌, ◌≤◌, ◌<◌, ◌≡◌, ◌⊎◌, inl, inr, refl, sym, ap, subst, ◌∙◌, Bool,
  true, if◌then◌else◌, false, List, [], arith, get_or, ◌==◌, ==_iff, ℕ_discrete,
}
use native.Mathlib.Nat.{mod-lt}
use shm_actors.Task.Queue.{TaskQueue, shards}
use shm_actors.Task.Invariant.{IsQueue}
use shm_actors.Task.Invariant.Moves.{length-shard}
use shm_actors.Task.Worker.{Popped, is_empty, took, claim_pop, claim_more, sweep_ready, stride}
use shm_actors.Task.Worker.Shard.{Won, Emptied, claim_pop-ClaimedOrEmpty, Won-before}

-- The shard of the `k`-th visit.
abbrev pub visit : ℕ → ℕ → ℕ
visit worker_id k = (worker_id % shards + k * stride worker_id) % shards

-- A test of the first numbers, and what a passed test says of one of them.
abbrev passes : (ℕ → Bool) → ℕ → Bool
passes test zero = true
passes test (suc k) = let earlier = passes test k in if test k then earlier else false

passes_each : (test : ℕ → Bool) (k i : ℕ) → i < k → passes test k ≡ true → test i ≡ true
passes_each test zero i below ok_all = absurd (omega arith)
passes_each test (suc k) i below ok_all = ground (arith, passes_each test k i)

-- The visit of a shard, by the inverse of an odd stride.
abbrev visit_of : ℕ → ℕ → ℕ → ℕ
visit_of home half s = (s + 8 - home) * (1 + 2 * half) % 8

-- The inverse is right for every home, stride and shard.
abbrev right_visit : ℕ → ℕ → ℕ → Bool
right_visit home half s = (home + visit_of home half s * (1 + 2 * half)) % 8 == s

visits_checked : passes (λ home. passes (λ half. passes (right_visit home half) 8) 4) 8 ≡ true
visits_checked = refl

-- Every shard has its visit.
pub visit_each : (worker_id s : ℕ) → s < 8 → (k : ℕ) × (k < 8) × (visit worker_id k ≡ s)
visit_each worker_id s h =
    let home = worker_id % 8 in
    let half = worker_id % 4 in
    let at_home =
      passes_each (λ home. passes (λ half. passes (right_visit home half) 8) 4) 8 home (omega arith)
        visits_checked in
    let at_half =
      passes_each (λ half. passes (right_visit home half) 8) 4 half (omega arith) at_home in
    (
      visit_of home half s,
      mod-lt ((s + 8 - home) * (1 + 2 * half)) (omega arith),
      (==_iff _ s).0 (passes_each (right_visit home half) 8 s h at_half),
    )

-- The visits from `k` on found every shard empty, and no slot changed.
pub record NoneLeft (worker_id k n : ℕ) (q : TaskQueue) (ready : List (List ℕ))
    (r : Popped × TaskQueue) : Type 0 where
  pub free' : List (List ℕ)
  pub ready' : List (List ℕ)
  pub answer : r.0 ≡ is_empty
  pub valid : IsQueue r.1 free' ready' []
  pub slots_kept : r.1.slots ≡ q.slots
  pub cleared : (j : ℕ) → k ≤ j → j < k + n → get_or ready' (visit worker_id j) [] ≡ []
  pub stays_clear : (s : ℕ) → get_or ready s [] ≡ [] → get_or ready' s [] ≡ []

abbrev pub WonOrNone : ℕ → ℕ → ℕ → TaskQueue → List (List ℕ) → Popped × TaskQueue → Type 0
WonOrNone worker_id k n q ready r = Won q r ⊎ NoneLeft worker_id k n q ready r

module _ (worker_id : ℕ) where
  visit_bound : (k : ℕ) → visit worker_id k < 8
  visit_bound k = mod-lt (worker_id % 8 + k * stride worker_id) (omega arith)

  sweep_step :
      (k n : ℕ) (q : TaskQueue) (p : Popped) (q2 : TaskQueue)
      → claim_pop (visit worker_id k) (suc q.capacity) q ≡ (p, q2)
      → sweep_ready worker_id k (suc n) q ≡ claim_more (p, q2) (sweep_ready worker_id (suc k) n)
  unfolding sweep_ready
  sweep_step k n q p q2 e = ap (λ r. claim_more r (sweep_ready worker_id (suc k) n)) e

  Won-first :
      (k n : ℕ) (q : TaskQueue)
      → Won q (claim_pop (visit worker_id k) (suc q.capacity) q)
      → Won q (sweep_ready worker_id k (suc n) q)
  Won-first k n q w =
      subst (Won q)
        (sym (
          sweep_step k n q (took w.idx) (claim_pop (visit worker_id k) (suc q.capacity) q).1
            (λ i. (w.answer i, (claim_pop (visit worker_id k) (suc q.capacity) q).1))))
        (record {
          free' = w.free';
          ready' = w.ready';
          idx = w.idx;
          answer = refl;
          valid = w.valid;
          in_range = w.in_range;
          was_queued = w.was_queued;
          slots_after = w.slots_after;
        })

  then_rest :
      (k n : ℕ) (q : TaskQueue) (ready : List (List ℕ))
      → (e : Emptied q (visit worker_id k) ready (claim_pop (visit worker_id k) (suc q.capacity) q))
      → WonOrNone worker_id
          (suc k)
          n
          (claim_pop (visit worker_id k) (suc q.capacity) q).1
          e.ready'
          (sweep_ready worker_id (suc k) n (claim_pop (visit worker_id k) (suc q.capacity) q).1)
      → WonOrNone worker_id k (suc n) q ready (sweep_ready worker_id k (suc n) q)
  then_rest k n q ready e m =
      let q1 = (claim_pop (visit worker_id k) (suc q.capacity) q).1 in
      let r1 = sweep_ready worker_id (suc k) n q1 in
      subst (WonOrNone worker_id k (suc n) q ready)
        (sym (sweep_step k n q is_empty q1 (λ i. (e.answer i, q1))))
        (elim m [
          | inl w ↦ inl (
              Won-before (visit worker_id k) (visit_bound k) q q1 e.slots_kept e.capacity_kept r1 w)
          | inr left ↦ inr (record {
            free' = left.free';
            ready' = left.ready';
            answer = left.answer;
            valid = left.valid;
            slots_kept = left.slots_kept ∙ e.slots_kept;
            cleared = λ j a b. elim (ℕ_discrete j k) [
              | yes same ↦
                  ap (λ t. get_or left.ready' (visit worker_id t) []) same
                  ∙ left.stays_clear (visit worker_id k) e.cleared
              | no after ↦ left.cleared j (omega (arith, a, after)) (omega (arith, b))
            ];
            stays_clear = λ s c. left.stays_clear s (elim (ℕ_discrete (visit worker_id k) s) [
              | yes same ↦ ap (λ t. get_or e.ready' t []) (sym same) ∙ e.cleared
              | no other ↦ e.others_kept s other ∙ c
            ]);
          })
        ])

  pub sweep_ready-WonOrNone :
      (k n : ℕ) (q : TaskQueue) (free ready : List (List ℕ))
      → IsQueue q free ready []
      → WonOrNone worker_id k n q ready (sweep_ready worker_id k n q)
  unfolding sweep_ready
  sweep_ready-WonOrNone k zero q free ready h = inr (record {
    free' = free;
    ready' = ready;
    answer = refl;
    valid = h;
    slots_kept = refl;
    cleared = λ j a b. absurd (omega (arith, a, b));
    stays_clear = λ s e. e;
  })
  sweep_ready-WonOrNone k (suc n) q free ready h =
      elim (claim_pop-ClaimedOrEmpty (visit worker_id k) (visit_bound k) (suc q.capacity) q free
        ready h
        (omega (arith, length-shard q free ready [] (visit worker_id k) h (visit_bound k)))) [
          | inl w ↦ inl (Won-first k n q w)
          | inr e ↦ then_rest k n q ready e (
              sweep_ready-WonOrNone (suc k) n (claim_pop (visit worker_id k) (suc q.capacity) q).1
                e.free' e.ready' e.valid)
        ]
