-- ===== src/Task/Worker/Blocking.antt =====
-- crates/shm-task/src/queue.rs, the claims that park while no task is queued.
use shm_actors.Core.Desc.{ChunkDesc}
use shm_actors.Task.Error.{TaskResult}
use shm_actors.Task.Lease.{LeaseBinding}
use shm_actors.Task.Submit.{TaskHandle, Shards, submit_inner}
use shm_actors.Task.Submit.Publish.{SubmitAnswer, submit_inner-Submitted}
use shm_actors.Task.Submit.Doorbell.{submit_inner-rings}
use shm_actors.Prelude.{
  ok, err, ◌<◌, ◌∙◌, sym, ok-injective, err≢ok, ℕ, zero, suc, ◌+◌, ◌-◌, ◌%◌, ◌^◌, ◌≡◌, inl, inr, ap,
  Option, none, some,
}
use shm_actors.Task.Slot.{queued}
use shm_actors.Task.Queue.{TaskQueue, slot_at}
use shm_actors.Task.Invariant.{HasStacks}
use shm_actors.Task.Worker.{ClaimedTask, claim_inner, claim, claim_with_lease}
use shm_actors.Task.Worker.Claim.{claim_inner-Claimed}

abbrev pub add_worker : TaskQueue → TaskQueue
add_worker q = record q { waiters_work = (q.waiters_work + 1) % 2 ^ 32 }

abbrev pub remove_worker : TaskQueue → TaskQueue
remove_worker q = record q { waiters_work = (q.waiters_work + 2 ^ 32 - 1) % 2 ^ 32 }

abbrev pub Claimer : Type 0
Claimer = TaskQueue → Option ClaimedTask × TaskQueue

-- The end of a round, after its second claim.
abbrev pub parked :
    (TaskQueue → TaskQueue) → Option ClaimedTask × TaskQueue → Option ClaimedTask × TaskQueue
parked park (none, q) = (none, remove_worker (park q))
parked park (some t, q) = (some t, remove_worker q)

-- The rest of a round whose first claim found nothing. `raced` is what the other parties do
-- before the second claim, `park` what they do while the worker is parked.
unfoldable pub claim_again : (raced park : TaskQueue → TaskQueue) → Claimer → Claimer
claim_again raced park again q = parked park (again (raced (add_worker q)))

abbrev pub or_again : Option ClaimedTask × TaskQueue → Claimer → Option ClaimedTask × TaskQueue
or_again (some t, q) more = (some t, q)
or_again (none, q) more = more q

-- At most `rounds` rounds; none if no task was claimed in them. `claim_at k` is the `k`-th claim.
unfoldable pub claim_rounds :
    (raced park : TaskQueue → TaskQueue) → (ℕ → Claimer) → (k rounds : ℕ) → Claimer
unfolding claim_again
claim_rounds raced park claim_at k zero q = (none, q)
claim_rounds raced park claim_at k (suc rounds) q = or_again (claim_at k q) (λ q'.
    or_again (claim_again raced park (claim_at (k + 1)) q')
      (claim_rounds raced park claim_at (k + 2) rounds))

unfoldable pub claim_blocking :
    (raced park : TaskQueue → TaskQueue) → (rounds worker_id : ℕ) → Claimer
unfolding claim_rounds claim
claim_blocking raced park rounds worker_id =
    claim_rounds raced park (λ k q. claim q worker_id) 0 rounds

-- `now_nanos k` is the clock at the `k`-th claim.
unfoldable pub claim_blocking_with_lease :
    (raced park : TaskQueue → TaskQueue)
    → (now_nanos : ℕ → ℕ) → (rounds worker_id lease_nanos : ℕ) → Claimer
unfolding claim_rounds claim_with_lease
claim_blocking_with_lease raced park now_nanos rounds worker_id lease_nanos =
    claim_rounds raced park
      (λ k q. claim_with_lease q worker_id ((now_nanos k + lease_nanos) % 2 ^ 64)) 0 rounds

-- A claim hands out a task if one is queued.
claim_inner-found :
    (q : TaskQueue) (worker_id i : ℕ) (deadline : Option ℕ)
    → HasStacks q
    → (slot_at q i).state ≡ queued
    → (t : ClaimedTask) × ((claim_inner q worker_id deadline).0 ≡ some t)
claim_inner-found q worker_id i deadline h c = elim (claim_inner-Claimed q worker_id deadline h).1 [
  | inl e ↦ absurd (e.1 i c)
  | inr t ↦ (t.0, t.1)
]

parked-found :
    (park : TaskQueue → TaskQueue) (r : Option ClaimedTask × TaskQueue) (t : ClaimedTask)
    → r.0 ≡ some t
    → parked park r ≡ (some t, remove_worker r.1)
parked-found park r t e = ap {A = Option ClaimedTask} (λ o. parked park (o, r.1)) e

claim_again-found :
    (raced park : TaskQueue → TaskQueue) (q : TaskQueue) (worker_id i : ℕ) (deadline : Option ℕ)
    → HasStacks (raced (add_worker q))
    → (slot_at (raced (add_worker q)) i).state ≡ queued
    → (t : ClaimedTask) × (claim_again raced park (λ q'. claim_inner q' worker_id deadline) q
        ≡ (some t, remove_worker (claim_inner (raced (add_worker q)) worker_id deadline).1))
unfolding claim_again
claim_again-found raced park q worker_id i deadline h c =
    let q' = raced (add_worker q) in
    let found = claim_inner-found q' worker_id i deadline h c in
    (found.0, parked-found park (claim_inner q' worker_id deadline) found.0 found.1)

queued_of :
    (q : TaskQueue) (request : ChunkDesc) (r : TaskResult TaskHandle × TaskQueue) (h : TaskHandle)
    → r.0 ≡ ok h
    → SubmitAnswer q request r
    → HasStacks r.1 × ((slot_at r.1 h.slot_idx).state ≡ queued)
queued_of q request (err e, q') h g a = absurd (err≢ok g)
queued_of q request (ok x, q') h g a = (
  a.0,
  ap (λ (t : TaskHandle). (slot_at q' t.slot_idx).state) (sym (ok-injective g)) ∙ a.1.state_of,
)

-- A submit that succeeds on a well-formed queue between the two claims of a blocking claim, when
-- some worker is counted as idle, as the one that claims is unless the count has wrapped: it rings
-- the doorbell of the workers, and the second claim hands out a task, so that the worker does not
-- park, and takes itself off the count. `earlier` is what the other parties do before the submit.
pub claim_again-submit_inner :
    (earlier park : TaskQueue → TaskQueue) (q : TaskQueue) (at : Shards) (request : ChunkDesc)
    (deadline : ℕ) (input : Option LeaseBinding) (worker_id : ℕ) (lease : Option ℕ) (h : TaskHandle)
    → HasStacks (earlier (add_worker q))
    → at.ready < 8
    → 0 < (earlier (add_worker q)).waiters_work
    → (submit_inner (earlier (add_worker q)) at request deadline input).0 ≡ ok h
    → let submitted = (submit_inner (earlier (add_worker q)) at request deadline input).1 in
      ((earlier (add_worker q)).work_rings < submitted.work_rings)
      × ((t : ClaimedTask) × (claim_again
              (λ q'. (submit_inner (earlier q') at request deadline input).1)
              park
              (λ q'. claim_inner q' worker_id lease)
              q
            ≡ (some t, remove_worker (claim_inner submitted worker_id lease).1)))
claim_again-submit_inner earlier park q at request deadline input worker_id lease h v l w e =
    let q' = earlier (add_worker q) in
    let there =
      queued_of q' request (submit_inner q' at request deadline input) h e
        (submit_inner-Submitted q' at request deadline input v l) in
    (
      submit_inner-rings q' at request deadline input h w e,
      claim_again-found (λ q'. (submit_inner (earlier q') at request deadline input).1) park q
          worker_id h.slot_idx lease there.0 there.1,
    )
