-- ===== src/Tests/QueueTests.antt =====
-- A task queue of two slots at concrete values: submitted, claimed, completed, withdrawn, reaped.
use shm_actors.Prelude.{
  ℕ, ◌+◌, ◌%◌, ◌^◌, ◌<◌, ◌≡◌, ◌⊎◌, refl, none, some, [], ◌∷◌, ok, err, arith, replicate,
}
use shm_actors.Core.Desc.{ChunkDesc, zero_desc}
use shm_actors.Core.Pool.{treiber_pop, treiber_push}
use shm_actors.Core.Pool.Created.{slots_from}
use shm_actors.Ring.{is_power_below}
use shm_actors.Task.Error.{Error, lost}
use shm_actors.Task.Lease.{arm}
use shm_actors.Task.Slot.{
  try_claim, try_cancel_queued, try_begin_reap_requeue, done, failed, cancelled,
}
use shm_actors.Task.Queue.{
  TaskQueue, new_queue, init_with_max_retries, slot_at, put_slot, pop_free, push_ready, pop_lease,
  lease_at,
}
use shm_actors.Task.Queue.Created.{init_with_max_retries-IsQueue, new_queue-IsQueue}
use shm_actors.Task.Invariant.{IsQueue, HasStacks}
use shm_actors.Task.Submit.{
  TaskHandle, Shards, publish_queued, reserve_submit_slot, submit_inner, submit,
}
use shm_actors.Task.Submit.Publish.{SubmitAnswer, submit_inner-Submitted}
use shm_actors.Task.Submit.Accept.{submit-accepted}
use shm_actors.Task.Worker.{ClaimedTask, claim_pop, sweep_ready, claim_inner, finish, complete}
use shm_actors.Task.Worker.Blocking.{
  add_worker, remove_worker, claim_again, claim_again-submit_inner,
}
use shm_actors.Task.Worker.Claim.{Answered, claim_inner-Claimed}
use shm_actors.Task.Worker.Finish.{poll-complete, late_completion_wins, task_id}
use shm_actors.Task.Requester.{
  TaskStatus, poll, is_done, more_riding, wait_once, add_waiter, cancel,
}
use shm_actors.Task.Requester.Waiting.{wait_once-waiters}
use shm_actors.Task.Requester.Cancel.{CancelAnswer, cancel-CancelAnswer}
use shm_actors.Task.Reap.{reap, reap_slot, reap_slots, reap_bindings}
use shm_actors.Task.Reap.Bindings.{DueFrom, reap_bindings-DueFrom}
use shm_actors.Task.Reap.Due.{IsDue}
use shm_actors.Task.Reap.Lapsed.{Recovered, reap-Recovered}

abbrev stale : TaskHandle
stale = record { slot_idx = 0; seq = 0 }

abbrev empty_queue : TaskQueue
empty_queue = new_queue 2 3

empty_stacks : HasStacks empty_queue
empty_stacks = (
  slots_from 0 2 ∷ replicate 7 [],
  replicate 8 [],
  new_queue-IsQueue 2 3 (omega arith) (omega arith),
)

-- The region of two slots needs 1536 bytes.
init_with_max_retries-IsQueue_example :
    IsQueue empty_queue (slots_from 0 2 ∷ replicate 7 []) (replicate 8 []) []
unfolding init_with_max_retries is_power_below
init_with_max_retries-IsQueue_example = init_with_max_retries-IsQueue 4096 4096 2 3 empty_queue refl

abbrev at : Shards
at = record { first = 3; second = 4; ready = 5 }

abbrev request : ChunkDesc
request = record zero_desc { len = 9 }

abbrev submitted : TaskQueue
submitted = (submit_inner empty_queue at request 100 none).1

submit_inner-Submitted_example :
    SubmitAnswer empty_queue request (submit_inner empty_queue at request 100 none)
submit_inner-Submitted_example =
    submit_inner-Submitted empty_queue at request 100 none empty_stacks (omega arith)

submit-accepted_example : (h : TaskHandle) × ((submit empty_queue at request 100).0 ≡ ok h)
submit-accepted_example =
    submit-accepted empty_queue (slots_from 0 2 ∷ replicate 7 []) (replicate 8 []) at request 100 0
      0 (1 ∷ []) (new_queue-IsQueue 2 3 (omega arith) (omega arith)) (omega arith) refl

submitted_stacks : HasStacks submitted
unfolding submit_inner reserve_submit_slot pop_free treiber_pop publish_queued push_ready
    treiber_push
submitted_stacks =
    (submit_inner-Submitted empty_queue at request 100 none empty_stacks (omega arith)).0

abbrev taken : TaskQueue
taken = (claim_inner submitted 7 (some 50)).1

claim_inner-Claimed_example : Answered submitted 7 (claim_inner submitted 7 (some 50))
claim_inner-Claimed_example = claim_inner-Claimed submitted 7 (some 50) submitted_stacks

taken_stacks : HasStacks taken
taken_stacks = (claim_inner-Claimed submitted 7 (some 50) submitted_stacks).0

abbrev task : ClaimedTask
task = record { idx = 0; seq = 1; worker_id = 7; request = request }

abbrev answered : ChunkDesc
answered = record zero_desc { len = 4 }

abbrev completed : TaskQueue
completed = finish taken 2 0 (record (slot_at taken 0) { state = done; result = answered })

poll-complete_example :
    HasStacks completed × (poll completed (task_id task) ≡ ok (is_done answered))
unfolding submit_inner reserve_submit_slot pop_free treiber_pop publish_queued push_ready
    treiber_push claim_inner sweep_ready claim_pop try_claim complete
poll-complete_example =
    poll-complete taken task 2 answered completed taken_stacks (omega arith) (omega arith) refl

abbrev given_up : TaskQueue
given_up = finish taken 2 0 (record (slot_at taken 0) { state = failed })

-- The claim of worker 7 lapses at 50, the task is queued again, and worker 9 takes it.
abbrev retaken : TaskQueue
retaken = (claim_inner (reap (λ i. 0) taken 60).1 9 (some 90)).1

late_completion_wins_example :
    (q' : TaskQueue) × (complete retaken task 2 answered ≡ ok q')
    × (complete q' (record task { worker_id = 9 }) 2 answered ≡ err lost)
unfolding submit_inner reserve_submit_slot pop_free treiber_pop publish_queued push_ready
    treiber_push claim_inner sweep_ready claim_pop try_claim reap reap_slots reap_slot
    try_begin_reap_requeue
late_completion_wins_example =
    late_completion_wins retaken task (record task { worker_id = 9 }) 2 2 answered answered
      (omega arith) refl refl refl

reap-Recovered_example :
    HasStacks (reap (λ i. 0) taken 60).1
    × ((i : ℕ) → i < 2 → Recovered (slot_at taken i) 3 60 (slot_at (reap (λ i. 0) taken 60).1 i))
unfolding submit_inner reserve_submit_slot pop_free treiber_pop publish_queued push_ready
    treiber_push claim_inner sweep_ready claim_pop try_claim
reap-Recovered_example = reap-Recovered (λ i. 0) taken 60 taken_stacks (λ i. omega arith)

abbrev withdrawn : TaskQueue
withdrawn = put_slot (more_riding submitted) 0 (record (slot_at submitted 0) { state = cancelled })

cancel-CancelAnswer_example : CancelAnswer submitted (record { slot_idx = 0; seq = 1 }) withdrawn
unfolding submit_inner reserve_submit_slot pop_free treiber_pop publish_queued push_ready
    treiber_push cancel try_cancel_queued
cancel-CancelAnswer_example =
    cancel-CancelAnswer submitted (record { slot_idx = 0; seq = 1 }) withdrawn submitted_stacks refl

-- A handle of an earlier task of the slot.
wait_once-waiters_example :
    ((s : TaskStatus) × (poll (add_waiter submitted) stale ≡ ok s)
      × ((wait_once (λ q. q) (λ q. q) submitted stale).0 ≡ none)
      × ((wait_once (λ q. q) (λ q. q) submitted stale).1.waiters_done ≡ submitted.waiters_done))
    ⊎ ((e : Error) × (poll (add_waiter submitted) stale ≡ err e)
        × ((wait_once (λ q. q) (λ q. q) submitted stale).0 ≡ some e)
        × ((wait_once (λ q. q) (λ q. q) submitted stale).1.waiters_done
            ≡ (submitted.waiters_done + 1) % 2 ^ 32))
unfolding submit_inner reserve_submit_slot pop_free treiber_pop publish_queued push_ready
    treiber_push
wait_once-waiters_example =
    wait_once-waiters (λ q. q) (λ q. q) submitted stale (λ q. refl) (λ q. refl) (omega arith)

-- A task with a binding, queued.
abbrev bound : TaskQueue
bound =
    (submit_inner empty_queue at request 100
      (some (record { artifact_id = 5; incarnation = 1; version = 9 }))).1

reap_bindings-DueFrom_example :
    DueFrom bound 200 50 0 4 (reap_bindings bound 200 50).0
    × ((j : ℕ)
        → j < 4
        → ¬ IsDue (reap_bindings bound 200 50).1 (lease_at (reap_bindings bound 200 50).1 j) 200 50)
    × ((reap_bindings bound 200 50).1.slots ≡ bound.slots)
    × (HasStacks bound → HasStacks (reap_bindings bound 200 50).1)
unfolding submit_inner reserve_submit_slot pop_free treiber_pop publish_queued push_ready
    treiber_push pop_lease arm
reap_bindings-DueFrom_example = reap_bindings-DueFrom bound 200 50 (omega arith)

waiting_stacks : HasStacks (add_worker empty_queue)
waiting_stacks = (
  slots_from 0 2 ∷ replicate 7 [],
  replicate 8 [],
  new_queue-IsQueue 2 3 (omega arith) (omega arith),
)

-- A submit comes between the two claims of a worker.
claim_again-submit_inner_example :
    let woken = (submit_inner (add_worker empty_queue) at request 100 none).1 in
    (0 < woken.work_rings)
    × ((t : ClaimedTask) × (claim_again
            (λ q. (submit_inner q at request 100 none).1)
            (λ q. q)
            (λ q. claim_inner q 7 (some 50))
            empty_queue
          ≡ (some t, remove_worker (claim_inner woken 7 (some 50)).1)))
unfolding submit_inner reserve_submit_slot pop_free treiber_pop publish_queued push_ready
    treiber_push
claim_again-submit_inner_example =
    claim_again-submit_inner (λ q. q) (λ q. q) empty_queue at request 100 none 7 (some 50)
      (record { slot_idx = 0; seq = 1 }) waiting_stacks (omega arith) (omega arith) refl
