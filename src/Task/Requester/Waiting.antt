-- ===== src/Task/Requester/Waiting.antt =====
-- The count of parked requesters, over a round of a wait.
use shm_actors.Prelude.{
  ℕ, ◌+◌, ◌-◌, ◌%◌, ◌^◌, ◌<◌, ◌≡◌, ◌⊎◌, inl, inr, refl, ap, ◌∙◌, some, none, ok, err, arith,
}
use shm_actors.Task.Error.{Error, TaskResult}
use shm_actors.Task.Queue.{TaskQueue}
use shm_actors.Task.Submit.{TaskHandle}
use shm_actors.Task.Requester.{
  TaskStatus, is_queued, is_claimed, is_done, is_failed, is_cancelled, poll, add_waiter, recheck,
  wait_once,
}

counted_back : (n : ℕ) → n < 2 ^ 32 → ((n + 1) % 2 ^ 32 + 2 ^ 32 - 1) % 2 ^ 32 ≡ n
counted_back n h = omega arith

-- What a round answers and how it leaves the count, by what its second poll answers.
recheck-waiters :
    (park : TaskQueue → TaskQueue) (q : TaskQueue) (r : TaskResult TaskStatus)
    → ((q : TaskQueue) → (park q).waiters_done ≡ q.waiters_done)
    → ((s : TaskStatus) × (r ≡ ok s)
        × ((recheck park q r).0 ≡ none)
        × ((recheck park q r).1.waiters_done ≡ (q.waiters_done + 2 ^ 32 - 1) % 2 ^ 32))
      ⊎ ((e : Error) × (r ≡ err e)
          × ((recheck park q r).0 ≡ some e)
          × ((recheck park q r).1.waiters_done ≡ q.waiters_done))
recheck-waiters park q (err e) h = inr (e, refl, refl, refl)
recheck-waiters park q (ok is_queued) h =
    inl (is_queued, refl, refl, ap (λ n. (n + 2 ^ 32 - 1) % 2 ^ 32) (h q))
recheck-waiters park q (ok is_claimed) h =
    inl (is_claimed, refl, refl, ap (λ n. (n + 2 ^ 32 - 1) % 2 ^ 32) (h q))
recheck-waiters park q (ok (is_done r)) h = inl (is_done r, refl, refl, refl)
recheck-waiters park q (ok is_failed) h = inl (is_failed, refl, refl, refl)
recheck-waiters park q (ok is_cancelled) h = inl (is_cancelled, refl, refl, refl)

-- A round of a wait, in which the other parties leave the count of waiters, a u32, as they find it.
-- Either the second poll answers with a status, the round ends without an error, and the count is
-- what it was at the start; or it answers with an error, the wait ends with that error, and the
-- count stays one higher, modulo 2^32.
pub wait_once-waiters :
    (raced park : TaskQueue → TaskQueue) (q : TaskQueue) (h : TaskHandle)
    → ((q : TaskQueue) → (raced q).waiters_done ≡ q.waiters_done)
    → ((q : TaskQueue) → (park q).waiters_done ≡ q.waiters_done)
    → q.waiters_done < 2 ^ 32
    → ((s : TaskStatus) × (poll (raced (add_waiter q)) h ≡ ok s)
        × ((wait_once raced park q h).0 ≡ none)
        × ((wait_once raced park q h).1.waiters_done ≡ q.waiters_done))
      ⊎ ((e : Error) × (poll (raced (add_waiter q)) h ≡ err e)
          × ((wait_once raced park q h).0 ≡ some e)
          × ((wait_once raced park q h).1.waiters_done ≡ (q.waiters_done + 1) % 2 ^ 32))
unfolding wait_once
wait_once-waiters raced park q h r p l =
    elim (recheck-waiters park (raced (add_waiter q)) (poll (raced (add_waiter q)) h) p) [
      | inl c ↦ inl (
        c.0,
        c.1,
        c.2,
        c.3
            ∙ ap (λ n. (n + 2 ^ 32 - 1) % 2 ^ 32) (r (add_waiter q))
            ∙ counted_back q.waiters_done l,
      )
      | inr c ↦ inr (c.0, c.1, c.2, c.3 ∙ r (add_waiter q))
    ]
