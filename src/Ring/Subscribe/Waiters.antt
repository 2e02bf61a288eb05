-- ===== src/Ring/Subscribe/Waiters.antt =====
-- The waiter count over a blocking receive.
use shm_actors.Prelude.{ℕ, zero, suc, ◌+◌, ◌-◌, ◌%◌, ◌^◌, ◌<◌, ◌≡◌, arith, refl}
use shm_actors.Ring.{
  add_waiter, remove_waiter, Ring, update_reliable, read_at, ReadOutcome, sample, lagged, empty,
}
use shm_actors.Ring.Subscribe.{
  spin_limit, recv, wait_once, on_ring, Subscriber, sync_reliable, try_recv, Others, spin,
}

abbrev waiters : Subscriber → ℕ
waiters s = s.ring.region.header.waiters

-- The other parties come and go: they leave the count as they found it.
pub record IsBalanced (o : Others) : Type 0 where
  pub polls : (r : Ring) → (o.between_polls r).region.header.waiters ≡ r.region.header.waiters
  pub parks : (r : Ring) → (o.while_parked r).region.header.waiters ≡ r.region.header.waiters

waiters-sync : (s : Subscriber) → waiters (sync_reliable s) ≡ waiters s
unfolding sync_reliable update_reliable
waiters-sync s = ground arith

waiters-try_recv : (s : Subscriber) → waiters (try_recv s).1 ≡ waiters s
unfolding try_recv
waiters-try_recv s = by_outcome (read_at s.ring s.cursor) refl
  where
    by_outcome :
        (out : ReadOutcome) → read_at s.ring s.cursor ≡ out → waiters (try_recv s).1 ≡ waiters s
    by_outcome (sample d) e =
        rw (e, try_recv) (waiters-sync (record s { cursor = (s.cursor + 1) % 2 ^ 64 }))
    by_outcome (lagged n c) e = rw (e, try_recv) (waiters-sync (record s { cursor = c }))
    by_outcome empty e = rw (e, try_recv)

module _ (o : Others) (balanced : IsBalanced o) where
  waiters-spin : (n : ℕ) (s : Subscriber) → waiters (spin o n s).1 ≡ waiters s
  unfolding spin
  waiters-spin zero s = refl
  waiters-spin (suc n) s =
      let s' = record (try_recv s).1 { ring = o.between_polls (try_recv s).1.ring } in
      ground (arith, waiters-try_recv s, balanced.polls (try_recv s).1.ring, waiters-spin n s')

  waiters-wait_once :
      (s : Subscriber) → waiters s < 2 ^ 32 - 1 → waiters (wait_once o s).1 ≡ waiters s
  unfolding wait_once add_waiter remove_waiter
  waiters-wait_once s room =
      let s₁ : Subscriber = on_ring o.between_polls (on_ring add_waiter s) in
      ground (
        arith,
        balanced.polls (on_ring add_waiter s).ring,
        waiters-try_recv s₁,
        balanced.parks (try_recv s₁).1.ring,
      )

  -- However a blocking receive ends, it has withdrawn its interest: the count of parked
  -- subscribers is what it was, if the other parties leave that count as they find it.
  pub waiters-recv :
      (fuel : ℕ) (s : Subscriber) → waiters s < 2 ^ 32 - 1 → waiters (recv o fuel s).1 ≡ waiters s
  unfolding recv
  waiters-recv zero s room = refl
  waiters-recv (suc fuel) s room =
      let s₁ : Subscriber = (spin o spin_limit s).1 in
      let same = waiters-spin spin_limit s in
      let room₁ : waiters s₁ < 2 ^ 32 - 1 = omega arith in
      ground (
        arith,
        same,
        waiters-wait_once s₁ room₁,
        waiters-recv fuel (wait_once o s₁).1 (omega (arith, waiters-wait_once s₁ room₁)),
      )
