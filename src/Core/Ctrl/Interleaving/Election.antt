-- ===== src/Core/Ctrl/Interleaving/Election.antt =====
-- Of the parties that race to free a published chunk, one does.
use shm_actors.Prelude.{
  ℕ, ◌+◌, ◌%◌, ◌^◌, ◌≤◌, ◌<◌, ◌≡◌, ◌⊎◌, inl, inr, true, false, List, [], ◌∷◌, get_elem?, set,
  Option-cases, subst, sym, arith,
}
use shm_actors.Core.Ctrl.{ChunkCtrl, free, published, owner_none, pack_word, state, refcount}
use shm_actors.Core.Ctrl.Interleaving.{
  Pc, borrowing, borrow_loaded, loaded, checked, advance, System, schedule, run, start,
}
use shm_actors.Core.Ctrl.Interleaving.Tally.{
  Tally, weigh, ◌⊕◌, tally, running, Rest, rest, tally-holding,
}

-- A race over generation `g`, with at most `bound` pins.
pub record Race (o g bound : ℕ) (c : ChunkCtrl) (t : Tally) : Type 0 where
  pub small : t.pins + t.late ≤ bound
  pub phase :
      ((c.word ≡ pack_word published t.pins) × (t.pending + t.freed ≡ 0))
      ⊎ ((c.word ≡ pack_word free 0) × (t.pins ≡ 0) × (t.pending + t.freed ≡ 1))
  pub owned :
      ((t.owners ≡ 1) × (c.owner_actor ≡ o)) ⊎ ((t.owners ≡ 0) × (c.owner_actor ≡ owner_none))
  pub seen : (t.sure ≡ 0) ⊎ (c.owner_actor ≡ owner_none)
  pub moved : c.generation ≡ (g + t.freed) % 2 ^ 32
  -- Somebody is left to free the chunk.
  pub alive : 0 < t.pins + (t.pending + t.freed + (t.owners + t.trying))

module _ (o g bound : ℕ) (owner : 0 < o) (fits : bound < 2 ^ 32) where
  advance-Race :
      (p : Pc) (c : ChunkCtrl) (others : Tally)
      → Race o g bound c (weigh p ⊕ others)
      → Race o g bound (advance p c).1 (weigh (advance p c).0 ⊕ others)
  unfolding advance
  advance-Race borrowing c t r = ground arith
  advance-Race (borrow_loaded cur) c t r = ground arith
  advance-Race (checked cur true) c t r = ground arith
  advance-Race (checked cur false) c t r = ground arith
  advance-Race (loaded cur) c t r = ground arith
  advance-Race _ c t r = ground arith

  schedule-Race :
      (s : System) (i : ℕ)
      → Race o g bound s.ctrl (tally s.threads)
      → Race o g bound (schedule s i).ctrl (tally (schedule s i).threads)
  unfolding schedule
  schedule-Race s i r = elim (Option-cases (get_elem? s.threads i)) [
    | inl e ↦ rw (e, schedule) r
    | inr (p, e) ↦ rw (e, schedule) (move p (rest s.threads i p e))
  ]
    where
      move :
          (p : Pc) (q : Rest s.threads i p)
          → Race o g bound (advance p s.ctrl).1 (tally (set s.threads i (advance p s.ctrl).0))
      move p q =
          subst (Race o g bound (advance p s.ctrl).1) (sym (q.moved (advance p s.ctrl).0))
            (advance-Race p s.ctrl q.others (subst (Race o g bound s.ctrl) q.before r))

  run-Race :
      (s : System) (is : List ℕ)
      → Race o g bound s.ctrl (tally s.threads)
      → Race o g bound (run s is).ctrl (tally (run s is).threads)
  unfolding run
  run-Race s [] r = r
  run-Race s (i ∷ is) r = run-Race (schedule s i) is (schedule-Race s i r)

module _ (o g n m : ℕ) (owner : 0 < o) (fits : n + m < 2 ^ 32) (known : g < 2 ^ 32) where
  start-Race : Race o g (n + m) (start o g n m).ctrl (tally (start o g n m).threads)
  unfolding start tally
  start-Race = ground (arith, tally-holding n m)

  run-start-Race :
      (is : List ℕ) → let s = run (start o g n m) is in Race o g (n + m) s.ctrl (tally s.threads)
  run-start-Race is = run-Race o g (n + m) owner fits (start o g n m) is start-Race

  -- Whatever the order of the accesses, when the owner has released, every reader has released and
  -- every late borrower has been refused or has released, the chunk is FREE without an owner, its
  -- generation has moved by exactly one, and exactly one party was told that it freed the chunk.
  pub freed_once :
      (is : List ℕ)
      → running (tally (run (start o g n m) is).threads) ≡ 0
      → let s = run (start o g n m) is in
        (s.ctrl ≡ record {
          word = pack_word free 0;
          owner_actor = owner_none;
          generation = (g + 1) % 2 ^ 32;
        })
        × ((tally s.threads).freed ≡ 1)
  freed_once is h = ground (arith, run-start-Race is)

  -- At every moment of every order, while a pin is held the chunk is PUBLISHED, its count is the
  -- number of the pins, and its generation is the one that the pins were taken at.
  pub pinned_kept :
      (is : List ℕ)
      → 0 < (tally (run (start o g n m) is).threads).pins
      → let s = run (start o g n m) is in
        (state s.ctrl ≡ published)
        × (refcount s.ctrl ≡ (tally s.threads).pins)
        × (s.ctrl.generation ≡ g)
  pinned_kept is h = ground (arith, run-start-Race is)
