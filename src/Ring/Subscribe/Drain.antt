-- ===== src/Ring/Subscribe/Drain.antt =====
-- What a subscriber receives until it has caught up.
use shm_actors.Prelude.{
  ℕ, zero, suc, ◌+◌, ◌-◌, ◌%◌, ◌^◌, ◌≤◌, ◌<◌, ◌≡◌, none, some, List, [], ◌∷◌, map, ltb,
  if◌then◌else◌, arith, length, get_or, drop, dec_lt, refl, ap, inl, inr, Option-cases,
}
use shm_actors.Core.Desc.{ChunkDesc, zero_desc}
use shm_actors.Ring.{Ring, sample, lagged, empty, read_at, update_reliable}
use shm_actors.Ring.Log.{Holds, read_log, read_at-read_log}
use shm_actors.Ring.Subscribe.{Msg, sample_of, lagged_by, Subscriber, sync_reliable, try_recv}

-- Polling until nothing is left, with fuel.
unfoldable pub drain : ℕ → Subscriber → List Msg × Subscriber
drain zero s = ([], s)
drain (suc fuel) s =
    let (m, s') = try_recv s in
    elim m [ none ↦ ([], s') | some msg ↦ (msg ∷ (drain fuel s').0, (drain fuel s').1) ]

update-Holds :
    {k : ℕ} {log : List ChunkDesc} {r : Ring} (idx cursor : ℕ)
    → Holds k log r
    → Holds k log (update_reliable r idx cursor)
unfolding update_reliable
update-Holds idx cursor v = record {
  shape = record { power = v.shape.power; masked = v.shape.masked; allocated = v.shape.allocated };
  counted = v.counted;
  room = v.room;
  live = v.live;
}

sync-Holds :
    {k : ℕ} {log : List ChunkDesc} (s : Subscriber)
    → Holds k log s.ring
    → Holds k log (sync_reliable s).ring
unfolding sync_reliable
sync-Holds s v = elim (Option-cases s.reliable) [
  | inl e ↦ rw (e, sync_reliable) v
  | inr (idx, e) ↦ rw (e, sync_reliable) (update-Holds idx s.cursor v)
]

sync_fields :
    (s : Subscriber)
    → ((sync_reliable s).cursor ≡ s.cursor) × ((sync_reliable s).ring.capacity ≡ s.ring.capacity)
unfolding sync_reliable update_reliable
sync_fields s = ground arith

try_recv-empty : (s : Subscriber) → read_at s.ring s.cursor ≡ empty → try_recv s ≡ (none, s)
unfolding try_recv
try_recv-empty s e = rw (e, try_recv)

try_recv-sample :
    (s : Subscriber) (d : ChunkDesc)
    → read_at s.ring s.cursor ≡ sample d
    → try_recv s
      ≡ (some (sample_of d), sync_reliable (record s { cursor = (s.cursor + 1) % 2 ^ 64 }))
unfolding try_recv
try_recv-sample s d e = rw (e, try_recv)

try_recv-lagged :
    (s : Subscriber) (n c : ℕ)
    → read_at s.ring s.cursor ≡ lagged n c
    → try_recv s ≡ (some (lagged_by n), sync_reliable (record s { cursor = c }))
unfolding try_recv
try_recv-lagged s n c e = rw (e, try_recv)

drop-cons {ℓ} :
    {A : Type ℓ} (xs : List A) (i : ℕ) (d : A)
    → i < length xs
    → drop i xs ≡ get_or xs i d ∷ drop (suc i) xs
drop-cons [] i d h = absurd (omega arith)
drop-cons (x ∷ xs) zero d h = refl
drop-cons (x ∷ xs) (suc i) d h = drop-cons xs i d (omega arith)

drop-length {ℓ} : {A : Type ℓ} (xs : List A) (i : ℕ) → length xs ≤ i → drop i xs ≡ []
drop-length [] zero h = refl
drop-length [] (suc i) h = refl
drop-length (x ∷ xs) zero h = absurd (omega arith)
drop-length (x ∷ xs) (suc i) h = drop-length xs i (omega arith)

-- What is left of the log, and the cursor at its end.
abbrev Drained : List ChunkDesc → List Msg × Subscriber → List Msg → Type 0
Drained log out expected = (out.0 ≡ expected) × (out.1.cursor ≡ length log)

drain-window :
    (fuel k : ℕ) (log : List ChunkDesc) (s : Subscriber)
    → Holds k log s.ring
    → s.cursor ≤ length log
    → length log ≤ s.cursor + s.ring.capacity
    → length log < s.cursor + fuel
    → Drained log (drain fuel s) (map sample_of (drop s.cursor log))
unfolding drain read_log
drain-window zero k log s v before kept enough = absurd (omega arith)
drain-window (suc fuel) k log s v before kept enough = elim (dec_lt s.cursor (length log)) [
  | no end ↦
      let at_end : read_at s.ring s.cursor ≡ empty =
        ground (arith, read_at-read_log k log s.ring s.cursor v) in
      ground (arith, try_recv-empty s at_end, drop-length log s.cursor (omega arith))
  | yes more ↦
      let next : Subscriber = sync_reliable (record s { cursor = (s.cursor + 1) % 2 ^ 64 }) in
      let found : read_at s.ring s.cursor ≡ sample (get_or log s.cursor zero_desc) =
        ground (arith, read_at-read_log k log s.ring s.cursor v) in
      let facts = sync_fields (record s { cursor = (s.cursor + 1) % 2 ^ 64 }) in
      let moved : next.cursor ≡ suc s.cursor = omega (arith, facts.0, v.room) in
      let rest =
        drain-window fuel k log next (sync-Holds (record s { cursor = (s.cursor + 1) % 2 ^ 64 }) v)
          (omega arith) (omega (arith, facts.1)) (omega arith) in
      ground (
        arith,
        try_recv-sample s (get_or log s.cursor zero_desc) found,
        rest,
        drop-cons log s.cursor zero_desc more,
        ap (λ i. map sample_of (drop i log)) moved,
      )
]

-- A subscriber that polls until it has caught up receives, in order and once each, every entry of
-- the log from its cursor on that the ring still holds; before them, if it was lapped, one notice
-- with the number of the entries missed. Then its cursor is the head.
pub drain_lem :
    (fuel k : ℕ) (log : List ChunkDesc) (s : Subscriber)
    → Holds k log s.ring
    → s.cursor ≤ length log
    → length log + 1 < s.cursor + fuel
    → ((drain fuel s).0 ≡ (
        if ltb (s.cursor + s.ring.capacity) (length log)
        then lagged_by (length log - s.ring.capacity - s.cursor)
          ∷ map sample_of (drop (length log - s.ring.capacity) log)
        else map sample_of (drop s.cursor log)))
      × ((drain fuel s).1.cursor ≡ length log)
unfolding drain read_log
drain_lem zero k log s v before enough = absurd (omega arith)
drain_lem (suc fuel) k log s v before enough =
    elim (dec_lt (s.cursor + s.ring.capacity) (length log)) [
      | no kept ↦
          ground (arith, drain-window (suc fuel) k log s v before (omega arith) (omega arith))
      | yes lapped ↦
          let c : ℕ = length log - s.ring.capacity in
          let found : read_at s.ring s.cursor ≡ lagged (c - s.cursor) c =
            ground (arith, read_at-read_log k log s.ring s.cursor v) in
          let facts = sync_fields (record s { cursor = c }) in
          let rest =
            drain-window fuel k log (sync_reliable (record s { cursor = c }))
              (sync-Holds (record s { cursor = c }) v) (omega (arith, facts.0))
              (omega (arith, facts.0, facts.1)) (omega (arith, facts.0)) in
          ground (
            arith,
            try_recv-lagged s (c - s.cursor) c found,
            rest,
            ap (λ i. map sample_of (drop i log)) facts.0,
          )
    ]
