-- ===== src/Ring/Subscribe.antt =====
-- subscribe.rs and publish.rs: the two roles over a ring.
pub mod Drain
pub mod Waiters
use shm_actors.Prelude.{
  ℕ, zero, suc, ◌+◌, ◌%◌, ◌^◌, Bool, true, false, Option, none, some, List, [], ◌∷◌, Result, ok,
  err, if◌then◌else◌,
}
use shm_actors.Core.Desc.{ChunkDesc}
use shm_actors.Ring.{
  Error, Ring, head, publish, ReadOutcome, sample, lagged, empty, read_at, add_waiter,
  remove_waiter, register_reliable, update_reliable, release_reliable,
}

pub data Msg : Type 0 where
  sample_of : ChunkDesc → Msg
  lagged_by : ℕ → Msg

-- The ring field is the shared ring as the subscriber finds it. The parker, a strategy for
-- sleeping, is an argument of `recv`.
pub record Subscriber : Type 0 where
  pub ring : Ring
  pub cursor : ℕ
  pub reliable : Option ℕ

unfoldable pub with_parker : Ring → Subscriber
with_parker ring = record { ring = ring; cursor = head ring; reliable = none }

unfoldable pub from_seq : Ring → ℕ → Subscriber
unfolding with_parker
from_seq ring seq = record (with_parker ring) { cursor = seq }

unfoldable pub from_start : Ring → Subscriber
unfolding from_seq
from_start ring = from_seq ring 0

unfoldable pub make_reliable : Subscriber → Result Error Subscriber
make_reliable s = elim s.reliable [
  | some idx ↦ ok s
  | none ↦ elim (register_reliable s.ring s.cursor) [
    | ok (idx, ring) ↦ ok (record s { ring = ring; reliable = some idx })
    | err e ↦ err e
  ]
]

unfoldable pub sync_reliable : Subscriber → Subscriber
sync_reliable s = elim s.reliable [
  | none ↦ s
  | some idx ↦ record s { ring = update_reliable s.ring idx s.cursor }
]

-- `cursor += 1` of a u64
unfoldable pub try_recv : Subscriber → Option Msg × Subscriber
unfolding sync_reliable
try_recv s = elim (read_at s.ring s.cursor) [
  | sample desc ↦
      (some (sample_of desc), sync_reliable (record s { cursor = (s.cursor + 1) % 2 ^ 64 }))
  | lagged skipped new_cursor ↦
      (some (lagged_by skipped), sync_reliable (record s { cursor = new_cursor }))
  | empty ↦ (none, s)
]

-- Dropping a subscriber gives its cell back.
unfoldable pub drop_subscriber : Subscriber → Ring
drop_subscriber s = elim s.reliable [ none ↦ s.ring | some idx ↦ release_reliable s.ring idx ]

abbrev pub spin_limit : ℕ
spin_limit = 256

-- What the other parties do to the ring between two polls, and while the caller is parked.
pub record Others : Type 0 where
  pub between_polls : Ring → Ring
  pub while_parked : Ring → Ring

abbrev pub on_ring : (Ring → Ring) → Subscriber → Subscriber
on_ring f s = record s { ring = f s.ring }

-- The spinning half of `recv`: `n` polls.
unfoldable pub spin : Others → ℕ → Subscriber → Option Msg × Subscriber
spin o zero s = (none, s)
spin o (suc n) s =
    let (m, s') = try_recv s in
    elim m [ some msg ↦ (some msg, s') | none ↦ spin o n (on_ring o.between_polls s') ]

-- The other half of a round: register as a waiter, poll once more, and park.
unfoldable pub wait_once : Others → Subscriber → Option Msg × Subscriber
wait_once o s =
    let (m, s') = try_recv (on_ring o.between_polls (on_ring add_waiter s)) in
    elim m [
      | some msg ↦ (some msg, on_ring remove_waiter s')
      | none ↦ (none, on_ring remove_waiter (on_ring o.while_parked s'))
    ]

-- `recv` with fuel for its rounds; `none` when the fuel runs out.
unfoldable pub recv : Others → ℕ → Subscriber → Option Msg × Subscriber
recv o zero s = (none, s)
recv o (suc fuel) s =
    let (m, s₁) = spin o spin_limit s in
    elim m [
      | some msg ↦ (some msg, s₁)
      | none ↦
          let (m', s₂) = wait_once o s₁ in
          elim m' [ some msg ↦ (some msg, s₂) | none ↦ recv o fuel s₂ ]
    ]

-- `Publisher::publish`: the notifier is called when a subscriber is parked.
unfoldable pub publish_and_notify : (Ring → Ring) → Ring → ChunkDesc → Ring
publish_and_notify notify ring desc =
    let (parked, ring') = publish ring desc in if parked then notify ring' else ring'
