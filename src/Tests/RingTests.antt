-- ===== src/Tests/RingTests.antt =====
-- A ring of two slots, with three messages published.
use shm_actors.Prelude.{◌++◌, ℕ, ◌+◌, ◌≡◌, refl, List, [], ◌∷◌, ok, arith}
use shm_actors.Core.Desc.{ChunkDesc, zero_desc}
use shm_actors.Ring.{Ring, init, fresh_region, publish, read_at, sample, lagged, reliable_unused}
use shm_actors.Ring.Log.{Holds, publish-Holds, read_log, read_at-read_log}
use shm_actors.Ring.Subscribe.{sample_of, lagged_by, from_start, from_seq, Others}
use shm_actors.Ring.Subscribe.Drain.{drain, drain_lem}
use shm_actors.Ring.Race
use shm_actors.Ring.Race.{idle, reading, returned, producer, subscriber, Turn}
use shm_actors.Ring.Race.Overtaken.{overtaking, overtaken}
use shm_actors.Ring.Race.Safety.{sample_of_own_and_next}
use shm_actors.Ring.Race.Fields.{FromEither}

abbrev d : ℕ → ChunkDesc
d n = record zero_desc { offset = n }

abbrev new_ring : Ring
new_ring = record { region = fresh_region 2; capacity = 2; mask = 1 }

new_ring_lem : init 64 192 2 ≡ ok new_ring
unfolding init
new_ring_lem = refl

new_ring-Holds : Holds 1 [] new_ring
new_ring-Holds = record {
  shape = record { power = refl; masked = refl; allocated = refl };
  counted = refl;
  room = omega arith;
  live = λ s h. absurd (omega arith);
}

abbrev ring₁ : Ring
ring₁ = (publish new_ring (d 0)).1

ring₁-Holds : Holds 1 (d 0 ∷ []) ring₁
ring₁-Holds = publish-Holds 1 [] new_ring (d 0) new_ring-Holds (omega arith)

abbrev ring₂ : Ring
ring₂ = (publish ring₁ (d 1)).1

ring₂-Holds : Holds 1 (d 0 ∷ d 1 ∷ []) ring₂
ring₂-Holds = publish-Holds 1 (d 0 ∷ []) ring₁ (d 1) ring₁-Holds (omega arith)

abbrev ring₃ : Ring
ring₃ = (publish ring₂ (d 2)).1

abbrev log₃ : List ChunkDesc
log₃ = d 0 ∷ d 1 ∷ d 2 ∷ []

ring₃-Holds : Holds 1 log₃ ring₃
ring₃-Holds = publish-Holds 1 (d 0 ∷ d 1 ∷ []) ring₂ (d 2) ring₂-Holds (omega arith)

-- Message 0 is gone, and message 1 is the oldest.
read_at-read_log_example : read_at ring₃ 0 ≡ lagged 1 1
unfolding publish read_log
read_at-read_log_example = read_at-read_log 1 log₃ ring₃ 0 ring₃-Holds

drain_lem_example :
    ((drain 6 (from_start ring₃)).0 ≡ lagged_by 1 ∷ sample_of (d 1) ∷ sample_of (d 2) ∷ [])
    × ((drain 6 (from_start ring₃)).1.cursor ≡ 3)
unfolding from_start from_seq publish
drain_lem_example = drain_lem 6 1 log₃ (from_start ring₃) ring₃-Holds (omega arith) (omega arith)

abbrev nobody : Others
nobody = record { between_polls = λ r. r; while_parked = λ r. r }

abbrev registered_ring : Ring
registered_ring = record new_ring {
  region = record {
    header = record (fresh_region 2).header {
      reliable =
          5 ∷ reliable_unused ∷ reliable_unused ∷ reliable_unused ∷ reliable_unused
          ∷ reliable_unused ∷ reliable_unused ∷ reliable_unused ∷ [];
    };
    slots = (fresh_region 2).slots;
  };
}

-- The ring holds messages 0 and 1; a subscriber at 0 is given message 2.
overtaken_example :
    (Race.run d 0 (record { ring = ring₂; writer = idle; reader = reading }) overtaking).reader
    ≡ returned (sample (d 2))
unfolding publish
overtaken_example = overtaken d 1 (d 0 ∷ d 1 ∷ []) ring₂ 0 ring₂-Holds refl

-- Messages that differ in two fields.
abbrev both : ℕ → ChunkDesc
both n = record zero_desc { offset = n; len = n }

-- The accesses of one message.
abbrev one_message : List Turn
one_message =
    producer ∷ producer ∷ producer ∷ producer ∷ producer ∷ producer ∷ producer ∷ producer ∷ producer
    ∷ []

-- Two messages; then a read about the first three fields of the third.
abbrev turns : List Turn
turns =
    one_message
    ++ one_message
    ++ (subscriber ∷ subscriber ∷ producer ∷ producer ∷ producer ∷ producer ∷ subscriber
        ∷ subscriber ∷ subscriber ∷ subscriber ∷ subscriber ∷ subscriber ∷ subscriber ∷ [])

-- The sample has the offset of message 2 and the length of message 0.
sample_of_own_and_next_example :
    FromEither (both 0) (both (0 + 2)) (record zero_desc { offset = 2; len = 0 })
unfolding Race.run Race.turn Race.write_step Race.read_step
sample_of_own_and_next_example =
    sample_of_own_and_next both 64 192 2 0 turns (record zero_desc { offset = 2; len = 0 })
      new_ring_lem (omega arith) refl
