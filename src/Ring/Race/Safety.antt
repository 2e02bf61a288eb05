-- ===== src/Ring/Race/Safety.antt =====
-- What a subscriber can be given, whatever the order of its accesses and the producer's.
use shm_actors.Prelude.{
  ℕ, ◌+◌, ◌<◌, ◌≡◌, inl, inr, List, arith, length, length-replicate, get_or-replicate, ◌∙◌, subst,
  ok, Bool-cases,
}
use shm_actors.Core.Desc.{ChunkDesc}
use shm_actors.Ring.{Ring, empty_slot, reliable_unused, is_power_below, init, sample}
use shm_actors.Ring.Geometry.{power_of_two}
use shm_actors.Ring.Race.{idle, reading, returned, System, Turn, run}
use shm_actors.Ring.Race.Fields.{Among, FromEither, Among-FromEither}
use shm_actors.Ring.Race.Invariant.{Produced}
use shm_actors.Ring.Race.Seen.{run-Knows}

fresh-Produced :
    (msgs : ℕ → ChunkDesc) (base region_len capacity left : ℕ) {r : Ring}
    → init base region_len capacity ≡ ok r
    → left < reliable_unused
    → (k : ℕ) × Produced msgs k left idle r × (r.capacity ≡ capacity)
unfolding init
fresh-Produced msgs base region_len capacity left {r} e room =
    elim (Bool-cases (is_power_below 32 capacity)) [
      | inl p ↦
          let (k, lt, q) = power_of_two 32 capacity p in
          (
            k,
            record {
              shape = record {
                power = ground arith;
                masked = ground arith;
                allocated = ground (arith, length-replicate capacity empty_slot);
              };
              room = ground arith;
              at_head = tt;
              fits = λ j lt. inl (ground (arith, get_or-replicate capacity j empty_slot));
              carries = λ j lt. inl (ground (arith, get_or-replicate capacity j empty_slot));
            },
            ground arith,
          )
      | inr p ↦ absurd (ground arith)
    ]

-- From a new ring, in whatever order the producer and the subscriber make their accesses, of fewer
-- than 2^64 - 1: each field of what a subscriber at `cursor` is given as a sample is that of message
-- `cursor`, or that of the message that replaces it in its slot, `cursor + capacity`.
pub sample_of_own_and_next :
    (msgs : ℕ → ChunkDesc) (base region_len capacity cursor : ℕ) {r : Ring} (ts : List Turn)
    (desc : ChunkDesc)
    → init base region_len capacity ≡ ok r
    → length ts < reliable_unused
    → (run msgs cursor (record { ring = r; writer = idle; reader = reading }) ts).reader
      ≡ returned (sample desc)
    → FromEither (msgs cursor) (msgs (cursor + capacity)) desc
sample_of_own_and_next msgs base region_len capacity cursor {r} ts desc e room given =
    let start : System = record { ring = r; writer = idle; reader = reading } in
    let (k, v, same) = fresh-Produced msgs base region_len capacity (length ts) e room in
    let (known, kept) = run-Knows msgs k cursor ts start v tt in
    Among-FromEither (msgs cursor) (msgs (cursor + capacity)) desc (
      subst (λ c. Among 6 (msgs cursor) (msgs (cursor + c)) desc) (kept ∙ same) (rw given at known))
