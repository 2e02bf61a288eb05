-- ===== src/Tests/TaskTests.antt =====
-- A lease record at concrete values.
use shm_actors.Prelude.{◌≡◌, inl, refl, false, [], ◌∷◌, arith}
use shm_actors.Task.Lease.{LeaseBinding, LeaseSlot, arm, try_ack, try_release, retire}
use shm_actors.Task.Lease.Election.{
  arms, acks, retires, run, step, count_arms, binding_of, released_once, binding_won,
}

-- Armed at generation 4, which is word 4 * 2^32 + 1.
abbrev armed : LeaseSlot
armed = record {
  word = 17179869185;
  version = 9;
  seq = 2;
  deadline = 100;
  artifact_id = 5;
  incarnation = 1;
  slot_idx = 3;
}

-- Free at generation 3.
abbrev idle : LeaseSlot
idle = record {
  word = 12884901888;
  version = 0;
  seq = 0;
  deadline = 0;
  artifact_id = 0;
  incarnation = 0;
  slot_idx = 0;
}

abbrev binding : LeaseBinding
binding = record { artifact_id = 5; incarnation = 1; version = 9 }

-- Released, retired and armed again for another task: the word that was seen is stale.
released_once_example :
    (try_release
      (run (try_release armed 17179869185).1 (retires ∷ arms binding 8 7 200 ∷ []))
      17179869185).0
    ≡ false
unfolding try_release step retire arm count_arms
released_once_example =
    released_once armed 17179869185 (retires ∷ arms binding 8 7 200 ∷ []) (inl refl) refl
      (refl, (refl, tt)) (omega arith)

-- Acked before it is released.
binding_won_example :
    binding_of (run (arm idle binding 3 2 100) (acks 17179869185 ∷ [])) ≡ (binding, 3, 2)
unfolding arm run step try_ack try_release count_arms
binding_won_example =
    binding_won idle binding 3 2 100 17179869187 (acks 17179869185 ∷ []) refl (omega arith) refl
