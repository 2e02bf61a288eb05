-- ===== src/Task/Queue/Created.antt =====
-- A new queue has every slot on the first free shard.
use shm_actors.Prelude.{
  ℕ, zero, suc, ◌+◌, ◌^◌, ◌≤◌, ◌<◌, ◌≡◌, inl, inr, refl, sym, ap, subst, List, [], ◌∷◌, ok, arith,
  replicate, length-replicate, get_or-replicate, pow_pos, Bool-cases, ==_iff, ◌==◌, true,
}
use shm_actors.Core.Pool.{link_chain}
use shm_actors.Core.Pool.FreeList.{Chain}
use shm_actors.Core.Pool.Created.{slots_from, length-link_chain, Chain-link_chain}
use shm_actors.Ring.{is_power_below}
use shm_actors.Task.Slot.{new_slot}
use shm_actors.Task.Queue.{TaskQueue, new_queue, stack_nil, pack_stack_head, init_with_max_retries}
use shm_actors.Task.Stacks.{Chains, count}
use shm_actors.Task.Invariant.{IsQueue, state_of}

count-slots_from :
    (i from n : ℕ)
    → (count i (slots_from from n) ≤ 1)
      × (0 < count i (slots_from from n) → (from ≤ i) × (i < from + n))
count-slots_from i from zero = (omega arith, λ m. absurd (omega (arith, m)))
count-slots_from i from (suc n) =
    let rest = count-slots_from i (suc from) n in
    (ground (arith, rest), λ m. ground (arith, rest, m))

new_state : (capacity i : ℕ) → state_of (replicate capacity new_slot) i ≡ 0
new_state capacity i = ap (λ t. t.state) (get_or-replicate capacity i new_slot)

-- Stacks without a node.
Chains-nil :
    (links : List ℕ) (n : ℕ)
    → Chains links (replicate n (pack_stack_head stack_nil 0)) (replicate n [])
Chains-nil links zero = tt
Chains-nil links (suc n) = (refl, Chains-nil links n)

power_bound : (n x : ℕ) → is_power_below n x ≡ true → x < 2 ^ n
unfolding is_power_below
power_bound zero x h = absurd (cc)
power_bound (suc n) x h = elim (Bool-cases (x == 2 ^ n)) [
  | inl e ↦ omega (arith, (==_iff x (2 ^ n)).0 e, pow_pos n)
  | inr ne ↦ omega (arith, power_bound n x (ground arith))
]

pub new_queue-IsQueue :
    (capacity max_retries : ℕ)
    → 0 < capacity
    → capacity < 2 ^ 32
    → IsQueue
        (new_queue capacity max_retries)
        (slots_from 0 capacity ∷ replicate 7 [])
        (replicate 8 [])
        []
new_queue-IsQueue capacity max_retries p l = record {
  slots_sized = length-replicate capacity new_slot;
  links_sized = length-link_chain capacity 0 capacity;
  addressable = omega arith;
  free_shards = refl;
  ready_shards = refl;
  free_chains = (
    subst (λ t. Chain (link_chain capacity 0 capacity) t (slots_from 0 capacity)) (ground arith)
        (Chain-link_chain capacity 0 capacity (omega arith)),
    Chains-nil (link_chain capacity 0 capacity) 7,
  );
  ready_chains = Chains-nil (link_chain capacity 0 capacity) 8;
  once = λ i. omega (arith, (count-slots_from i 0 capacity).0);
  in_range = λ i m. omega (arith, ((count-slots_from i 0 capacity).1 (omega (arith, m))).1);
  free_reusable = λ i m. inl (new_state capacity i);
  ready_live = λ i m. absurd (omega (arith, m));
  queued_found = λ i m. absurd (omega (arith, m, new_state capacity i));
}

-- A queue that `init` makes is well formed: every slot is on the first free shard, the first slot
-- on top, and no slot is ready.
pub init_with_max_retries-IsQueue :
    (base region_len capacity max_retries : ℕ) (q : TaskQueue)
    → init_with_max_retries base region_len capacity max_retries ≡ ok q
    → IsQueue q (slots_from 0 capacity ∷ replicate 7 []) (replicate 8 []) []
unfolding init_with_max_retries
init_with_max_retries-IsQueue base region_len capacity max_retries q e =
    subst (λ q. IsQueue q (slots_from 0 capacity ∷ replicate 7 []) (replicate 8 []) []) (sym inv.2)
      (new_queue-IsQueue capacity max_retries inv.0 (power_bound 32 capacity inv.1))
  where
    inv :
        (0 < capacity) × (is_power_below 32 capacity ≡ true) × (q ≡ new_queue capacity max_retries)
    inv = grind arith
