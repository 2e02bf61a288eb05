-- ===== src/Task/Submit/Accept.antt =====
-- A submit finds a free slot if there is one, on whichever shard.
use shm_actors.Prelude.{
  ℕ, zero, suc, ◌+◌, ◌-◌, ◌%◌, ◌≤◌, ◌<◌, ◌≡◌, ◌≢◌, inl, inr, refl, sym, ap, subst, ◌∙◌, Option,
  some, none, List, [], ◌∷◌, ok, arith, get_or, List-cases, length,
}
use native.Mathlib.Nat.{mod-lt}
use shm_actors.Core.Desc.{ChunkDesc}
use shm_actors.Core.Pool.FreeList.{top}
use shm_actors.Task.Lease.{LeaseBinding}
use shm_actors.Task.Queue.{TaskQueue, shards, pop_from, popped_free, sweep_free, pop_free}
use shm_actors.Task.Invariant.{IsQueue}
use shm_actors.Task.Invariant.Moves.{pop_free-top}
use shm_actors.Task.Submit.{
  TaskHandle, Shards, reserve_popped, or_recover, reserve_submit_slot, submit_reserved,
  submit_inner, submit,
}

cons_not_nil : (x : ℕ) (xs : List ℕ) → x ∷ xs ≢ []
cons_not_nil x xs e = omega (arith, ap length e)

none_not_some : (x : ℕ) → none ≢ some x
none_not_some x e = cc e

-- A pop that gave a node.
abbrev Took : Option ℕ × TaskQueue → Type 0
Took r = (x : ℕ) × (r.0 ≡ some x)

sweep_free-Took :
    (q : TaskQueue) (free ready : List (List ℕ)) (home j k n x : ℕ) (xs : List ℕ)
    → IsQueue q free ready []
    → k ≤ j
    → j < k + n
    → get_or free ((home + j) % 8) [] ≡ x ∷ xs
    → Took (sweep_free q home k n)
sweep_free-Took q free ready home j k zero x xs h a b e = absurd (omega (arith, a, b))
sweep_free-Took q free ready home j k (suc n) x xs h a b e =
    let s = (home + k) % shards in
    let l : s < 8 = mod-lt (home + k) (omega arith) in
    let head = (pop_from q.free_heads q.links s).1 in
    let rest = sweep_free q home (suc k) n in
    let P : Option ℕ → Type 0 = λ o. Took (popped_free q s (o, head) rest) in
    subst P (sym (pop_free-top q free ready [] s h l)) (elim (List-cases (get_or free s [])) [
      | inl none_here ↦ subst P (sym (ap top none_here)) (
          sweep_free-Took q free ready home j (suc k) n x xs h (omega (arith, a, later none_here))
            (omega (arith, b)) e)
      | inr some_here ↦ subst P (sym (ap top some_here.2)) (some_here.0, refl)
    ])
  where
    later : get_or free ((home + k) % 8) [] ≡ [] → k ≢ j
    later c same =
        cons_not_nil x xs (sym e ∙ ap (λ t. get_or free ((home + t) % 8) []) (sym same) ∙ c)

-- The visit of a shard in a sweep from `home` on.
sweep_of : (home s : ℕ) → s < 8 → (j : ℕ) × (j < 8) × ((home + j) % 8 ≡ s)
sweep_of home s l = ((s + 8 - home % 8) % 8, mod-lt (s + 8 - home % 8) (omega arith), omega arith)

submit_reserved-Took :
    (s : ℕ) (request : ChunkDesc) (deadline : ℕ) (input : Option LeaseBinding)
    (lease_idx : Option ℕ) (home : ℕ) (r : Option ℕ × TaskQueue)
    → Took r
    → (h : TaskHandle) × ((submit_reserved s request deadline input lease_idx
          (or_recover home (reserve_popped r))).0
        ≡ ok h)
submit_reserved-Took s request deadline input lease_idx home (none, q) t =
    absurd (none_not_some t.0 t.1)
submit_reserved-Took s request deadline input lease_idx home (some idx, q) t = (_, refl)

-- While some shard has a free slot, a submit is accepted, from any thread.
pub submit-accepted :
    (q : TaskQueue) (free ready : List (List ℕ)) (at : Shards) (request : ChunkDesc)
    (deadline s x : ℕ) (xs : List ℕ)
    → IsQueue q free ready []
    → s < 8
    → get_or free s [] ≡ x ∷ xs
    → (h : TaskHandle) × ((submit q at request deadline).0 ≡ ok h)
unfolding submit submit_inner reserve_submit_slot pop_free
submit-accepted q free ready at request deadline s x xs h l e =
    let v = sweep_of at.first s l in
    submit_reserved-Took at.ready request deadline none none at.second (sweep_free q at.first 0 8) (
      sweep_free-Took q free ready at.first v.0 0 8 x xs h (omega arith) (omega (arith, v.1))
        (ap (λ t. get_or free t []) v.2 ∙ e))
