-- ===== src/Core/Pool/Tag.antt =====
-- The tag in the head word of a free list, against the ABA problem: a compare-and-swap that
-- was prepared before other parties popped and pushed.
use shm_actors.Prelude.{
  ℕ, ◌+◌, ◌%◌, ◌^◌, ◌<◌, ◌≡◌, ◌≢◌, List, [], ◌∷◌, arith, ◌==◌, if◌then◌else◌, ap,
}
use shm_actors.Core.Pool.{
  ClassHeader, empty, slot_of, tag_of, head_pack, treiber_pop, treiber_push, read_link,
}
use shm_actors.Core.Pool.FreeList.{Op, pops, pushes, writes, apply}

unfoldable pub run : ClassHeader → List Op → ClassHeader
run c [] = c
run c (op ∷ ops) = run (apply c op) ops

-- A pop of an empty list and a write leave the head word alone.
abbrev pub moves : ClassHeader → Op → ℕ
moves c pops = if slot_of c.head == empty then 0 else 1
moves c (pushes slot) = 1
moves c (writes slot v) = 0

unfoldable pub count_moves : ClassHeader → List Op → ℕ
count_moves c [] = 0
count_moves c (op ∷ ops) = moves c op + count_moves (apply c op) ops

-- A slot and a link are u32.
abbrev pub Fits : ClassHeader → Op → Type 0
Fits c pops = read_link c (slot_of c.head) < 2 ^ 32
Fits c (pushes slot) = slot < 2 ^ 32
Fits c (writes slot v) = v < 2 ^ 32

abbrev pub AllFit : ClassHeader → List Op → Type 0
AllFit c [] = Unit {0}
AllFit c (op ∷ ops) = Fits c op × AllFit (apply c op) ops

tag_of-head_pack :
    (tag slot : ℕ) → slot < 2 ^ 32 → tag_of (head_pack (tag % 2 ^ 32) slot) ≡ tag % 2 ^ 32
tag_of-head_pack tag slot h = omega arith

tag_of-apply :
    (c : ClassHeader) (op : Op)
    → Fits c op
    → tag_of (apply c op).head ≡ (tag_of c.head + moves c op) % 2 ^ 32
unfolding apply treiber_pop treiber_push
tag_of-apply c pops f = ground (arith, tag_of-head_pack (tag_of c.head + 1))
tag_of-apply c (pushes slot) f = tag_of-head_pack (tag_of c.head + 1) slot f
tag_of-apply c (writes slot v) f = omega arith

tag_of-run :
    (c : ClassHeader) (ops : List Op)
    → AllFit c ops
    → tag_of (run c ops).head ≡ (tag_of c.head + count_moves c ops) % 2 ^ 32
unfolding run count_moves
tag_of-run c [] f = omega arith
tag_of-run c (op ∷ ops) f = omega (arith, tag_of-run (apply c op) ops f.1, tag_of-apply c op f.0)

-- A compare-and-swap that expects an earlier head word fails after any number of pops and
-- pushes in between that is not a multiple of 2^32, also when they put the same chunk on top
-- again.
pub stale_swap :
    (c : ClassHeader) (ops : List Op)
    → AllFit c ops
    → 0 < count_moves c ops % 2 ^ 32
    → (run c ops).head ≢ c.head
stale_swap c ops f h e = omega (arith, tag_of-run c ops f, ap tag_of e)
