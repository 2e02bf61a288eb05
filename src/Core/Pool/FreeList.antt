-- ===== src/Core/Pool/FreeList.antt =====
-- The free list of a class is a stack of distinct chunks, whatever is written into chunks that
-- are not in it.
use shm_actors.Prelude.{
  ℕ, ◌+◌, ◌%◌, ◌^◌, ◌≤◌, ◌<◌, ◌≡◌, ◌≢◌, sym, subst, Option, none, some, List, [], ◌∷◌, arith,
  length, get_or, set, length-set, get_or-set_self, get_or-set_ne, ap, ◌∙◌,
}
use shm_actors.Core.Pool.{
  ClassHeader, empty, slot_of, tag_of, head_pack, treiber_pop, treiber_push, read_link, push_chunk,
}

-- `x` is not in the list.
abbrev pub Fresh : ℕ → List ℕ → Type 0
Fresh x [] = Unit {0}
Fresh x (y ∷ ys) = (x ≢ y) × Fresh x ys

-- The links lead from `slot` through these chunks, all different, and end.
abbrev pub Chain : List ℕ → ℕ → List ℕ → Type 0
Chain links slot [] = slot ≡ empty
Chain links slot (x ∷ xs) =
    (slot ≡ x) × (x < length links) × Fresh x xs × Chain links (get_or links x empty) xs

-- A class whose free chunks are these, the next to be handed out first.
pub record IsFreeList (c : ClassHeader) (xs : List ℕ) : Type 0 where
  pub counted : length c.links ≡ c.chunk_count
  pub addressable : c.chunk_count ≤ empty
  pub chained : Chain c.links (slot_of c.head) xs

pub Chain-set :
    (links : List ℕ) (slot : ℕ) (xs : List ℕ) (x v : ℕ)
    → Fresh x xs
    → Chain links slot xs
    → Chain (set links x v) slot xs
Chain-set links slot [] x v f c = c
Chain-set links slot (y ∷ ys) x v f c = (
  c.0,
  subst (λ n. y < n) (sym (length-set links x v)) c.1,
  c.2,
  subst (λ s. Chain (set links x v) s ys) (sym (get_or-set_ne links x y v empty f.0))
      (Chain-set links (get_or links y empty) ys x v f.1 c.3),
)

-- What happens to a class: the two ends of the stack, and a write into a chunk's first bytes.
pub data Op : Type 0 where
  pops : Op
  pushes : ℕ → Op
  writes : ℕ → ℕ → Op

unfoldable pub apply : ClassHeader → Op → ClassHeader
unfolding treiber_pop
apply c pops = record c { head = (treiber_pop c.head (read_link c)).1 }
apply c (pushes slot) = push_chunk c slot
apply c (writes slot v) = record c { links = set c.links slot v }

-- The same on a stack.
abbrev pub apply_stack : List ℕ → Op → List ℕ
apply_stack [] pops = []
apply_stack (x ∷ xs) pops = xs
apply_stack xs (pushes slot) = slot ∷ xs
apply_stack xs (writes slot v) = xs

abbrev pub top : List ℕ → Option ℕ
top [] = none
top (x ∷ xs) = some x

-- Only a chunk that was handed out comes back or is written.
abbrev pub Allowed : ClassHeader → List ℕ → Op → Type 0
Allowed c xs pops = Unit {0}
Allowed c xs (pushes slot) = (slot < c.chunk_count) × Fresh slot xs
Allowed c xs (writes slot v) = Fresh slot xs

pub slot_of-head_pack : (tag slot : ℕ) → slot < 2 ^ 32 → slot_of (head_pack tag slot) ≡ slot
slot_of-head_pack tag slot h = omega arith

-- The link of a chunk on the list is below 2^32.
pub Chain-bounded :
    (links : List ℕ) (slot : ℕ) (xs : List ℕ)
    → length links ≤ empty
    → Chain links slot xs
    → slot < 2 ^ 32
Chain-bounded links slot [] h c = omega arith
Chain-bounded links slot (x ∷ xs) h c = omega (arith, c.0, c.1)

-- A pop returns the top of the stack, and none of an empty one.
pub treiber_pop-top :
    (c : ClassHeader) (xs : List ℕ)
    → IsFreeList c xs
    → (treiber_pop c.head (read_link c)).0 ≡ top xs
unfolding treiber_pop
treiber_pop-top c [] h = ground (arith, h.chained)
treiber_pop-top c (x ∷ xs) h = ground (arith, h.chained.0, h.chained.1, h.counted, h.addressable)

pub slot_of-pop_empty :
    (head : ℕ) (r : ℕ → ℕ) → slot_of head ≡ empty → slot_of (treiber_pop head r).1 ≡ empty
unfolding treiber_pop
slot_of-pop_empty head r h = ground arith

pub slot_of-pop :
    (head : ℕ) (r : ℕ → ℕ)
    → slot_of head ≢ empty
    → r (slot_of head) < 2 ^ 32
    → slot_of (treiber_pop head r).1 ≡ r (slot_of head)
unfolding treiber_pop
slot_of-pop head r h b = ground (arith, slot_of-head_pack ((tag_of head + 1) % 2 ^ 32))

-- Pops, pushes and writes into chunks that were handed out act on the free list as on a stack,
-- which stays one of distinct chunks of the class.
pub apply-IsFreeList :
    (c : ClassHeader) (xs : List ℕ) (op : Op)
    → IsFreeList c xs
    → Allowed c xs op
    → IsFreeList (apply c op) (apply_stack xs op)
unfolding apply treiber_pop treiber_push
apply-IsFreeList c [] pops h a = record {
  counted = h.counted;
  addressable = h.addressable;
  chained = slot_of-pop_empty c.head (read_link c) h.chained;
}
apply-IsFreeList c (x ∷ xs) pops h a = record {
  counted = h.counted;
  addressable = h.addressable;
  chained = subst (λ s. Chain c.links s xs) (sym (next ∙ ap (read_link c) h.chained.0)) h.chained.3;
}
  where
    bounded : read_link c x < 2 ^ 32
    bounded =
        Chain-bounded c.links (read_link c x) xs (omega (arith, h.counted, h.addressable))
          h.chained.3

    next : slot_of (treiber_pop c.head (read_link c)).1 ≡ read_link c (slot_of c.head)
    next =
        slot_of-pop c.head (read_link c)
          (λ e. omega (arith, e, h.chained.0, h.chained.1, h.counted, h.addressable))
          (subst (λ s. read_link c s < 2 ^ 32) (sym h.chained.0) bounded)
apply-IsFreeList c xs (pushes slot) h a = record {
  counted = length-set c.links slot (slot_of c.head) ∙ h.counted;
  addressable = h.addressable;
  chained = (
    omega (arith, a.0, h.addressable),
    omega (arith, a.0, h.counted, length-set c.links slot (slot_of c.head)),
    a.1,
    subst (λ s. Chain (set c.links slot (slot_of c.head)) s xs)
        (sym (get_or-set_self c.links slot (slot_of c.head) empty (omega (arith, a.0, h.counted))))
        (Chain-set c.links (slot_of c.head) xs slot (slot_of c.head) a.1 h.chained),
  );
}
apply-IsFreeList c xs (writes slot v) h a = record {
  counted = length-set c.links slot v ∙ h.counted;
  addressable = h.addressable;
  chained = Chain-set c.links (slot_of c.head) xs slot v a h.chained;
}
