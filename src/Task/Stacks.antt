-- ===== src/Task/Stacks.antt =====
-- A family of Treiber stacks over one table of links, such as the shards of the free and of the
-- ready slots.
use shm_actors.Prelude.{
  ℕ, zero, suc, ◌+◌, ◌≤◌, ◌<◌, ◌≡◌, refl, sym, List, [], ◌∷◌, arith, length, get_or, set, ◌==◌,
  if◌then◌else◌,
}
use shm_actors.Core.Pool.{ClassHeader, empty, slot_of, treiber_push}
use shm_actors.Core.Pool.FreeList.{
  Fresh, Chain, IsFreeList, Chain-set, top, treiber_pop-top, apply, pops, pushes, apply-IsFreeList,
}
use shm_actors.Task.Queue.{pop_from, push_links}

abbrev pub count : ℕ → List ℕ → ℕ
count i [] = 0
count i (x ∷ xs) = (if x == i then 1 else 0) + count i xs

abbrev pub occurs : ℕ → List (List ℕ) → ℕ
occurs i [] = 0
occurs i (xs ∷ xss) = count i xs + occurs i xss

pub Fresh-count : (i : ℕ) (xs : List ℕ) → count i xs ≡ 0 → Fresh i xs
Fresh-count i [] h = tt
Fresh-count i (x ∷ xs) h = ((λ e. ground (arith, sym e)), Fresh-count i xs (ground arith))

-- Every head leads through its stack.
abbrev pub Chains : List ℕ → List ℕ → List (List ℕ) → Type 0
Chains links [] [] = Unit {0}
Chains links (h ∷ hs) (xs ∷ xss) = Chain links (slot_of h) xs × Chains links hs xss
Chains links [] (xs ∷ xss) = ⊥
Chains links (h ∷ hs) [] = ⊥

pub Chains-set :
    (links hs : List ℕ) (xss : List (List ℕ)) (x v : ℕ)
    → occurs x xss ≡ 0
    → Chains links hs xss
    → Chains (set links x v) hs xss
Chains-set links [] [] x v o c = tt
Chains-set links [] (xs ∷ xss) x v o c = absurd c
Chains-set links (h ∷ hs) [] x v o c = absurd c
Chains-set links (h ∷ hs) (xs ∷ xss) x v o c = (
  Chain-set links (slot_of h) xs x v (Fresh-count x xs (omega (arith, o))) c.0,
  Chains-set links hs xss x v (omega (arith, o)) c.1,
)

pub Chains-elem :
    (links hs : List ℕ) (xss : List (List ℕ)) (s : ℕ)
    → Chains links hs xss
    → s < length xss
    → Chain links (slot_of (get_or hs s 0)) (get_or xss s [])
Chains-elem links hs [] s c h = absurd (omega arith)
Chains-elem links [] (xs ∷ xss) s c h = absurd c
Chains-elem links (h ∷ hs) (xs ∷ xss) zero c l = c.0
Chains-elem links (h ∷ hs) (xs ∷ xss) (suc s) c l = Chains-elem links hs xss s c.1 (omega arith)

pub Chains-put :
    (links hs : List ℕ) (xss : List (List ℕ)) (s h : ℕ) (xs : List ℕ)
    → Chains links hs xss
    → Chain links (slot_of h) xs
    → Chains links (set hs s h) (set xss s xs)
Chains-put links [] [] s h xs c d = tt
Chains-put links [] (ys ∷ xss) s h xs c d = absurd c
Chains-put links (g ∷ hs) [] s h xs c d = absurd c
Chains-put links (g ∷ hs) (ys ∷ xss) zero h xs c d = (d, c.1)
Chains-put links (g ∷ hs) (ys ∷ xss) (suc s) h xs c d = (c.0, Chains-put links hs xss s h xs c.1 d)

pub occurs-set :
    (i : ℕ) (xss : List (List ℕ)) (s : ℕ) (ys : List ℕ)
    → s < length xss
    → occurs i (set xss s ys) + count i (get_or xss s []) ≡ occurs i xss + count i ys
occurs-set i [] s ys h = absurd (omega arith)
occurs-set i (xs ∷ xss) zero ys h = omega arith
occurs-set i (xs ∷ xss) (suc s) ys h = omega (arith, occurs-set i xss s ys (omega arith))

-- One stack as the free list of a class.
abbrev class_of : List ℕ → ℕ → ClassHeader
class_of links head = record {
  head = head;
  chunk_size = 0;
  chunk_count = length links;
  base_index = 0;
  data_offset = 0;
  links = links;
}

free_list :
    (links : List ℕ) (head : ℕ) (xs : List ℕ)
    → length links ≤ empty
    → Chain links (slot_of head) xs
    → IsFreeList (class_of links head) xs
free_list links head xs h c = record { counted = refl; addressable = h; chained = c }

-- A pop of a shard.
pub pop_from-top :
    (links hs : List ℕ) (xss : List (List ℕ)) (s : ℕ)
    → length links ≤ empty
    → Chains links hs xss
    → s < length xss
    → (pop_from hs links s).0 ≡ top (get_or xss s [])
pop_from-top links hs xss s h c l =
    treiber_pop-top (class_of links (get_or hs s 0)) (get_or xss s [])
      (free_list links (get_or hs s 0) (get_or xss s []) h (Chains-elem links hs xss s c l))

abbrev pub tail : List ℕ → List ℕ
tail [] = []
tail (x ∷ xs) = xs

pub pop_from-Chains :
    (links hs : List ℕ) (xss : List (List ℕ)) (s : ℕ)
    → length links ≤ empty
    → Chains links hs xss
    → s < length xss
    → Chains links (set hs s (pop_from hs links s).1) (set xss s (tail (get_or xss s [])))
unfolding apply
pop_from-Chains links hs xss s h c l =
    Chains-put links hs xss s (pop_from hs links s).1 (tail (get_or xss s [])) c
      (popped (get_or xss s []) (Chains-elem links hs xss s c l))
  where
    popped :
        (xs : List ℕ)
        → Chain links (slot_of (get_or hs s 0)) xs
        → Chain links (slot_of (pop_from hs links s).1) (tail xs)
    popped [] d =
        (apply-IsFreeList (class_of links (get_or hs s 0)) [] pops
          (free_list links (get_or hs s 0) [] h d) tt).chained
    popped (x ∷ xs) d =
        (apply-IsFreeList (class_of links (get_or hs s 0)) (x ∷ xs) pops
          (free_list links (get_or hs s 0) (x ∷ xs) h d) tt).chained

-- A push on a shard of a node that is on no stack of the family.
pub push_links-Chains :
    (links hs : List ℕ) (xss : List (List ℕ)) (s x : ℕ)
    → length links ≤ empty
    → Chains links hs xss
    → s < length xss
    → x < length links
    → occurs x xss ≡ 0
    → count x (get_or xss s []) ≡ 0
    → Chains
        (push_links hs links s x).0
        (set hs s (push_links hs links s x).1)
        (set xss s (x ∷ get_or xss s []))
unfolding apply treiber_push
push_links-Chains links hs xss s x h c l m o z =
    Chains-put (push_links hs links s x).0 hs xss s (push_links hs links s x).1
      (x ∷ get_or xss s []) (Chains-set links hs xss x (slot_of (get_or hs s 0)) o c)
      (apply-IsFreeList (class_of links (get_or hs s 0)) (get_or xss s []) (pushes x)
        (free_list links (get_or hs s 0) (get_or xss s []) h (Chains-elem links hs xss s c l))
        (m, Fresh-count x (get_or xss s []) z)).chained
