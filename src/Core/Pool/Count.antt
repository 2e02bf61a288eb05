-- ===== src/Core/Pool/Count.antt =====
-- `free_count` walks to the end of every free list.
use shm_actors.Prelude.{
  ℕ, zero, suc, ◌≤◌, ◌<◌, ◌≡◌, ◌≢◌, refl, sym, ap, subst, ◌∙◌, some, List, [], ◌∷◌, arith, length,
  get_or, ◌==◌, if◌then◌else◌, ℕ_discrete, ==_refl, ne→==_false,
}
use shm_actors.Core.Pool.{ClassHeader, empty, slot_of, count_chain, free_count}
use shm_actors.Core.Pool.FreeList.{IsFreeList, Fresh, Chain}

abbrev pub Distinct : List ℕ → Type 0
Distinct [] = Unit {0}
Distinct (x ∷ xs) = Fresh x xs × Distinct xs

abbrev pub Below : ℕ → List ℕ → Type 0
Below n [] = Unit {0}
Below n (x ∷ xs) = (x < n) × Below n xs

abbrev without : ℕ → List ℕ → List ℕ
without n [] = []
without n (x ∷ xs) = let rest = without n xs in if x == n then rest else x ∷ rest

-- Whether the head of a list goes or stays.
without_cons :
    (P : List ℕ → Type 0) (n x : ℕ) (xs : List ℕ)
    → (x ≡ n → P (without n xs))
    → (x ≢ n → P (x ∷ without n xs))
    → P (without n (x ∷ xs))
without_cons P n x xs gone kept = elim (ℕ_discrete x n) [
  | yes e ↦
      subst (λ b. P (if b then without n xs else x ∷ without n xs))
        (sym (ap (λ t. x == t) (sym e) ∙ ==_refl x)) (gone e)
  | no e ↦
      subst (λ b. P (if b then without n xs else x ∷ without n xs)) (sym (ne→==_false x n e))
        (kept e)
]

Fresh-without : (y n : ℕ) (xs : List ℕ) → Fresh y xs → Fresh y (without n xs)
Fresh-without y n [] f = tt
Fresh-without y n (x ∷ xs) f =
    let rest = Fresh-without y n xs f.1 in
    without_cons (Fresh y) n x xs (λ _. rest) (λ _. (f.0, rest))

Distinct-without : (n : ℕ) (xs : List ℕ) → Distinct xs → Distinct (without n xs)
Distinct-without n [] d = tt
Distinct-without n (x ∷ xs) d =
    let rest = Distinct-without n xs d.1 in
    without_cons Distinct n x xs (λ _. rest) (λ _. (Fresh-without x n xs d.0, rest))

Below-without : (n : ℕ) (xs : List ℕ) → Below (suc n) xs → Below n (without n xs)
Below-without n [] b = tt
Below-without n (x ∷ xs) b =
    let rest = Below-without n xs b.1 in
    without_cons (Below n) n x xs (λ _. rest) (λ e. (omega (arith, b.0, e), rest))

length-without-Fresh : (n : ℕ) (xs : List ℕ) → Fresh n xs → length xs ≤ length (without n xs)
length-without-Fresh n [] f = omega arith
length-without-Fresh n (x ∷ xs) f =
    let rest = length-without-Fresh n xs f.1 in
    without_cons (λ ys. suc (length xs) ≤ length ys) n x xs (λ e. absurd (f.0 (sym e)))
      (λ _. omega (arith, rest))

length-without : (n : ℕ) (xs : List ℕ) → Distinct xs → length xs ≤ suc (length (without n xs))
length-without n [] d = omega arith
length-without n (x ∷ xs) d =
    let rest = length-without n xs d.1 in
    without_cons (λ ys. suc (length xs) ≤ suc (length ys)) n x xs
      (λ e. omega (arith, length-without-Fresh n xs (subst (λ t. Fresh t xs) e d.0)))
      (λ _. omega (arith, rest))

-- No more distinct numbers than there are below `n`.
pub length-Distinct : (n : ℕ) (xs : List ℕ) → Distinct xs → Below n xs → length xs ≤ n
length-Distinct zero [] d b = omega arith
length-Distinct zero (x ∷ xs) d b = absurd (omega (arith, b.0))
length-Distinct (suc n) xs d b = omega (
  arith,
  length-without n xs d,
  length-Distinct n (without n xs) (Distinct-without n xs d) (Below-without n xs b),
)

pub Chain-Distinct :
    (links : List ℕ) (slot : ℕ) (xs : List ℕ)
    → Chain links slot xs
    → Distinct xs × Below (length links) xs
Chain-Distinct links slot [] c = (tt, tt)
Chain-Distinct links slot (x ∷ xs) c =
    let rest = Chain-Distinct links (get_or links x empty) xs c.3 in ((c.2, rest.0), (c.1, rest.1))

count_chain-Chain :
    (links : List ℕ) (slot fuel : ℕ) (xs : List ℕ)
    → length links ≤ empty
    → length xs ≤ fuel
    → Chain links slot xs
    → count_chain (λ s. get_or links s empty) fuel slot ≡ some (length xs)
count_chain-Chain links slot zero [] h l c = ground arith
count_chain-Chain links slot (suc fuel) [] h l c = ground arith
count_chain-Chain links slot zero (x ∷ xs) h l c = absurd (omega arith)
count_chain-Chain links slot (suc fuel) (x ∷ xs) h l c =
    rw
      (
        ne→==_false slot empty (λ e. omega (arith, e, c.0, c.1)),
        c.0,
        count_chain-Chain links (get_or links x empty) fuel xs h (omega arith) c.3,
      )
      refl

-- The walk of `free_count` ends, and counts the chunks of the free list.
pub free_count-length :
    (c : ClassHeader) (xs : List ℕ) → IsFreeList c xs → free_count c ≡ some (length xs)
unfolding free_count
free_count-length c xs h =
    let shape = Chain-Distinct c.links (slot_of c.head) xs h.chained in
    count_chain-Chain c.links (slot_of c.head) c.chunk_count xs
      (omega (arith, h.counted, h.addressable))
      (omega (arith, length-Distinct (length c.links) xs shape.0 shape.1, h.counted)) h.chained
