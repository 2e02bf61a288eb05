-- ===== src/Ring/Reliable.antt =====
-- The table of reliable cursors.
use shm_actors.Prelude.{
  ℕ, zero, suc, ◌+◌, ◌≤◌, ◌<◌, ◌≡◌, ◌≢◌, ◌⊎◌, inl, inr, true, List, [], ◌∷◌, Option, none, some,
  Option-cases, ok, arith, get_elem?, set, ◌==◌, if◌then◌else◌, refl, ap, dec_lt, ◌↔◌, ℕ_discrete,
  ◌∙◌,
}
use shm_actors.Ring.{
  Ring, reliable_unused, head, first_unused, register_reliable, update_reliable, release_reliable,
  smaller, min_cursor, would_backpressure,
}

-- Some registered cursor is `v`.
pub data Registered (v : ℕ) : List ℕ → Type 0 where
  here : {w : ℕ} {vs : List ℕ} → w ≡ v → v ≢ reliable_unused → Registered v (w ∷ vs)
  there : {w : ℕ} {vs : List ℕ} → Registered v vs → Registered v (w ∷ vs)

-- The minimum is at most what the scan has met, and at most every registered cursor.
min_cursor-le_acc :
    (acc : Option ℕ) (vs : List ℕ) (a m : ℕ) → acc ≡ some a → min_cursor acc vs ≡ some m → m ≤ a
unfolding min_cursor
min_cursor-le_acc acc [] a m e h = ground arith
min_cursor-le_acc none (v ∷ vs) a m e h = absurd (cc)
min_cursor-le_acc (some b) (v ∷ vs) a m e h = ground (
  arith,
  min_cursor-le_acc (some b) vs b m,
  min_cursor-le_acc (some (smaller (some b) v)) vs (smaller (some b) v) m,
)

min_cursor-le :
    (acc : Option ℕ) (vs : List ℕ) (v m : ℕ) → Registered v vs → min_cursor acc vs ≡ some m → m ≤ v
unfolding min_cursor
min_cursor-le acc [] v m registered h = elim registered [ ]
min_cursor-le none (w ∷ vs) v m (here e used) h = ground (arith, min_cursor-le_acc (some w) vs w m)
min_cursor-le (some a) (w ∷ vs) v m (here e used) h =
    ground (arith, min_cursor-le_acc (some (smaller (some a) w)) vs (smaller (some a) w) m)
min_cursor-le acc (w ∷ vs) v m (there r) h =
    min_cursor-le (if w == reliable_unused then acc else some (smaller acc w)) vs v m r h

-- A scan that has met a cursor ends with one.
min_cursor-some : (a : ℕ) (vs : List ℕ) → (m : ℕ) × (min_cursor (some a) vs ≡ some m)
unfolding min_cursor
min_cursor-some a [] = (a, refl)
min_cursor-some a (v ∷ vs) = elim (ℕ_discrete v reliable_unused) [
  | yes e ↦ let (m, h) = min_cursor-some a vs in (m, ground arith)
  | no ne ↦ let (m, h) = min_cursor-some (smaller (some a) v) vs in (m, ground arith)
]

min_cursor-exists :
    (acc : Option ℕ) (vs : List ℕ) (v : ℕ)
    → Registered v vs
    → (m : ℕ) × (min_cursor acc vs ≡ some m)
unfolding min_cursor
min_cursor-exists acc [] v registered = elim registered [ ]
min_cursor-exists acc (w ∷ vs) v (here e used) =
    let (m, h) = min_cursor-some (smaller acc w) vs in (m, ground arith)
min_cursor-exists acc (w ∷ vs) v (there r) = elim (ℕ_discrete w reliable_unused) [
  | yes e ↦ let (m, h) = min_cursor-exists acc vs v r in (m, ground arith)
  | no ne ↦ let (m, h) = min_cursor-exists (some (smaller acc w)) vs v r in (m, ground arith)
]

smaller-one-of : (acc : Option ℕ) (v m : ℕ) → smaller acc v ≡ m → (acc ≡ some m) ⊎ (v ≡ m)
smaller-one-of none v m h = inr h
smaller-one-of (some a) v m h = elim (dec_lt v a) [
  | yes lt ↦ inr (ground arith)
  | no ge ↦ inl (ground arith)
]

-- The minimum is the accumulator or a registered cursor.
min_cursor-found :
    (acc : Option ℕ) (vs : List ℕ) (m : ℕ)
    → min_cursor acc vs ≡ some m
    → (acc ≡ some m) ⊎ Registered m vs
unfolding min_cursor
min_cursor-found acc [] m h = inl h
min_cursor-found acc (v ∷ vs) m h = elim (ℕ_discrete v reliable_unused) [
  | yes e ↦ elim (min_cursor-found acc vs m (ground arith)) [
    | inl a ↦ inl a
    | inr r ↦ inr (there r)
  ]
  | no ne ↦ elim (min_cursor-found (some (smaller acc v)) vs m (ground arith)) [
    | inr r ↦ inr (there r)
    | inl a ↦ elim (smaller-one-of acc v m (ground arith)) [
      | inl e ↦ inl e
      | inr e ↦ inr (here e (λ q. ne (e ∙ q)))
    ]
  ]
]

-- The producer is held back exactly when some registered subscriber is more than a capacity
-- behind the head.
pub would_backpressure_iff :
    (r : Ring)
    → (would_backpressure r ≡ true)
      ↔ ((v : ℕ) × Registered v r.region.header.reliable × (v + r.capacity < head r))
unfolding would_backpressure
would_backpressure_iff r = (behind, held_back)
  where
    cells : List ℕ
    cells = r.region.header.reliable

    behind : would_backpressure r ≡ true → (v : ℕ) × Registered v cells × (v + r.capacity < head r)
    behind h = elim (Option-cases (min_cursor none cells)) [
      | inl e ↦ absurd (ground arith)
      | inr (m, e) ↦ elim (min_cursor-found none cells m e) [
        | inl impossible ↦ absurd (cc)
        | inr registered ↦ (m, registered, ground arith)
      ]
    ]

    held_back :
        (v : ℕ) × Registered v cells × (v + r.capacity < head r) → would_backpressure r ≡ true
    held_back (v, registered, far) =
        let (m, e) = min_cursor-exists none cells v registered in
        ground (arith, min_cursor-le none cells v m registered e)

-- Registering claims a cell that nobody had, the first one.
first_unused-claims :
    (cells : List ℕ) (from i : ℕ)
    → first_unused cells from ≡ some i
    → (j : ℕ) × (i ≡ from + j) × (get_elem? cells j ≡ some reliable_unused)
unfolding first_unused
first_unused-claims [] from i h = absurd (cc)
first_unused-claims (v ∷ vs) from i h = elim (ℕ_discrete v reliable_unused) [
  | yes e ↦ (0, ground arith, ground arith)
  | no ne ↦
      let (j, at, free) = first_unused-claims vs (from + 1) i (ground arith) in
      (suc j, omega arith, free)
]

set-set_back {ℓ} :
    {A : Type ℓ} (xs : List A) (i : ℕ) (old new : A)
    → get_elem? xs i ≡ some old
    → set (set xs i new) i old ≡ xs
set-set_back [] i old new h = refl
set-set_back (x ∷ xs) zero old new h = ap (λ y. y ∷ xs) (ground arith)
set-set_back (x ∷ xs) (suc i) old new h = ap (λ ys. x ∷ ys) (set-set_back xs i old new h)

set-set {ℓ} : {A : Type ℓ} (xs : List A) (i : ℕ) (a b : A) → set (set xs i a) i b ≡ set xs i b
set-set [] i a b = refl
set-set (x ∷ xs) zero a b = refl
set-set (x ∷ xs) (suc i) a b = ap (λ ys. x ∷ ys) (set-set xs i a b)

get_elem?-set_self {ℓ} :
    {A : Type ℓ} (xs : List A) (i : ℕ) (old new : A)
    → get_elem? xs i ≡ some old
    → get_elem? (set xs i new) i ≡ some new
get_elem?-set_self [] i old new h = absurd (cc)
get_elem?-set_self (x ∷ xs) zero old new h = refl
get_elem?-set_self (x ∷ xs) (suc i) old new h = get_elem?-set_self xs i old new h

-- Registering claims a cell that was unused and stores the cursor there; releasing the cell, after
-- an update of it, leaves the ring as it was before, so that no other cell was touched.
pub release-register :
    (r : Ring) (cursor later : ℕ) {idx : ℕ} {r' : Ring}
    → register_reliable r cursor ≡ ok (idx, r')
    → (get_elem? r.region.header.reliable idx ≡ some reliable_unused)
      × (get_elem? r'.region.header.reliable idx ≡ some cursor)
      × (release_reliable (update_reliable r' idx later) idx ≡ r)
unfolding register_reliable release_reliable update_reliable
release-register r cursor later {idx} {r'} h = elim (Option-cases (first_unused cells 0)) [
  | inl e ↦ absurd (ground arith)
  | inr (i, e) ↦
      let (j, at, free) = first_unused-claims cells 0 i e in
      let same : i ≡ j = omega arith in
      let was : get_elem? cells i ≡ some reliable_unused = rw same free in
      ground (
        arith,
        get_elem?-set_self cells i reliable_unused cursor was,
        set-set cells i cursor later,
        set-set cells i later reliable_unused,
        set-set cells i cursor reliable_unused,
        set-set_back cells i reliable_unused later was,
      )
]
  where
    cells : List ℕ
    cells = r.region.header.reliable
