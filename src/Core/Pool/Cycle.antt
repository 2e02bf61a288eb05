-- ===== src/Core/Pool/Cycle.antt =====
-- A chunk's life in a pool: the chunks that are out when it is handed out, and its way back.
use shm_actors.Prelude.{
  ℕ, zero, suc, [], ◌+◌, ◌≤◌, ◌<◌, ◌≡◌, ◌≢◌, ◌⊎◌, inl, inr, sym, ap, subst, ◌∙◌, some, List, ◌∷◌,
  ok, arith, get_elem?, set, get_elem?-set_self, set-set_back, dec_lt,
}
use mathlib.Core.Option.{some-injective, none-ne-some}
use shm_actors.Core.Desc.{ChunkDesc}
use shm_actors.Core.Pool.{ClassHeader, Pool, chunk_offset, header_size, alloc, free}
use shm_actors.Core.Pool.FreeList.{IsFreeList, Fresh, apply, pops}
use shm_actors.Core.Pool.Regions.{Placed, span}
use shm_actors.Core.Pool.Locate.{Placed-elem, chunk_in_span}
use shm_actors.Core.Pool.Stacks.{IsPool, class_at, free-IsPool}
use shm_actors.Core.Pool.Alloc.{alloc-Taken}

-- What `alloc` returned can be given back by `free`, and the pool then has the same chunks free
-- as before, in the same order.
pub free-alloc :
    (p : Pool) (xss : List (List ℕ)) (size : ℕ) (d : ChunkDesc) (p' : Pool)
    → IsPool p xss
    → alloc p size ≡ ok (d, p')
    → (p'' : Pool) × (free p' d ≡ ok p'') × IsPool p'' xss
unfolding apply
free-alloc p xss size d p' h e =
    let taken = alloc-Taken p xss size d p' h e in
    let t = taken.0 in
    let was : IsFreeList t.class (t.chunk ∷ t.rest) =
      (class_at p xss t.index t.class (t.chunk ∷ t.rest) h t.header t.stack).0 in
    let header : get_elem? p'.classes t.index ≡ some (apply t.class pops) =
      subst (λ q. get_elem? q.classes t.index ≡ some (apply t.class pops)) (sym t.popped)
        (get_elem?-set_self p.classes t.index t.class (apply t.class pops) t.header) in
    let freed =
      free-IsPool p' (set xss t.index t.rest) d t.index t.chunk (apply t.class pops) t.rest taken.1
        header (get_elem?-set_self xss t.index (t.chunk ∷ t.rest) t.rest t.stack)
        (omega (arith, was.chained.1, was.counted)) was.chained.2 t.offset in
    (
      freed.0,
      freed.1,
      subst (IsPool freed.0) (set-set_back xss t.index (t.chunk ∷ t.rest) t.rest t.stack) freed.2,
    )

-- The first of two ranges ends where the other starts, or before.
abbrev pub Before : (start len start' : ℕ) → Type 0
Before start len start' = start + len ≤ start'

-- A class with a smaller index has its region below.
classes_ordered :
    (cs : List ClassHeader) (low high i j : ℕ) (c c' : ClassHeader)
    → Placed low cs high
    → get_elem? cs i ≡ some c
    → get_elem? cs j ≡ some c'
    → i < j
    → c.data_offset + span c ≤ c'.data_offset
classes_ordered [] low high i j c c' h e e' l = absurd (none-ne-some c e)
classes_ordered (d ∷ cs) low high i zero c c' h e e' l = absurd (omega arith)
classes_ordered (d ∷ cs) low high zero (suc j) c c' h e e' l =
    subst (λ t. t.data_offset + span t ≤ c'.data_offset) (some-injective _ _ e)
      (Placed-elem cs (d.data_offset + span d) high j c' h.2 e').0
classes_ordered (d ∷ cs) low high (suc i) (suc j) c c' h e e' l =
    classes_ordered cs (d.data_offset + span d) high i j c c' h.2 e e' (omega arith)

chunks_Before :
    (c c' : ClassHeader) (x y : ℕ)
    → c.data_offset + span c ≤ c'.data_offset
    → x < c.chunk_count
    → Before (header_size + chunk_offset c x) c.chunk_size (header_size + chunk_offset c' y)
chunks_Before c c' x y h l = omega (arith, chunk_in_span x c.chunk_count c.chunk_size l)

slots_Before :
    (c : ClassHeader) (x y : ℕ)
    → x < y
    → Before (header_size + chunk_offset c x) c.chunk_size (header_size + chunk_offset c y)
slots_Before c x y l = omega (arith, chunk_in_span x y c.chunk_size l)

-- Two chunks of a pool, in different classes or slots, do not overlap.
chunks_disjoint :
    (p : Pool) (xss : List (List ℕ)) (i j x y : ℕ) (c c' : ClassHeader)
    → IsPool p xss
    → get_elem? p.classes i ≡ some c
    → get_elem? p.classes j ≡ some c'
    → x < c.chunk_count
    → y < c'.chunk_count
    → (i ≡ j → x ≢ y)
    → Before (header_size + chunk_offset c x) c.chunk_size (header_size + chunk_offset c' y)
      ⊎ Before (header_size + chunk_offset c' y) c'.chunk_size (header_size + chunk_offset c x)
chunks_disjoint p xss i j x y c c' h e e' l m n = elim (dec_lt i j) [
  | yes lt ↦
      inl (chunks_Before c c' x y (classes_ordered p.classes 0 h.high i j c c' h.placed e e' lt) l)
  | no ge ↦ elim (dec_lt j i) [
    | yes gt ↦
        inr
          (chunks_Before c' c y x (classes_ordered p.classes 0 h.high j i c' c h.placed e' e gt) m)
    | no le ↦
        subst
          (λ c'.
            Before (header_size + chunk_offset c x) c.chunk_size (header_size + chunk_offset c' y)
            ⊎ Before (header_size + chunk_offset c' y) c'.chunk_size
                (header_size + chunk_offset c x))
          (same (omega arith)) (slots (n (omega arith)))
  ]
]
  where
    same : i ≡ j → c ≡ c'
    same q = some-injective _ _ (sym e ∙ ap (get_elem? p.classes) q ∙ e')

    slots :
        x ≢ y
        → Before (header_size + chunk_offset c x) c.chunk_size (header_size + chunk_offset c y)
          ⊎ Before (header_size + chunk_offset c y) c.chunk_size (header_size + chunk_offset c x)
    slots n = elim (dec_lt x y) [
      | yes lt ↦ inl (slots_Before c x y lt)
      | no ge ↦ elim (dec_lt y x) [
        | yes gt ↦ inr (slots_Before c y x gt)
        | no le ↦ absurd (n (omega arith))
      ]
    ]

-- The bytes that `alloc` hands out overlap no chunk that is out, that is, no chunk of the pool that
-- is not on the free list of its class.
pub alloc_disjoint :
    (p : Pool) (xss : List (List ℕ)) (size : ℕ) (d : ChunkDesc) (p' : Pool) (i slot : ℕ)
    → (c : ClassHeader) (xs : List ℕ) → IsPool p xss
    → alloc p size ≡ ok (d, p')
    → get_elem? p.classes i ≡ some c
    → get_elem? xss i ≡ some xs
    → slot < c.chunk_count
    → Fresh slot xs
    → Before (header_size + chunk_offset c slot) c.chunk_size d.offset
      ⊎ Before d.offset d.len (header_size + chunk_offset c slot)
alloc_disjoint p xss size d p' i slot c xs h a e x l f =
    let t = (alloc-Taken p xss size d p' h a).0 in
    let was : IsFreeList t.class (t.chunk ∷ t.rest) =
      (class_at p xss t.index t.class (t.chunk ∷ t.rest) h t.header t.stack).0 in
    let other : i ≡ t.index → slot ≢ t.chunk = λ q.
      let one : xs ≡ t.chunk ∷ t.rest =
        some-injective _ _ (sym x ∙ ap (get_elem? xss) q ∙ t.stack) in
      (subst (Fresh slot) one f).0 in
    subst {A = ℕ × ℕ}
      (λ o.
        Before (header_size + chunk_offset c slot) c.chunk_size o.0
        ⊎ Before o.0 o.1 (header_size + chunk_offset c slot))
      (λ i. (sym t.offset i, sym t.len i))
      (chunks_disjoint p xss i t.index slot t.chunk c t.class h e t.header l
        (omega (arith, was.chained.1, was.counted)) other)
