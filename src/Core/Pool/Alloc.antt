-- ===== src/Core/Pool/Alloc.antt =====
-- What an allocation takes: the top chunk of a class whose chunks are large enough.
use shm_actors.Prelude.{
  ℕ, suc, ◌+◌, ◌^◌, ◌≤◌, ◌<◌, ◌≡◌, inl, inr, refl, sym, ap, subst, ◌∙◌, Option, none, some, List,
  [], ◌∷◌, ok, arith, get_elem?, set, leb, if◌then◌else◌, leb→le, ok_or, ◌>>=◌, ok-injective,
  err≢ok, Bool, true, false, Option-cases, Bool-cases,
}
use mathlib.Core.Option.{some-injective, none-ne-some}
use native.Mathlib.Nat.{mod-eq_of_lt}
use shm_actors.Core.Error.{layout_overflow}
use shm_actors.Core.Desc.{ChunkDesc}
use shm_actors.Core.Pool.{
  ClassHeader, Pool, chunk_offset, find_class, header_size, alloc, treiber_pop, read_link,
  take_chunk, desc_of,
}
use shm_actors.Core.Pool.FreeList.{IsFreeList, top, apply, pops, apply-IsFreeList, treiber_pop-top}
use shm_actors.Core.Pool.Locate.{Placed-elem, chunk_in_span}
use shm_actors.Core.Pool.Stacks.{IsPool, IsPool-set, AllFree-elem}

-- The class that `alloc` chooses, from class `k` on.
find_class-elem :
    (cs : List ClassHeader) (k size i : ℕ) (c : ClassHeader)
    → find_class cs k size ≡ some (i, c)
    → (j : ℕ) × (i ≡ k + j) × (get_elem? cs j ≡ some c) × (size ≤ c.chunk_size)
find_class-elem [] k size i c e = absurd (none-ne-some (i, c) e)
find_class-elem (d ∷ cs) k size i c e = elim (Bool-cases (leb size d.chunk_size)) [
  | inl fits ↦
      let found : (k, d) ≡ (i, c) = some-injective _ _ (chosen true fits) in
      (
        0,
        omega (arith, ap (λ t. t.0) found),
        ap (λ t. some t.1) found,
        subst (λ t. size ≤ t.chunk_size) (ap (λ t. t.1) found) (leb→le size d.chunk_size fits),
      )
  | inr small ↦
      let rest = find_class-elem cs (suc k) size i c (chosen false small) in
      (suc rest.0, omega (arith, rest.1), rest.2, rest.3)
]
  where
    chosen :
        (b : Bool)
        → leb size d.chunk_size ≡ b
        → (if b then some (k, d) else find_class cs (suc k) size) ≡ some (i, c)
    chosen b q =
        subst (λ b. (if b then some (k, d) else find_class cs (suc k) size) ≡ some (i, c)) q e

take_chunk_inv :
    (p : Pool) (i : ℕ) (c : ClassHeader) (o : Option ℕ × ℕ) (d : ChunkDesc) (p' : Pool)
    → take_chunk p i c o ≡ ok (d, p')
    → (x : ℕ) × (o.0 ≡ some x)
      × (d ≡ desc_of p c x)
      × (p' ≡ record p { classes = set p.classes i (record c { head = o.1 }) })
take_chunk_inv p i c (none, head) d p' e = absurd (cc e)
take_chunk_inv p i c (some x, head) d p' e =
    let same = ok-injective e in (x, refl, sym (ap (λ t. t.0) same), sym (ap (λ t. t.1) same))

-- What a call of `alloc` did: it popped `chunk` off the stack of class `index`.
pub record Taken (p : Pool) (xss : List (List ℕ)) (size : ℕ) (d : ChunkDesc) (p' : Pool)
    : Type 0 where
  pub index : ℕ
  pub class : ClassHeader
  pub chunk : ℕ
  pub rest : List ℕ
  pub header : get_elem? p.classes index ≡ some class
  pub stack : get_elem? xss index ≡ some (chunk ∷ rest)
  pub offset : d.offset ≡ header_size + chunk_offset class chunk
  pub len : d.len ≡ class.chunk_size
  pub large_enough : size ≤ d.len
  pub popped : p' ≡ record p { classes = set p.classes index (apply class pops) }

top_inv : (xs : List ℕ) (x : ℕ) → top xs ≡ some x → (rest : List ℕ) × (xs ≡ x ∷ rest)
top_inv [] x e = absurd (none-ne-some x e)
top_inv (y ∷ ys) x e = (ys, ap (λ t. t ∷ ys) (some-injective _ _ e))

-- The offset of a chunk's descriptor does not wrap.
desc_offset :
    (p : Pool) (xss : List (List ℕ)) (i slot : ℕ) (c : ClassHeader)
    → IsPool p xss
    → get_elem? p.classes i ≡ some c
    → slot < c.chunk_count
    → (desc_of p c slot).offset ≡ header_size + chunk_offset c slot
desc_offset p xss i slot c h e l =
    mod-eq_of_lt {n = header_size + chunk_offset c slot} {m = 2 ^ 32} (
      omega (
        arith,
        (Placed-elem p.classes 0 h.high i c h.placed e).1,
        chunk_in_span slot c.chunk_count c.chunk_size l,
        h.addressable,
      ))

-- The pop of class `i` hands out the top of its stack.
popped-Taken :
    (p : Pool) (xss : List (List ℕ)) (size : ℕ) (d : ChunkDesc) (p' : Pool) (i : ℕ)
    → (c : ClassHeader) → IsPool p xss
    → get_elem? p.classes i ≡ some c
    → size ≤ c.chunk_size
    → take_chunk p i c (treiber_pop c.head (read_link c)) ≡ ok (d, p')
    → (t : Taken p xss size d p') × IsPool p' (set xss t.index t.rest)
unfolding apply
popped-Taken p xss size d p' i c h e fits q =
    let got = take_chunk_inv p i c (treiber_pop c.head (read_link c)) d p' q in
    let entry = AllFree-elem p.classes xss i c h.frees e in
    let split = top_inv entry.0 got.0 (sym (treiber_pop-top c entry.0 entry.2) ∙ got.1) in
    let xs≡ : entry.0 ≡ got.0 ∷ split.0 = split.1 in
    let frees : IsFreeList c (got.0 ∷ split.0) = subst (IsFreeList c) xs≡ entry.2 in
    let in_range : got.0 < c.chunk_count = omega (arith, frees.chained.1, frees.counted) in
    (
      record {
        index = i;
        class = c;
        chunk = got.0;
        rest = split.0;
        header = e;
        stack = entry.1 ∙ ap some xs≡;
        offset = ap (λ t. t.offset) got.2 ∙ desc_offset p xss i got.0 c h e in_range;
        len = ap (λ t. t.len) got.2;
        large_enough = subst (λ n. size ≤ n) (sym (ap (λ t. t.len) got.2)) fits;
        popped = got.3;
      },
      subst (λ q. IsPool q (set xss i split.0)) (sym got.3)
          (IsPool-set p xss i c split.0 (apply c pops).head c.links h e
            (apply-IsFreeList c (got.0 ∷ split.0) pops frees tt)),
    )

-- A successful allocation pops the chunk it returns off the stack of a class whose chunks are
-- large enough, and leaves all other stacks alone.
pub alloc-Taken :
    (p : Pool) (xss : List (List ℕ)) (size : ℕ) (d : ChunkDesc) (p' : Pool)
    → IsPool p xss
    → alloc p size ≡ ok (d, p')
    → (t : Taken p xss size d p') × IsPool p' (set xss t.index t.rest)
unfolding alloc
alloc-Taken p xss size d p' h e = elim (Option-cases (find_class p.classes 0 size)) [
  | inl missing ↦ absurd (err≢ok (tried none missing))
  | inr found ↦
      let chosen = find_class-elem p.classes 0 size found.0.0 found.0.1 found.1 in
      popped-Taken p xss size d p' found.0.0 found.0.1 h
        (subst (λ i. get_elem? p.classes i ≡ some found.0.1) (omega (arith, chosen.1)) chosen.2)
        chosen.3 (tried (some found.0) found.1)
]
  where
    tried :
        (o : Option (ℕ × ClassHeader))
        → find_class p.classes 0 size ≡ o
        → (ok_or o layout_overflow >>= λ f.
            take_chunk p f.0 f.1 (treiber_pop f.1.head (read_link f.1)))
          ≡ ok (d, p')
    tried o q =
        subst
          (λ o.
            (ok_or o layout_overflow >>= λ f.
            take_chunk p f.0 f.1 (treiber_pop f.1.head (read_link f.1)))
            ≡ ok (d, p'))
          q e
