-- ===== src/Core/Pool/Stacks.antt =====
-- A whole pool: every class's free list is a stack, a chunk's offset leads back to its class
-- and slot, and `free` pushes.
use shm_actors.Prelude.{
  ℕ, zero, suc, ◌+◌, ◌-◌, ◌^◌, ◌<◌, ◌≡◌, refl, sym, ap, subst, ◌∙◌, some, List, [], ◌∷◌, ok, arith,
  get_elem?, set, le→ltb_false,
}
use mathlib.Core.Option.{some-injective, none-ne-some}
use shm_actors.Core.Desc.{ChunkDesc}
use shm_actors.Core.Pool.{
  ClassHeader, Pool, chunk_offset, locate, header_size, free, treiber_push, push_chunk, update_at,
}
use shm_actors.Core.Pool.FreeList.{IsFreeList, Fresh, apply, pushes, apply-IsFreeList}
use shm_actors.Core.Pool.Regions.{Placed, span}
use shm_actors.Core.Pool.Locate.{locate_from-chunk}

-- A class and the chunks free in it, for every class.
abbrev pub AllFree : List ClassHeader → List (List ℕ) → Type 0
AllFree [] [] = Unit {0}
AllFree (c ∷ cs) (xs ∷ xss) = IsFreeList c xs × (0 < c.chunk_size) × AllFree cs xss
AllFree [] (xs ∷ xss) = ⊥
AllFree (c ∷ cs) [] = ⊥

-- A pool with these free chunks in its classes, and with segment offsets of 32 bits.
pub record IsPool (p : Pool) (xss : List (List ℕ)) : Type 0 where
  pub high : ℕ
  pub addressable : header_size + high < 2 ^ 32
  pub placed : Placed 0 p.classes high
  pub frees : AllFree p.classes xss

pub AllFree-elem :
    (cs : List ClassHeader) (xss : List (List ℕ)) (i : ℕ) (c : ClassHeader)
    → AllFree cs xss
    → get_elem? cs i ≡ some c
    → (xs : List ℕ) × (get_elem? xss i ≡ some xs) × IsFreeList c xs × (0 < c.chunk_size)
AllFree-elem [] xss i c h e = absurd (none-ne-some c e)
AllFree-elem (c' ∷ cs) [] i c h e = absurd h
AllFree-elem (c' ∷ cs) (xs ∷ xss) zero c h e = (
  xs,
  refl,
  subst (λ t. IsFreeList t xs) (some-injective _ _ e) h.0,
  subst (λ t. 0 < t.chunk_size) (some-injective _ _ e) h.1,
)
AllFree-elem (c' ∷ cs) (xs ∷ xss) (suc i) c h e = AllFree-elem cs xss i c h.2 e

AllFree-set :
    (cs : List ClassHeader) (xss : List (List ℕ)) (i : ℕ) (c : ClassHeader) (xs : List ℕ)
    → AllFree cs xss
    → IsFreeList c xs
    → 0 < c.chunk_size
    → AllFree (set cs i c) (set xss i xs)
AllFree-set [] [] i c xs h f s = tt
AllFree-set [] (ys ∷ xss) i c xs h f s = absurd h
AllFree-set (c' ∷ cs) [] i c xs h f s = absurd h
AllFree-set (c' ∷ cs) (ys ∷ xss) zero c xs h f s = (f, s, h.2)
AllFree-set (c' ∷ cs) (ys ∷ xss) (suc i) c xs h f s = (h.0, h.1, AllFree-set cs xss i c xs h.2 f s)

-- The links and the head are no part of the layout.
Placed-set :
    (cs : List ClassHeader) (low high i : ℕ) (c : ClassHeader) (head : ℕ) (links : List ℕ)
    → get_elem? cs i ≡ some c
    → Placed low cs high
    → Placed low (set cs i (record c { head = head; links = links })) high
Placed-set [] low high i c head links e h = h
Placed-set (d ∷ cs) low high zero c head links e h =
    subst (λ t. Placed low (record t { head = head; links = links } ∷ cs) high)
      (some-injective _ _ e) h
Placed-set (d ∷ cs) low high (suc i) c head links e h =
    (h.0, h.1, Placed-set cs (d.data_offset + span d) high i c head links e h.2)

update_at-set :
    (cs : List ClassHeader) (i : ℕ) (c : ClassHeader) (f : ClassHeader → ClassHeader)
    → get_elem? cs i ≡ some c
    → update_at cs i f ≡ set cs i (f c)
update_at-set [] i c f e = refl
update_at-set (d ∷ cs) zero c f e = ap (λ t. f t ∷ cs) (some-injective _ _ e)
update_at-set (d ∷ cs) (suc i) c f e = ap (λ t. d ∷ t) (update_at-set cs i c f e)

-- The class at an index, with the stack at the same index.
pub class_at :
    (p : Pool) (xss : List (List ℕ)) (i : ℕ) (c : ClassHeader) (xs : List ℕ)
    → IsPool p xss
    → get_elem? p.classes i ≡ some c
    → get_elem? xss i ≡ some xs
    → IsFreeList c xs × (0 < c.chunk_size)
class_at p xss i c xs h e x =
    let entry = AllFree-elem p.classes xss i c h.frees e in
    (subst (IsFreeList c) (some-injective _ _ (sym entry.1 ∙ x)) entry.2, entry.3)

-- Put back a class whose stack has changed.
pub IsPool-set :
    (p : Pool) (xss : List (List ℕ)) (i : ℕ) (c : ClassHeader) (xs : List ℕ)
    → (head : ℕ) (links : List ℕ) → IsPool p xss
    → get_elem? p.classes i ≡ some c
    → IsFreeList (record c { head = head; links = links }) xs
    → IsPool
        (record p { classes = set p.classes i (record c { head = head; links = links }) })
        (set xss i xs)
IsPool-set p xss i c xs head links h e f = record {
  high = h.high;
  addressable = h.addressable;
  placed = Placed-set p.classes 0 h.high i c head links e h.placed;
  frees =
      AllFree-set p.classes xss i (record c { head = head; links = links }) xs h.frees f
        (AllFree-elem p.classes xss i c h.frees e).3;
}

-- A chunk's descriptor leads `locate` to its class and slot.
pub locate-chunk :
    (p : Pool) (xss : List (List ℕ)) (i slot : ℕ) (c : ClassHeader)
    → IsPool p xss
    → get_elem? p.classes i ≡ some c
    → slot < c.chunk_count
    → locate p (header_size + chunk_offset c slot) ≡ ok (i, slot, c.base_index + slot)
unfolding locate
locate-chunk p xss i slot c h e l =
    let entry = AllFree-elem p.classes xss i c h.frees e in
    let back : header_size + chunk_offset c slot - header_size ≡ chunk_offset c slot =
      omega arith in
    rw (le→ltb_false (header_size + chunk_offset c slot) header_size (omega arith), back)
      (locate_from-chunk p.classes 0 h.high 0 i i slot c (omega arith) h.placed e l
        (omega (arith, entry.2.addressable)) entry.3)

-- A chunk that is not free is pushed by `free` on its class's stack, whatever its bytes hold.
pub free-IsPool :
    (p : Pool) (xss : List (List ℕ)) (d : ChunkDesc) (i slot : ℕ) (c : ClassHeader) (xs : List ℕ)
    → IsPool p xss
    → get_elem? p.classes i ≡ some c
    → get_elem? xss i ≡ some xs
    → slot < c.chunk_count
    → Fresh slot xs
    → d.offset ≡ header_size + chunk_offset c slot
    → (p' : Pool) × (free p d ≡ ok p') × IsPool p' (set xss i (slot ∷ xs))
unfolding free treiber_push apply
free-IsPool p xss d i slot c xs h e x l f o = (
  record p { classes = set p.classes i (push_chunk c slot) },
  rw (o, locate-chunk p xss i slot c h e l, update_at-set p.classes i c (λ t. push_chunk t slot) e)
      refl,
  IsPool-set p xss i c (slot ∷ xs) (push_chunk c slot).head (push_chunk c slot).links h e
      (apply-IsFreeList c xs (pushes slot) (class_at p xss i c xs h e x).0 (l, f)),
)
