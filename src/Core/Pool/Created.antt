-- ===== src/Core/Pool/Created.antt =====
-- A new pool, of chunks that are large enough for their links, has all of its chunks free.
use shm_actors.Prelude.{
  ℕ, zero, suc, ◌+◌, ◌*◌, ◌%◌, ◌^◌, ◌≤◌, ◌<◌, ◌≡◌, refl, sym, ap, subst, ◌∙◌, List, [], ◌∷◌, ok,
  arith, length, get_or, ltb, if◌then◌else◌, map,
}
use shm_actors.Core.Pool.{
  align_up, ClassHeader, SizeClass, Segment, Pool, empty, header_size, link_chain, new_class,
  new_classes, index_classes, place_classes, compute_layout, create,
}
use shm_actors.Core.Pool.FreeList.{IsFreeList, Fresh, Chain}
use shm_actors.Core.Pool.Regions.{Placed, create-Placed, create_inv}
use shm_actors.Core.Pool.Stacks.{IsPool, AllFree}

-- The slots `from`, `from + 1`, and so on, `n` of them.
abbrev pub slots_from : ℕ → ℕ → List ℕ
slots_from from zero = []
slots_from from (suc n) = from ∷ slots_from (suc from) n

Fresh-slots_from : (n from x : ℕ) → x < from → Fresh x (slots_from from n)
Fresh-slots_from zero from x h = tt
Fresh-slots_from (suc n) from x h =
    ((λ e. omega (arith, e)), Fresh-slots_from n (suc from) x (omega arith))

pub length-link_chain : (count local n : ℕ) → length (link_chain count local n) ≡ n
length-link_chain count local zero = refl
length-link_chain count local (suc n) = ap suc (length-link_chain count (suc local) n)

get_or-link_chain :
    (count local n i : ℕ)
    → i < n
    → get_or (link_chain count local n) i empty
      ≡ (if ltb (local + i + 1) count then local + i + 1 else empty)
get_or-link_chain count local zero i h = absurd (omega arith)
get_or-link_chain count local (suc n) zero h = ground arith
get_or-link_chain count local (suc n) (suc i) h =
    subst
      (λ t.
        get_or (link_chain count (suc local) n) i empty
        ≡ (if ltb (t + 1) count then t + 1 else empty))
      (omega arith) (get_or-link_chain count (suc local) n i (omega arith))

-- The chain from `from` on, where `n` chunks are left.
pub Chain-link_chain :
    (count from n : ℕ)
    → from + n ≡ count
    → Chain (link_chain count 0 count) (if ltb from count then from else empty) (slots_from from n)
Chain-link_chain count from zero h = ground arith
Chain-link_chain count from (suc n) h = (
  ground arith,
  omega (arith, length-link_chain count 0 count),
  Fresh-slots_from n (suc from) from (omega arith),
  subst (λ s. Chain (link_chain count 0 count) s (slots_from (suc from) n)) (sym next)
      (Chain-link_chain count (suc from) n (omega arith)),
)
  where
    next :
        get_or (link_chain count 0 count) from empty
        ≡ (if ltb (suc from) count then suc from else empty)
    next =
        get_or-link_chain count 0 count from (omega arith)
        ∙ ap (λ t. if ltb t count then t else empty) (omega arith)

new_class-IsFreeList :
    (c : SizeClass) (base_index data_offset : ℕ)
    → c.chunk_count < 2 ^ 32
    → IsFreeList (new_class c base_index data_offset) (slots_from 0 c.chunk_count)
new_class-IsFreeList c b d h = record {
  counted = length-link_chain c.chunk_count 0 c.chunk_count;
  addressable = omega arith;
  chained =
      subst (λ s. Chain (link_chain c.chunk_count 0 c.chunk_count) s (slots_from 0 c.chunk_count))
        (ground arith) (Chain-link_chain c.chunk_count 0 c.chunk_count (omega arith));
}

-- Counts are u32, and a chunk has the four bytes of its link.
abbrev pub Sized : List SizeClass → Type 0
Sized [] = Unit {0}
Sized (c ∷ cs) = (4 ≤ c.chunk_size) × (c.chunk_count < 2 ^ 32) × Sized cs

new_classes-AllFree :
    (cs : List SizeClass) (total off : ℕ)
    → Sized cs
    → AllFree
        (new_classes cs (index_classes cs total).0 (place_classes cs off).0)
        (map (λ c. slots_from 0 c.chunk_count) cs)
new_classes-AllFree [] total off s = tt
new_classes-AllFree (c ∷ cs) total off s = (
  new_class-IsFreeList c total (align_up off 64) s.1,
  omega (arith, s.0),
  new_classes-AllFree cs ((total + c.chunk_count) % 2 ^ 32)
      (align_up off 64 + c.chunk_count * c.chunk_size) s.2,
)

Placed-weaken :
    (cs : List ClassHeader) (low low' high : ℕ)
    → low' ≤ low
    → Placed low cs high
    → Placed low' cs high
Placed-weaken [] low low' high l h = omega arith
Placed-weaken (c ∷ cs) low low' high l h = (omega (arith, h.0), h.1, h.2)

-- A pool that `create` makes in a segment of less than 4 GiB, with fewer than 2^32 chunks of each
-- class and no class of chunks of less than the 4 bytes of a link, has every chunk of every class
-- free, the first chunk on top, and its regions laid out for `alloc` and `free`.
pub create-IsPool :
    (segment : Segment) (config : List SizeClass) (p : Pool)
    → Sized config
    → header_size + segment.payload_len < 2 ^ 32
    → create segment config ≡ ok p
    → IsPool p (map (λ c. slots_from 0 c.chunk_count) config)
unfolding compute_layout
create-IsPool segment config p s h e = record {
  high = segment.payload_len;
  addressable = h;
  placed =
      Placed-weaken p.classes
        ((compute_layout config).ctrl_offset + (compute_layout config).total_chunks * 16) 0
        segment.payload_len (omega arith) (create-Placed segment config p (omega arith) e);
  frees =
      subst (λ q. AllFree q.classes (map (λ c. slots_from 0 c.chunk_count) config))
        (sym (create_inv segment config p e).0)
        (new_classes-AllFree config 0
          ((compute_layout config).ctrl_offset + (compute_layout config).total_chunks * 16) s);
}
