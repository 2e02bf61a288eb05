-- ===== src/Tests/PoolTests.antt =====
-- A pool of two classes, of 2 and 1 chunks, at concrete values.
use shm_actors.Prelude.{set, ℕ, ◌≡◌, ◌≢◌, refl, List, [], ◌∷◌, ok, some, arith, ◌⊎◌, replicate}
use shm_actors.Core.Desc.{ChunkDesc}
use shm_actors.Core.Ctrl.{init_at}
use shm_actors.Core.Pool.{
  SizeClass, ClassHeader, Segment, Pool, create, compute_layout, alloc, free, attach, ctrl,
  max_chunk_size, free_count, ctrl_by_index,
}
use shm_actors.Core.Pool.{pool_magic, treiber_push, treiber_pop}
use shm_actors.Core.Pool.FreeList.{IsFreeList, pops, pushes, apply, apply-IsFreeList}
use shm_actors.Core.Pool.Tag.{run, count_moves, stale_swap}
use shm_actors.Core.Pool.Regions.{Placed, create-Placed}
use shm_actors.Core.Pool.Count.{free_count-length}
use shm_actors.Core.Pool.Created.{create-IsPool}
use shm_actors.Core.Pool.Stacks.{IsPool}
use shm_actors.Core.Pool.Alloc.{Taken, alloc-Taken}
use shm_actors.Core.Pool.Cycle.{Before, free-alloc, alloc_disjoint}

abbrev segment : Segment
segment = record { id = 7; payload_len = 4096 }

abbrev config : List SizeClass
config =
    record { chunk_size = 64; chunk_count = 2 } ∷ record { chunk_size = 128; chunk_count = 1 } ∷ []

-- The classes as `create` writes them.
abbrev class64 : ClassHeader
class64 = record {
  head = 0;
  chunk_size = 64;
  chunk_count = 2;
  base_index = 0;
  data_offset = 192;
  links = 1 ∷ 4294967295 ∷ [];
}

abbrev class128 : ClassHeader
class128 = record {
  head = 0;
  chunk_size = 128;
  chunk_count = 1;
  base_index = 2;
  data_offset = 320;
  links = 4294967295 ∷ [];
}

abbrev new_pool : Pool
new_pool = record {
  segment = segment;
  magic = pool_magic;
  classes = class64 ∷ class128 ∷ [];
  ctrls = replicate 3 (init_at 0);
}

abbrev all_free : List (List ℕ)
all_free = (0 ∷ 1 ∷ []) ∷ (0 ∷ []) ∷ []

new_pool_created : create segment config ≡ ok new_pool
unfolding create
new_pool_created = refl

-- The first chunk of 64 bytes, and the pool without it: chunk 1 is on top, and the tag is 1.
abbrev first : ChunkDesc
first = record { segment_id = 7; generation = 0; offset = 256; len = 64; schema_id = 0; pad = 0 }

abbrev one_out : Pool
one_out = record new_pool { classes = record class64 { head = 4294967297 } ∷ class128 ∷ [] }

alloc-first : alloc new_pool 10 ≡ ok (first, one_out)
unfolding alloc init_at
alloc-first = refl

-- The second, of two.
abbrev second : ChunkDesc
second = record first { offset = 320 }

abbrev two_out : Pool
two_out = record new_pool { classes = record class64 { head = 12884901887 } ∷ class128 ∷ [] }

alloc-second : alloc one_out 64 ≡ ok (second, two_out)
unfolding alloc init_at
alloc-second = refl

attach_example : attach one_out ≡ ok one_out
unfolding attach
attach_example = refl

max_chunk_size_example : max_chunk_size config ≡ 128
unfolding max_chunk_size
max_chunk_size_example = refl

free_count_example : free_count (record class64 { head = 4294967297 }) ≡ some 1
unfolding free_count
free_count_example = refl

ctrl_example : ctrl one_out first ≡ ctrl_by_index one_out 0
unfolding ctrl ctrl_by_index
ctrl_example = refl

create-Placed_example : Placed 136 new_pool.classes 4096
unfolding compute_layout
create-Placed_example = create-Placed segment config new_pool (omega arith) new_pool_created

create-IsPool_example : IsPool new_pool all_free
create-IsPool_example =
    create-IsPool segment config new_pool (omega arith, omega arith, (omega arith, omega arith, tt))
      (omega arith) new_pool_created

-- The first class after the first allocation.
abbrev popped : ClassHeader
popped = record class64 { head = 4294967297 }

popped-IsFreeList : IsFreeList popped (1 ∷ [])
popped-IsFreeList = record {
  counted = refl;
  addressable = omega arith;
  chained = (refl, omega arith, tt, refl);
}

class128-IsFreeList : IsFreeList class128 (0 ∷ [])
class128-IsFreeList = record {
  counted = refl;
  addressable = omega arith;
  chained = (refl, omega arith, tt, refl);
}

abbrev one_free : List (List ℕ)
one_free = (1 ∷ []) ∷ (0 ∷ []) ∷ []

new_pool-IsPool : IsPool new_pool all_free
new_pool-IsPool =
    create-IsPool segment config new_pool (omega arith, omega arith, (omega arith, omega arith, tt))
      (omega arith) new_pool_created

one_out-IsPool : IsPool one_out one_free
one_out-IsPool = record {
  high = 4096;
  addressable = omega arith;
  placed = (omega arith, refl, (omega arith, refl, omega arith));
  frees = (popped-IsFreeList, omega arith, (class128-IsFreeList, omega arith, tt));
}

-- The chunk comes back, whatever was written into it.
apply-IsFreeList_example : IsFreeList (apply popped (pushes 0)) (0 ∷ 1 ∷ [])
apply-IsFreeList_example =
    apply-IsFreeList popped (1 ∷ []) (pushes 0) popped-IsFreeList
      (omega arith, ((λ e. omega (arith, e)), tt))

-- After a pop and a push of the same chunk the slot is the same and the head word is not.
stale_swap_example : (run class64 (pops ∷ pushes 0 ∷ [])).head ≢ class64.head
unfolding run apply treiber_pop treiber_push count_moves
stale_swap_example =
    stale_swap class64 (pops ∷ pushes 0 ∷ []) (omega arith, (omega arith, tt)) (omega arith)

free-alloc_example : (p : Pool) × (free one_out first ≡ ok p) × IsPool p all_free
free-alloc_example = free-alloc new_pool all_free 10 first one_out new_pool-IsPool alloc-first

alloc-Taken_example :
    (t : Taken new_pool all_free 10 first one_out) × IsPool one_out (set all_free t.index t.rest)
alloc-Taken_example = alloc-Taken new_pool all_free 10 first one_out new_pool-IsPool alloc-first

-- The second chunk does not overlap the first.
alloc_disjoint_example : Before 256 64 320 ⊎ Before 320 64 256
alloc_disjoint_example =
    alloc_disjoint one_out one_free 64 second two_out 0 0 popped (1 ∷ []) one_out-IsPool
      alloc-second refl refl (omega arith) ((λ e. omega (arith, e)), tt)

free_count-length_example : free_count popped ≡ some 1
free_count-length_example = free_count-length popped (1 ∷ []) popped-IsFreeList
