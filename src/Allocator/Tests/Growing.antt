-- ===== src/Allocator/Tests/Growing.antt =====
-- The theorems about the growing of the heap and `sf_realloc` of hw3/src/sfmm.c, on a heap without a
-- page and on the heap of three blocks.
use cse320_projects.Common.{
  ℕ, zero, suc, ◌+◌, ◌-◌, ◌*◌, ◌%◌, ◌^◌, ◌<◌, ◌≡◌, ◌≢◌, refl, true, false, none, some, [], ◌∷◌,
  arith, ◌==◌, if◌then◌else◌,
}
use cse320_projects.Allocator.{Rows, Allocator, allocated, block_size, requested_size, blocksize_of}
use cse320_projects.Allocator.Lists.{class, IsFree}
use cse320_projects.Allocator.Free.{bad_block, freed}
use cse320_projects.Allocator.Release.{outside}
use cse320_projects.Allocator.Malloc.{adjust}
use cse320_projects.Allocator.InUse.{used_row}
use cse320_projects.Allocator.Grow.{
  Pages, Heap, returned, page_sz, mem_init, coalesce_back, sf_malloc,
}
use cse320_projects.Allocator.Realloc.{with_rows, sf_realloc}
use cse320_projects.Allocator.Resize.{sf_realloc-kept}
use cse320_projects.Allocator.First.{sf_malloc-first}
use cse320_projects.Allocator.Lost.{coalesce_back-lost}
use cse320_projects.Allocator.Tests.{rows, heap, lists, heap-IsFree, last_good}

-- The pages of a heap at 0x1000.
abbrev pages_at : Pages
pages_at = record {
  sf_sbrk = λ n. some (0x1000 + n * 0x1000);
  get_heap_start = 0x1000;
  get_heap_end = λ n. 0x1000 + n * 0x1000;
}

abbrev three_blocks_at : Pages
three_blocks_at = record pages_at { get_heap_end = λ n. 0x1090 }

abbrev empty_heap : Heap
empty_heap = record { allocator = record { rows = λ a. 0; heads = 0 ∷ 0 ∷ 0 ∷ 0 ∷ [] }; pages = 0 }

abbrev three_blocks : Heap
three_blocks = record { allocator = heap; pages = 1 }

sf_malloc-first_example :
    (self : Allocator) × (k : ℕ) × (sf_malloc 1 1 (λ i. 7) pages_at 100 empty_heap
      ≡ returned (record { allocator = self; pages = 1 }) none 0x1008)
    × (class (page_sz - (16 + (adjust 100).0)) ≡ some k)
    × IsFree self (λ j. if j == k then (0x1000 + (16 + (adjust 100).0)) ∷ [] else [])
    × (self.rows 0x1000 ≡ used_row (7 % 2 ^ 32) (16 + (adjust 100).0) (adjust 100).1)
    × (self.rows (0x1000 + (16 + (adjust 100).0) - 8)
        ≡ used_row 100 (16 + (adjust 100).0) (adjust 100).1)
    × (blocksize_of (self.rows (0x1000 + (16 + (adjust 100).0))) ≡ page_sz - (16 + (adjust 100).0))
sf_malloc-first_example =
    sf_malloc-first 0 0 100 0x1000 (λ i. 7) pages_at empty_heap (omega arith) (omega arith) refl
      refl (omega arith) refl

last_size : 48 ≡ blocksize_of (rows 0x1060)
unfolding blocksize_of block_size
last_size = refl

sf_realloc-kept_example :
    (rows' : Rows) × (sf_realloc 1 9 (λ i. 7) three_blocks_at 0x1068 20 three_blocks
      ≡ returned (with_rows rows' three_blocks) none 0x1068)
    × (bad_block 0x1000 0x1090 rows' 0x1068 ≡ false)
    × (blocksize_of (rows' 0x1060) ≡ 48)
    × (requested_size (rows' 0x1088) ≡ 20)
    × ((a : ℕ) → a ≢ 0x1060 → a ≢ 0x1088 → rows' a ≡ rows a)
sf_realloc-kept_example =
    sf_realloc-kept 1 9 (λ i. 7) three_blocks_at 0x1060 48 20 three_blocks (omega arith) last_size
      last_good (unfold adjust in omega arith) (unfold adjust in omega arith)

page_outside : (j : ℕ) → j < 4 → outside 0x1090 page_sz (lists j) ≡ true
unfolding outside
page_outside zero h = refl
page_outside (suc j) h = refl

last_used : allocated (rows 0x1088) ≡ 1
unfolding allocated
last_used = refl

coalesce_back-lost_example :
    (listed lost : Allocator) × (mem_init (λ i. 7) 0x1090 (0x1090 + page_sz) heap
      ≡ (listed, 0x1090))
    × (coalesce_back 9 (λ i. 7) 0x1090 listed ≡ freed lost)
    × IsFree lost lists
    × (blocksize_of (lost.rows 0x1090) ≡ page_sz)
    × (allocated (lost.rows 0x1090) ≡ 0)
coalesce_back-lost_example =
    coalesce_back-lost 9 (λ i. 7) (λ i. 7) 0x1090 heap-IsFree (omega arith) page_outside last_used
