-- ===== src/Allocator/Tests.antt =====
-- The theorems about hw3 on a heap of three blocks at 0x1000: 32 bytes in use, 64 free, 48 in use.
mod Growing
use cse320_projects.Common.{
  ℕ, zero, suc, ◌+◌, ◌-◌, ◌*◌, ◌^◌, ◌<◌, ◌≡◌, ◌≢◌, refl, true, false, some, List, [], ◌∷◌, arith,
  ◌==◌, if◌then◌else◌, get_or,
}
use cse320_projects.Allocator.{
  Rows, Allocator, allocated, padded, block_size, requested_size, blocksize_of, push,
  add_to_free_list, remove_from_free_list, search_in_list,
}
use cse320_projects.Allocator.FreeList.{has, apart, misses, Links, nil, cons}
use cse320_projects.Allocator.Unlink.{without}
use cse320_projects.Allocator.Lists.{class, IsFree, replace}
use cse320_projects.Allocator.Changes.{remove_from_free_list-IsFree}
use cse320_projects.Allocator.Search.{first_fit, search_in_list-first_fit}
use cse320_projects.Allocator.Free.{aborted, freed, bad_block, sf_free}
use cse320_projects.Allocator.Release.{outside, sf_free-alone}
use cse320_projects.Allocator.Coalesce.{sf_free-coalesced}
use cse320_projects.Allocator.Abort.{place-refused}
use cse320_projects.Allocator.Malloc.{place}
use cse320_projects.Allocator.InUse.{used_row}
use cse320_projects.Allocator.Place.{place-split}

-- The words of the three blocks; the links of the free one are 0.
abbrev pub rows : Rows
rows a =
    if a == 0x1000
    then 33
    else if a == 0x1018
    then 33 + 16 * 2 ^ 32
    else if a == 0x1020
    then 64
    else if a == 0x1058
    then 64
    else if a == 0x1060
    then 49
    else if a == 0x1088
    then 49 + 32 * 2 ^ 32
    else if a == 0x1090
    then 1
    else 0

abbrev pub heap : Allocator
heap = record { rows = rows; heads = 0x1020 ∷ 0 ∷ 0 ∷ 0 ∷ [] }

abbrev pub lists : ℕ → List ℕ
lists zero = 0x1020 ∷ []
lists (suc _) = []

heap_chains : (i : ℕ) → i < 4 → Links rows 0 (get_or heap.heads i 0) (lists i)
unfolding get_or apart
heap_chains zero h = cons {q = 0} (omega arith) refl refl refl nil
heap_chains (suc zero) h = nil
heap_chains (suc (suc zero)) h = nil
heap_chains (suc (suc (suc zero))) h = nil
heap_chains (suc (suc (suc (suc i)))) h = absurd (omega (arith, h))

heap_sizes :
    (i : ℕ) → i < 4 → (p : ℕ) → has p (lists i) ≡ true → class (blocksize_of (rows p)) ≡ some i
unfolding has
heap_sizes zero h p m =
    let here : p ≡ 0x1020 = ground (arith, m) in
    rw here (unfold class blocksize_of block_size in refl)
heap_sizes (suc i) h p m = absurd (ground (arith, m))

heap_away :
    (i j : ℕ) → i < 4 → j < 4 → i ≢ j → (p : ℕ) → has p (lists i) ≡ true → apart p (lists j) ≡ true
unfolding has apart
heap_away zero zero hi hj ne p m = absurd (ne refl)
heap_away zero (suc j) hi hj ne p m = refl
heap_away (suc i) j hi hj ne p m = absurd (ground (arith, m))

pub heap-IsFree : IsFree heap lists
heap-IsFree = record { four = refl; chains = heap_chains; sizes = heap_sizes; away = heap_away }

listed : has 0x1020 (lists 0) ≡ true
unfolding has
listed = refl

small_class : class (blocksize_of (rows 0x1000)) ≡ some 0
unfolding class blocksize_of block_size
small_class = refl

small_apart : (j : ℕ) → j < 4 → apart 0x1000 (lists j) ≡ true
unfolding apart
small_apart zero h = refl
small_apart (suc j) h = refl

pub last_good : bad_block 0x1000 0x1090 rows 0x1068 ≡ false
unfolding bad_block blocksize_of block_size requested_size padded allocated
last_good = refl

last_next : allocated (rows (0x1060 + blocksize_of (rows 0x1060))) ≡ 1
unfolding blocksize_of block_size allocated
last_next = refl

last_class : class (blocksize_of (rows 0x1060)) ≡ some 0
unfolding class blocksize_of block_size
last_class = refl

last_outside : (j : ℕ) → j < 4 → outside 0x1060 (blocksize_of (rows 0x1060)) (lists j) ≡ true
unfolding outside blocksize_of block_size
last_outside zero h = refl
last_outside (suc j) h = refl

first_good : bad_block 0x1000 0x1090 rows 0x1008 ≡ false
unfolding bad_block blocksize_of block_size requested_size padded allocated
first_good = refl

first_size : blocksize_of (rows 0x1000) ≡ 32
unfolding blocksize_of block_size
first_size = refl

next_size : blocksize_of (rows 0x1020) ≡ 64
unfolding blocksize_of block_size
next_size = refl

next_unused : allocated (rows 0x1020) ≡ 0
unfolding allocated
next_unused = refl

whole_class : class 96 ≡ some 0
unfolding class
whole_class = refl

whole_outside :
    (j : ℕ) → j < 4 → outside 0x1000 96 (replace lists 0 (without 0x1020 (0x1020 ∷ [])) j) ≡ true
unfolding outside replace without
whole_outside zero h = refl
whole_outside (suc j) h = ground arith

remove_from_free_list-IsFree_example :
    IsFree (remove_from_free_list 0x1020 0 heap) (replace lists 0 (without 0x1020 (0x1020 ∷ [])))
    × ((a : ℕ)
        → misses a (0x1020 ∷ []) ≡ true
        → (remove_from_free_list 0x1020 0 heap).rows a ≡ rows a)
remove_from_free_list-IsFree_example =
    remove_from_free_list-IsFree 0x1020 0 heap-IsFree (omega arith) listed

search_in_list-first_fit_example :
    search_in_list 2 rows 48 0x1020 ≡ some (first_fit rows 48 (0x1020 ∷ []))
unfolding get_or
search_in_list-first_fit_example =
    search_in_list-first_fit 2 48 (heap_chains 0 (omega arith)) (omega arith)

sf_free-alone_example :
    (self' : Allocator) × (sf_free 2 (λ _. 7) 0x1000 0x1090 0x1068 heap ≡ freed self')
    × IsFree self' (replace lists 0 (0x1060 ∷ 0x1020 ∷ []))
    × (blocksize_of (self'.rows 0x1060) ≡ blocksize_of (rows 0x1060))
    × (allocated (self'.rows 0x1060) ≡ 0)
sf_free-alone_example =
    sf_free-alone 2 (λ _. 7) 0x1000 0x1090 0x1060 0 heap-IsFree (omega arith) last_good last_next
      last_class last_outside

sf_free-coalesced_example :
    (self' : Allocator) × (sf_free 2 (λ _. 7) 0x1000 0x1090 0x1008 heap ≡ freed self')
    × IsFree self' (
        let lists' = replace lists 0 (without 0x1020 (0x1020 ∷ [])) in
        replace lists' 0 (0x1000 ∷ lists' 0))
    × (blocksize_of (self'.rows 0x1000) ≡ 96)
    × (blocksize_of (self'.rows 0x1058) ≡ 96)
    × (allocated (self'.rows 0x1000) ≡ 0)
sf_free-coalesced_example =
    sf_free-coalesced 2 (λ _. 7) 0x1000 0x1090 0x1000 32 64 0 0 heap-IsFree (omega arith) first_good
      first_size (omega arith) next_size next_unused (omega arith) listed (omega arith) whole_class
      whole_outside

free_size : blocksize_of (rows 0x1020) ≡ 64
unfolding blocksize_of block_size
free_size = refl

rest_class : class (64 - 32) ≡ some 0
unfolding class
rest_class = refl

free_outside :
    (j : ℕ) → j < 4 → outside 0x1020 64 (replace lists 0 (without 0x1020 (0x1020 ∷ [])) j) ≡ true
unfolding outside replace without
free_outside zero h = refl
free_outside (suc j) h = ground arith

place-split_example :
    (self' : Allocator) × (place (λ _. 7) 10 32 true 0x1020 heap ≡ some (self', 0x1028))
    × IsFree self' (
        let lists' = replace lists 0 (without 0x1020 (0x1020 ∷ [])) in
        replace lists' 0 (0x1040 ∷ lists' 0))
    × (self'.rows 0x1020 ≡ used_row 7 32 true)
    × (self'.rows 0x1038 ≡ used_row 10 32 true)
    × (blocksize_of (self'.rows 0x1040) ≡ 32)
place-split_example =
    place-split (λ _. 7) 10 32 64 0x1020 0 0 true heap-IsFree (omega arith) listed free_size
      (omega arith) refl (omega arith) rest_class free_outside

place-refused_example :
    (self' : Allocator) × (place (λ _. 7) 32 48 false 0x1020 heap ≡ some (self', 0x1028))
    × (sf_free 2 (λ _. 7) 0x1000 0x1090 0x1028 self' ≡ aborted)
place-refused_example =
    place-refused 2 (λ _. 7) (λ _. 7) 0x1000 0x1090 32 64 0x1020 0 heap-IsFree (omega arith) listed
      free_size (omega arith) (omega arith) free_outside
