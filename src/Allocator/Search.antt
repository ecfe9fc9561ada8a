-- ===== src/Allocator/Search.antt =====
-- The searches of hw3/src/sfmm.c along a free list.
use cse320_projects.Common.{
  ℕ, zero, suc, ◌<◌, ◌≡◌, refl, some, List, [], ◌∷◌, arith, leb, if◌then◌else◌, length,
}
use cse320_projects.Allocator.{Rows, search_in_list, search_head_in_list, blocksize_of}
use cse320_projects.Allocator.FreeList.{has, Links, nil, cons}

-- The first block that is large enough, or NULL.
unfoldable pub first_fit : Rows → ℕ → List ℕ → ℕ
first_fit rows blocksize [] = 0
first_fit rows blocksize (p ∷ ps) =
    if leb blocksize (blocksize_of (rows p)) then p else first_fit rows blocksize ps

-- Along a well-formed free list, with more fuel than it has blocks, `search_in_list` ends at the
-- first block that is large enough, or with NULL if there is none.
pub search_in_list-first_fit :
    {rows : Rows} {prev p : ℕ} {ps : List ℕ} (fuel blocksize : ℕ)
    → Links rows prev p ps
    → length ps < fuel
    → search_in_list fuel rows blocksize p ≡ some (first_fit rows blocksize ps)
unfolding search_in_list first_fit
search_in_list-first_fit zero blocksize links h = absurd (omega (arith, h))
search_in_list-first_fit (suc n) blocksize nil h = refl
search_in_list-first_fit (suc n) blocksize (cons nz e b out rest) h =
    ground (arith, search_in_list-first_fit n blocksize rest (omega (arith, h)))

-- found
pub search_head_in_list-has :
    {rows : Rows} {prev p : ℕ} {ps : List ℕ} (fuel to_coalesce : ℕ)
    → Links rows prev p ps
    → length ps < fuel
    → search_head_in_list fuel rows to_coalesce p
      ≡ some (if has to_coalesce ps then to_coalesce else 0)
unfolding search_head_in_list has
search_head_in_list-has zero h links lt = absurd (omega (arith, lt))
search_head_in_list-has (suc n) h nil lt = refl
search_head_in_list-has (suc n) h (cons nz e b out rest) lt =
    ground (arith, search_head_in_list-has n h rest (omega (arith, lt)))
