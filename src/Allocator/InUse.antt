-- ===== src/Allocator/InUse.antt =====
-- The rows of a block in use, as `sf_malloc` of hw3/src/sfmm.c writes them.
use cse320_projects.Common.{
  ℕ, ◌+◌, ◌-◌, ◌*◌, ◌/◌, ◌%◌, ◌^◌, ◌<◌, ◌≤◌, ◌≡◌, Bool, true, false, ◌||◌, arith, leb, ltb,
  if◌then◌else◌,
}
use cse320_projects.Allocator.{
  Rows, write, allocated, padded, requested_size, block_size, blocksize_of,
}
use cse320_projects.Allocator.Free.{zeroed, set_block_size}
use cse320_projects.Allocator.Malloc.{set_requested, set_padded, set_allocated, in_use}

-- The row of a header or a footer in use.
unfoldable pub used_row : ℕ → ℕ → Bool → ℕ
used_row high blocksize paded = high * 2 ^ 32 + blocksize + (if paded then 2 else 0) + 1

pub used_row-IsUsed :
    (high blocksize : ℕ) (paded : Bool)
    → blocksize % 16 ≡ 0
    → blocksize < 2 ^ 32
    → high < 2 ^ 32
    → (blocksize_of (used_row high blocksize paded) ≡ blocksize)
      × (allocated (used_row high blocksize paded) ≡ 1)
      × (padded (used_row high blocksize paded) ≡ (if paded then 1 else 0))
      × (requested_size (used_row high blocksize paded) ≡ high)
unfolding used_row blocksize_of block_size allocated padded requested_size
used_row-IsUsed high blocksize true even lt small =
    (omega (arith, even), omega (arith, even), omega (arith, even), omega (arith, even))
used_row-IsUsed high blocksize false even lt small =
    (omega (arith, even), omega (arith, even), omega (arith, even), omega (arith, even))

-- Clearing a row and assigning its fields, one after the other.
sized_row :
    (high blocksize : ℕ)
    → blocksize % 16 ≡ 0
    → blocksize < 2 ^ 32
    → high * 2 ^ 32 - block_size (high * 2 ^ 32) * 16 + blocksize / 16 % 2 ^ 28 * 16
      ≡ high * 2 ^ 32 + blocksize
unfolding block_size
sized_row high blocksize even lt = omega (arith, even)

asked_row :
    (high blocksize size : ℕ)
    → blocksize < 2 ^ 32
    → high < 2 ^ 32
    → high * 2 ^ 32
        + blocksize
        - requested_size (high * 2 ^ 32 + blocksize) * 2 ^ 32
        + size % 2 ^ 32 * 2 ^ 32
      ≡ size % 2 ^ 32 * 2 ^ 32 + blocksize
unfolding requested_size
asked_row high blocksize size lt small = omega arith

padded_row :
    (high blocksize : ℕ)
    → blocksize % 16 ≡ 0
    → high * 2 ^ 32 + blocksize - padded (high * 2 ^ 32 + blocksize) * 2 + 2
      ≡ high * 2 ^ 32 + blocksize + 2
unfolding padded
padded_row high blocksize even = omega (arith, even)

allocated_row :
    (high blocksize : ℕ) (paded : Bool)
    → blocksize % 16 ≡ 0
    → (let row = high * 2 ^ 32 + blocksize + (if paded then 2 else 0) in
        row - allocated row + 1 ≡ used_row high blocksize paded)
unfolding allocated used_row
allocated_row high blocksize true even = omega (arith, even)
allocated_row high blocksize false even = omega (arith, even)

module _ (junk : ℕ → ℕ) (p n size : ℕ) (rows : Rows) (le : 32 ≤ n) (even : n % 16 ≡ 0)
    (lt : n < 2 ^ 32) where
  pub in_use-header :
      (paded : Bool) → in_use junk p n size paded rows p ≡ used_row (junk 0 % 2 ^ 32) n paded
  unfolding in_use set_allocated set_padded set_requested set_block_size zeroed write
  in_use-header paded = ground (
    arith,
    le,
    sized_row (junk 0 % 2 ^ 32) n even lt,
    padded_row (junk 0 % 2 ^ 32) n even,
    allocated_row (junk 0 % 2 ^ 32) n paded even,
  )

  pub in_use-footer :
      (paded : Bool)
      → in_use junk p n size paded rows (p + n - 8) ≡ used_row (size % 2 ^ 32) n paded
  unfolding in_use set_allocated set_padded set_requested set_block_size zeroed write
  in_use-footer paded = ground (
    arith,
    le,
    sized_row (junk 1 % 2 ^ 32) n even lt,
    asked_row (junk 1 % 2 ^ 32) n size lt (omega arith),
    padded_row (size % 2 ^ 32) n even,
    allocated_row (size % 2 ^ 32) n paded even,
  )

  pub in_use-away :
      (paded : Bool) (a : ℕ)
      → (ltb a p || leb (p + n) a) ≡ true
      → in_use junk p n size paded rows a ≡ rows a
  unfolding in_use set_allocated set_padded set_requested set_block_size zeroed write
  in_use-away paded a h = ground (arith, le, h)
