-- ===== src/Allocator/Abort.antt =====
-- Blocks that `sf_free` of hw3/src/sfmm.c refuses.
use cse320_projects.Common.{
  ℕ, ◌+◌, ◌-◌, ◌%◌, ◌^◌, ◌<◌, ◌≤◌, ◌≡◌, ◌≢◌, ◌∙◌, sym, ap, true, false, some, List, arith,
}
use cse320_projects.Allocator.{Rows, Allocator, allocated, blocksize_of}
use cse320_projects.Allocator.Lists.{class, IsFree, replace}
use cse320_projects.Allocator.Free.{aborted, freed, bad_block, sf_free}
use cse320_projects.Allocator.FreeList.{has}
use cse320_projects.Allocator.Unlink.{without}
use cse320_projects.Allocator.Malloc.{place}
use cse320_projects.Allocator.InUse.{used_row, used_row-IsUsed}
use cse320_projects.Allocator.Place.{place-whole}
use cse320_projects.Allocator.Release.{
  outside, sf_free-alone, class-at_least, class-at_most, blocksize_of-IsRound,
}

sf_free-bad :
    (fuel : ℕ) (junk : ℕ → ℕ) (heap_start heap_end ptr : ℕ) (self : Allocator)
    → bad_block heap_start heap_end self.rows ptr ≡ true
    → sf_free fuel junk heap_start heap_end ptr self ≡ aborted
unfolding sf_free
sf_free-bad fuel junk heap_start heap_end ptr self bad = ground (arith, bad)

bad_block-unused :
    (heap_start heap_end b : ℕ) (rows : Rows)
    → allocated (rows b) ≡ 0
    → bad_block heap_start heap_end rows (b + 8) ≡ true
unfolding bad_block
bad_block-unused heap_start heap_end b rows unused =
    let back : b + 8 - 8 ≡ b = omega arith in rw back (ground (arith, unused))

-- `sf_free` of a valid block whose next block is in use frees it, and a second `sf_free` of it
-- aborts. The free lists are well formed and lie outside the block, and its size has a class.
sf_free-twice :
    {self : Allocator} {lists : ℕ → List ℕ} (fuel : ℕ) (junk : ℕ → ℕ) (heap_start heap_end b k : ℕ)
    → IsFree self lists
    → b ≢ 0
    → bad_block heap_start heap_end self.rows (b + 8) ≡ false
    → allocated (self.rows (b + blocksize_of (self.rows b))) ≡ 1
    → class (blocksize_of (self.rows b)) ≡ some k
    → ((j : ℕ) → j < 4 → outside b (blocksize_of (self.rows b)) (lists j) ≡ true)
    → (self' : Allocator) × (sf_free fuel junk heap_start heap_end (b + 8) self ≡ freed self')
      × (sf_free fuel junk heap_start heap_end (b + 8) self' ≡ aborted)
sf_free-twice fuel junk heap_start heap_end b k free nz good used sized clear =
    let (self', e, _, _, unused) =
      sf_free-alone fuel junk heap_start heap_end b k free nz good used sized clear in
    (
      self',
      e,
      sf_free-bad fuel junk heap_start heap_end (b + 8) self'
          (bad_block-unused heap_start heap_end b self'.rows unused),
    )

-- A block in use that is longer than its request, and is not marked as padded.
bad_block-unpadded :
    (heap_start heap_end b s size high : ℕ) (rows : Rows)
    → 32 ≤ s
    → s % 16 ≡ 0
    → s < 2 ^ 32
    → high < 2 ^ 32
    → size < 2 ^ 32
    → size + 16 ≢ s
    → rows b ≡ used_row high s false
    → rows (b + s - 8) ≡ used_row size s false
    → bad_block heap_start heap_end rows (b + 8) ≡ true
unfolding bad_block
bad_block-unpadded heap_start heap_end b s size high rows le even lt small asked ne header footer =
    let back : b + 8 - 8 ≡ b = omega arith in
    let (sized, _, plain, _) = used_row-IsUsed high s false even lt small in
    let (_, _, _, request) = used_row-IsUsed size s false even lt asked in
    rw (back, header, sized, footer, request, plain) (ground (arith, ne))

-- When `sf_malloc` takes a free block whole whose size exceeds the request and 16 bytes by less
-- than 32 but at all, for a request that it does not pad, `sf_free` of that block aborts.
pub place-refused :
    {self : Allocator} {lists : ℕ → List ℕ} (fuel : ℕ) (junk junk' : ℕ → ℕ)
    (heap_start heap_end size s sfh i : ℕ)
    → IsFree self lists
    → i < 4
    → has sfh (lists i) ≡ true
    → blocksize_of (self.rows sfh) ≡ s
    → s < size + 48
    → size + 16 < s
    → ((j : ℕ) → j < 4 → outside sfh s (replace lists i (without sfh (lists i)) j) ≡ true)
    → (self' : Allocator) × (place junk size (size + 16) false sfh self ≡ some (self', sfh + 8))
      × (sf_free fuel junk' heap_start heap_end (sfh + 8) self' ≡ aborted)
place-refused {self} fuel junk junk' heap_start heap_end size s sfh i free lt member e_s short long
      clear =
    let (self', e, _, header, footer) =
      place-whole junk size (size + 16) s sfh i false free lt member e_s (omega (arith, short))
        clear in
    let sized : class s ≡ some i = ap class (sym e_s) ∙ free.sizes i lt sfh member in
    let (round, _) = blocksize_of-IsRound (self.rows sfh) in
    let small = class-at_most s i sized in
    let asked : size % 2 ^ 32 ≡ size = omega (arith, small, long) in
    (
      self',
      e,
      sf_free-bad fuel junk' heap_start heap_end (sfh + 8) self' (
          bad_block-unpadded heap_start heap_end sfh s size (junk 0 % 2 ^ 32) self'.rows
            (class-at_least s i sized) (omega (arith, round, e_s)) small (omega arith)
            (omega (arith, small, long)) (omega (arith, long)) header
            (footer ∙ ap (λ z. used_row z s false) asked)),
    )
