-- ===== src/Allocator/Free.antt =====
-- `sf_free` of hw3/src/sfmm.c.
--
-- `heap_start` and `heap_end` are the values of `get_heap_start` and `get_heap_end`; `junk n` is what
-- stands behind `zero` at the n-th call of `memcpy`. The searches are given fuel, for lists that do
-- not end.
use cse320_projects.Common.{
  ℕ, zero, suc, ◌+◌, ◌-◌, ◌*◌, ◌/◌, ◌%◌, ◌^◌, Bool, not, ◌&&◌, ◌||◌, Option, none, some, ltb, ◌==◌,
  if◌then◌else◌, get_or,
}
use cse320_projects.Allocator.{
  Rows, write, allocated, padded, block_size, requested_size, blocksize_of, in_list, Allocator,
  add_to_free_list, remove_from_free_list, search_head_in_list,
}

-- `abort`; an access through NULL; a search out of fuel; or the return.
pub data FreeRun : Type 0 where
  aborted : FreeRun
  fault : FreeRun
  searching : FreeRun
  freed : Allocator → FreeRun

-- `memcpy(p, &zero, 8)`
unfoldable pub zeroed : Rows → ℕ → ℕ → Rows
unfolding write
zeroed rows junk p = write rows p (junk % 2 ^ 32 * 2 ^ 32)

-- `p -> block_size = blocksize >> 4`
unfoldable pub set_block_size : Rows → ℕ → ℕ → Rows
unfolding write block_size
set_block_size rows p blocksize =
    write rows p (rows p - block_size (rows p) * 16 + blocksize / 16 % 2 ^ 28 * 16)

-- The tests before which `sf_free` and `sf_realloc` abort.
unfoldable pub bad_block : ℕ → ℕ → Rows → ℕ → Bool
unfolding allocated padded requested_size blocksize_of
bad_block heap_start heap_end rows ptr =
    let ptr_header = ptr - 8 in
    let blocksize = blocksize_of (rows ptr_header) in
    let ptr_footer = ptr_header + blocksize - 8 in
    let requestedsize = requested_size (rows ptr_footer) in
    let non_padded = requestedsize + 16 == blocksize in
    ltb ptr_header heap_start
    || ltb (heap_end - 8) ptr_footer
    || not (blocksize == blocksize_of (rows ptr_footer))
    || not (padded (rows ptr_header) == padded (rows ptr_footer))
    || not (allocated (rows ptr_header) == allocated (rows ptr_footer))
    || allocated (rows ptr_header) == 0
    || allocated (rows ptr_footer) == 0
    || not non_padded && padded (rows ptr_header) == 0
    || non_padded && padded (rows ptr_header) == 1
    || ltb blocksize requestedsize
    || not (blocksize % 16 == 0)

-- The block that was found is taken from list `i`.
unfoldable pub take_found : ℕ → Allocator → Option ℕ → FreeRun
take_found i self none = searching
take_found i self (some zero) = fault
take_found i self (some (suc n)) = freed (remove_from_free_list (suc n) i self)

-- The loop that takes the next block from its list, from list `i` on.
unfoldable pub take_loop : ℕ → ℕ → ℕ → ℕ → Allocator → FreeRun
unfolding take_found
take_loop fuel zero i next_header self = freed self
take_loop fuel (suc n) i next_header self =
    let rest = take_loop fuel n (i + 1) next_header self in
    if in_list (blocksize_of (self.rows next_header)) i
    then take_found i self (search_head_in_list fuel self.rows next_header (get_or self.heads i 0))
    else rest

-- A block without neighbours in the lists is put in.
unfoldable pub insert : ℕ → Allocator → Allocator
unfolding write
insert p self =
    let rows = write (write self.rows (p + 8) 0) (p + 16) 0 in
    (add_to_free_list p (record self { rows = rows })).0

-- The words of the block and the next one, made one free block.
unfoldable pub merged : (ℕ → ℕ) → ℕ → ℕ → ℕ → Rows → Rows
merged junk ptr_header blocksize next_blck_sz rows =
    let next_header = ptr_header + blocksize in
    let next_footer = next_header + next_blck_sz - 8 in
    let both = zeroed (zeroed rows (junk 0) ptr_header) (junk 1) next_footer in
    let between = zeroed (zeroed both (junk 2) (next_header - 8)) (junk 3) next_header in
    let new_free_sz = blocksize + next_blck_sz in
    set_block_size (set_block_size between ptr_header new_free_sz) next_footer new_free_sz

unfoldable pub coalesce : (ℕ → ℕ) → ℕ → ℕ → ℕ → FreeRun → FreeRun
coalesce junk ptr_header blocksize next_blck_sz (freed self) = freed (
    insert ptr_header
      (record self { rows = merged junk ptr_header blocksize next_blck_sz self.rows }))
coalesce junk ptr_header blocksize next_blck_sz other = other

-- The words of the block, made a free block by itself.
unfoldable pub released : (ℕ → ℕ) → ℕ → ℕ → Rows → Rows
released junk ptr_header blocksize rows =
    let ptr_footer = ptr_header + blocksize - 8 in
    let clear = zeroed (zeroed rows (junk 0) ptr_header) (junk 1) ptr_footer in
    set_block_size (set_block_size clear ptr_header blocksize) ptr_footer blocksize

unfoldable pub release : (ℕ → ℕ) → ℕ → ℕ → Allocator → Allocator
release junk ptr_header blocksize self =
    insert ptr_header (record self { rows = released junk ptr_header blocksize self.rows })

unfoldable pub sf_free : ℕ → (ℕ → ℕ) → ℕ → ℕ → ℕ → Allocator → FreeRun
sf_free fuel junk heap_start heap_end ptr self =
    let ptr_header = ptr - 8 in
    let blocksize = blocksize_of (self.rows ptr_header) in
    let next_header = ptr_header + blocksize in
    if ptr == 0
    then aborted
    else if bad_block heap_start heap_end self.rows ptr
    then aborted
    else if allocated (self.rows next_header) == 0
    then coalesce junk ptr_header blocksize (blocksize_of (self.rows next_header))
        (take_loop fuel 4 0 next_header self)
    else freed (release junk ptr_header blocksize self)
