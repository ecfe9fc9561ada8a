-- ===== src/Allocator/Realloc.antt =====
-- `sf_realloc` of hw3/src/sfmm.c.
use cse320_projects.Common.{
  ℕ, zero, suc, ◌+◌, ◌-◌, ◌*◌, ◌/◌, ◌%◌, ◌^◌, Bool, true, not, ◌&&◌, ◌||◌, Option, none, ltb, ◌==◌,
  if◌then◌else◌,
}
use cse320_projects.Allocator.{Rows, write, padded, requested_size, blocksize_of}
use cse320_projects.Allocator.Free.{
  FreeRun, aborted, fault, freed, zeroed, set_block_size, bad_block, sf_free,
}
use cse320_projects.Allocator.Malloc.{adjust, set_requested, set_allocated}
use cse320_projects.Allocator.Grow.{Pages, Heap, SfErrno, HeapRun, stopped, returned, sf_malloc}

-- `p -> padded = 1`, or 0
unfoldable pub mark_padded : Bool → Rows → ℕ → Rows
mark_padded paded rows p = write rows p (rows p - padded (rows p) * 2 + (if paded then 2 else 0))

-- `memcpy` of rows, and of the last bytes, which are the low ones of a row.
unfoldable pub copy_bytes : ℕ → ℕ → ℕ → Rows → Rows
copy_bytes bytes dst src rows =
    write rows dst (rows dst - rows dst % 2 ^ (8 * bytes) + rows src % 2 ^ (8 * bytes))

unfoldable pub copy_rows : ℕ → ℕ → ℕ → ℕ → Rows → Rows
copy_rows zero bytes dst src rows = if bytes == 0 then rows else copy_bytes bytes dst src rows
copy_rows (suc n) bytes dst src rows =
    copy_rows n bytes (dst + 8) (src + 8) (write rows dst (rows src))

unfoldable pub with_rows : Rows → Heap → Heap
with_rows rows heap = record heap { allocator = record heap.allocator { rows = rows } }

-- `sf_free` and the return of `ptr`.
unfoldable pub freed_then : Heap → Option SfErrno → ℕ → FreeRun → HeapRun
freed_then heap errno ptr (freed self) = returned (record heap { allocator = self }) errno ptr
freed_then heap errno ptr other = stopped other

-- The block keeps its size.
unfoldable pub same_block : ℕ → ℕ → Bool → ℕ → Rows → Rows
same_block header footer paded size rows =
    mark_padded paded (mark_padded paded (set_requested rows footer size) header) footer

-- The payload in its new place, and the old block freed.
unfoldable pub moved : ℕ → (ℕ → ℕ) → Pages → ℕ → ℕ → HeapRun → HeapRun
moved fuel junk lib ptr requestedsize (returned heap errno payload_temp) =
    let rows =
      copy_rows (requestedsize / 8) (requestedsize % 8) payload_temp ptr heap.allocator.rows in
    if payload_temp == 0 && not (requestedsize == 0)
    then stopped fault
    else freed_then heap errno payload_temp (
        sf_free fuel junk lib.get_heap_start (lib.get_heap_end heap.pages) ptr
          (record heap.allocator { rows = rows }))
moved fuel junk lib ptr requestedsize other = other

-- The block made smaller.
unfoldable pub smaller : ℕ → ℕ → Bool → ℕ → ℕ → Rows → Rows
smaller header footer paded size new_small_allocated_blck_sz rows =
    let fp = header + new_small_allocated_blck_sz - 8 in
    let sized = set_block_size rows header new_small_allocated_blck_sz in
    let copied = write sized fp (sized footer) in
    let small = set_block_size copied fp new_small_allocated_blck_sz in
    mark_padded paded (mark_padded paded (set_requested small fp size) header) fp

-- What is cut off, as a block in use that `sf_free` accepts.
unfoldable pub cut_off : (ℕ → ℕ) → ℕ → ℕ → ℕ → Rows → Rows
cut_off junk free_header free_footer new_free_blck_sz rows =
    let clear = zeroed (zeroed rows (junk 0) free_header) (junk 1) free_footer in
    let sized =
      set_block_size (set_block_size clear free_header new_free_blck_sz) free_footer
        new_free_blck_sz in
    set_requested (set_allocated (set_allocated sized free_footer) free_header) free_footer
      (new_free_blck_sz - 16)

unfoldable pub shrink : ℕ → (ℕ → ℕ) → Pages → ℕ → ℕ → ℕ → ℕ → Bool → Heap → HeapRun
shrink fuel junk lib ptr blocksize size adjusted_sz paded heap =
    let header = ptr - 8 in
    let footer = header + blocksize - 8 in
    let new_small_allocated_blck_sz = adjusted_sz + 16 in
    let free_header = header + new_small_allocated_blck_sz in
    let small = smaller header footer paded size new_small_allocated_blck_sz heap.allocator.rows in
    let split = cut_off junk free_header footer (blocksize - new_small_allocated_blck_sz) small in
    freed_then heap none ptr (
      sf_free fuel (λ k. junk (k + 2)) lib.get_heap_start (lib.get_heap_end heap.pages)
        (free_header + 8) (record heap.allocator { rows = split }))

-- The block in place, or moved, by the adjusted size; `n` rounds are for `sf_malloc`.
unfoldable pub resize : ℕ → ℕ → (ℕ → ℕ) → Pages → ℕ → ℕ → ℕ × Bool → Heap → HeapRun
resize n fuel junk lib ptr size (adjusted_sz, is_adjusted) heap =
    let rows = heap.allocator.rows in
    let header = ptr - 8 in
    let blocksize = blocksize_of (rows header) in
    let current_payload_sz = blocksize - 16 in
    let footer = header + blocksize - 8 in
    let requestedsize = requested_size (rows footer) in
    if adjusted_sz == current_payload_sz
    then returned (with_rows (same_block header footer is_adjusted size rows) heap) none ptr
    else if ltb current_payload_sz adjusted_sz
    then moved fuel (λ k. junk (k + 4 * (n + 1))) lib ptr requestedsize
        (sf_malloc n fuel junk lib adjusted_sz heap)
    else if ltb (current_payload_sz - adjusted_sz) 32
    then returned (with_rows (same_block header footer true size rows) heap) none ptr
    else shrink fuel junk lib ptr blocksize size adjusted_sz is_adjusted heap

unfoldable pub sf_realloc : ℕ → ℕ → (ℕ → ℕ) → Pages → ℕ → ℕ → Heap → HeapRun
sf_realloc n fuel junk lib ptr size heap =
    let heap_end = lib.get_heap_end heap.pages in
    if ptr == 0 || bad_block lib.get_heap_start heap_end heap.allocator.rows ptr
    then stopped aborted
    else if size == 0
    then freed_then heap none 0 (sf_free fuel junk lib.get_heap_start heap_end ptr heap.allocator)
    else resize n fuel junk lib ptr size (adjust size) heap
