-- ===== src/Allocator/Malloc.antt =====
-- `sf_malloc` of hw3/src/sfmm.c from the adjusting of the size on: the search for a block, and the
-- block that was found, split or taken whole.
use cse320_projects.Common.{
  ℕ, zero, suc, ◌+◌, ◌-◌, ◌*◌, ◌/◌, ◌%◌, ◌^◌, Bool, true, false, Option, none, some, leb, ltb, ◌==◌,
  if◌then◌else◌, get_or,
}
use cse320_projects.Allocator.{
  Rows, write, allocated, padded, requested_size, blocksize_of, in_list, Allocator,
  add_to_free_list, remove_from_free_list, search_in_list,
}
use cse320_projects.Allocator.Free.{zeroed, set_block_size}

-- `adjusted_sz` and `paded`
unfoldable pub adjust : ℕ → ℕ × Bool
adjust size =
    if ltb size 16
    then (16, true)
    else if size % 16 == 0
    then (size, false)
    else ((size / 16 + 1) * 16, true)

-- The loop that searches one list after the other, from list `i` on.
unfoldable pub search_found : Option ℕ → Option ℕ → Option ℕ
search_found none rest = none
search_found (some zero) rest = rest
search_found (some (suc p)) rest = some (suc p)

unfoldable pub search_lists : ℕ → ℕ → ℕ → ℕ → Allocator → Option ℕ
search_lists fuel zero i blocksize self = some 0
search_lists fuel (suc n) i blocksize self =
    search_found (search_in_list fuel self.rows blocksize (get_or self.heads i 0))
      (search_lists fuel n (i + 1) blocksize self)

-- The loop that takes a block of this size from its list, from list `i` on.
unfoldable pub remove_loop : ℕ → ℕ → ℕ → ℕ → Allocator → Allocator
remove_loop zero i blocksize sfh self = self
remove_loop (suc n) i blocksize sfh self =
    remove_loop n (i + 1) blocksize sfh
      (if in_list blocksize i then remove_from_free_list sfh i self else self)

-- Assignments to the bit fields.
unfoldable pub set_requested : Rows → ℕ → ℕ → Rows
set_requested rows p size =
    write rows p (rows p - requested_size (rows p) * 2 ^ 32 + size % 2 ^ 32 * 2 ^ 32)

unfoldable pub set_padded : Rows → ℕ → Rows
set_padded rows p = write rows p (rows p - padded (rows p) * 2 + 2)

unfoldable pub set_allocated : Rows → ℕ → Rows
set_allocated rows p = write rows p (rows p - allocated (rows p) + 1)

-- The header and the footer of a block in use.
unfoldable pub in_use : (ℕ → ℕ) → ℕ → ℕ → ℕ → Bool → Rows → Rows
in_use junk header blocksize size paded rows =
    let footer = header + blocksize - 8 in
    let clear = zeroed (zeroed rows (junk 0) header) (junk 1) footer in
    let sizes = set_block_size (set_block_size clear header blocksize) footer blocksize in
    let asked = set_requested sizes footer size in
    let marked = if paded then set_padded (set_padded asked header) footer else asked in
    set_allocated (set_allocated marked header) footer

-- `add_to_free_list` has answered; none is an abort.
unfoldable pub rest_added : ℕ → Allocator × Bool → Option (Allocator × ℕ)
rest_added payload_start (self, true) = some (self, payload_start)
rest_added payload_start (self, false) = none

-- The header and the footer of what is left.
unfoldable pub left_over : (ℕ → ℕ) → ℕ → ℕ → Rows → Rows
left_over junk free_header reminder rows =
    let free_footer = free_header + reminder - 8 in
    let clear = zeroed (zeroed rows (junk 2) free_header) (junk 3) free_footer in
    set_block_size (set_block_size clear free_header reminder) free_footer reminder

-- The block `sfh` is taken from its list and used, with what is left of it as a free block.
unfoldable pub place : (ℕ → ℕ) → ℕ → ℕ → Bool → ℕ → Allocator → Option (Allocator × ℕ)
place junk size sfbloc_sz paded sfh self =
    let sfh_blocksz = blocksize_of (self.rows sfh) in
    let reminder = sfh_blocksz - sfbloc_sz in
    let self1 = remove_loop 4 0 sfh_blocksz sfh self in
    let used = in_use junk sfh sfbloc_sz size paded self1.rows in
    let free_header = sfh + sfbloc_sz in
    let sizes = left_over junk free_header reminder used in
    if leb 32 reminder
    then rest_added (sfh + 8) (
        add_to_free_list free_header
          (record self1 { rows = write (write sizes (free_header + 8) 0) (free_header + 16) 0 }))
    else some (record self1 { rows = in_use junk sfh sfh_blocksz size paded self1.rows }, sfh + 8)
