-- ===== src/Allocator.antt =====
-- The allocator of hw3/src/sfmm.c: memory, the words of a block, and the segregated free lists.
--
-- Memory is a function from addresses to rows of 64 bits. A header and a footer are a row each, with
-- the bit fields of hw3/include/sfmm.h; a free block has two rows behind its header, `next` and
-- `prev`. NULL is 0. A block size fits 28 bits. `memcpy(p, &zeros, 8)` copies an `int` and the four
-- bytes behind it, `junk`.
pub mod FreeList
pub mod Unlink
pub mod Lists
pub mod Changes
pub mod Search
pub mod Free
pub mod Malloc
pub mod Grow
pub mod Realloc
pub mod Resize
pub mod First
pub mod Lost
pub mod InUse
pub mod Release
pub mod Coalesce
pub mod Place
pub mod Abort
mod Tests
use cse320_projects.Common.{
  ℕ, zero, suc, ◌+◌, ◌-◌, ◌*◌, ◌/◌, ◌%◌, ◌^◌, Bool, true, false, ◌&&◌, Option, none, some, List, [],
  ◌∷◌, leb, ◌==◌, if◌then◌else◌, get_or, set,
}

abbrev pub Rows : Type 0
Rows = ℕ → ℕ

unfoldable pub write : Rows → ℕ → ℕ → Rows
write rows a row q = if q == a then row else rows q

-- The bit fields of a row.
unfoldable pub allocated : ℕ → ℕ
allocated row = row % 2

unfoldable pub padded : ℕ → ℕ
padded row = row / 2 % 2

unfoldable pub block_size : ℕ → ℕ
block_size row = row / 16 % 2 ^ 28

unfoldable pub requested_size : ℕ → ℕ
requested_size row = row / 2 ^ 32 % 2 ^ 32

-- `block_size << 4`
unfoldable pub blocksize_of : ℕ → ℕ
unfolding block_size
blocksize_of row = block_size row * 16

-- The ranges of the four free lists; -1 as a `uint16_t` is 65535.
abbrev pub list_min : ℕ → ℕ
list_min i = get_or (32 ∷ 129 ∷ 513 ∷ 2049 ∷ []) i 0

abbrev pub list_max : ℕ → ℕ
list_max i = get_or (128 ∷ 512 ∷ 2048 ∷ 65535 ∷ []) i 0

unfoldable pub in_list : ℕ → ℕ → Bool
in_list blocksize i = leb (list_min i) blocksize && leb blocksize (list_max i)

-- Memory, and the heads of the four lists.
pub record Allocator : Type 0 where
  pub rows : Rows
  pub heads : List ℕ

abbrev pub next_of : Rows → ℕ → ℕ
next_of rows p = rows (p + 8)

abbrev pub prev_of : Rows → ℕ → ℕ
prev_of rows p = rows (p + 16)

unfoldable pub get_header_pointer_from_fp : Rows → ℕ → ℕ
get_header_pointer_from_fp rows fp = fp + 8 - blocksize_of (rows fp)

unfoldable pub get_footer_pointer_from_hp : Rows → ℕ → ℕ
get_footer_pointer_from_hp rows hp = hp + blocksize_of (rows hp) - 8

-- The links when `to_be_added` comes in front of `current_head`.
unfoldable pub link : Rows → ℕ → ℕ → Rows
unfolding write
link rows to_be_added current_head =
    let above = if current_head == 0 then rows else write rows (current_head + 16) to_be_added in
    write (write above (to_be_added + 8) current_head) (to_be_added + 16) 0

-- `to_be_added` becomes the head of the list `i`.
unfoldable pub push : ℕ → ℕ → Allocator → Allocator
unfolding link
push to_be_added i self = record {
  rows = link self.rows to_be_added (get_or self.heads i 0);
  heads = set self.heads i to_be_added;
}

-- The loop of `add_to_free_list` from list `i` on; false is -1.
unfoldable pub add_loop : ℕ → ℕ → ℕ → Allocator → Allocator × Bool
add_loop zero i to_be_added self = (self, false)
add_loop (suc n) i to_be_added self =
    let rest = add_loop n (i + 1) to_be_added self in
    if in_list (blocksize_of (self.rows to_be_added)) i
    then (push to_be_added i self, true)
    else rest

unfoldable pub add_to_free_list : ℕ → Allocator → Allocator × Bool
unfolding add_loop
add_to_free_list to_be_added self = add_loop 4 0 to_be_added self

-- The neighbours of `to_be_removed` are linked with each other, and its own links zeroed.
unfoldable pub unlink : Rows → ℕ → Rows
unfolding write
unlink rows to_be_removed =
    let pre_temp_p = prev_of rows to_be_removed in
    let next_temp_p = next_of rows to_be_removed in
    let around =
      if pre_temp_p == 0 && next_temp_p == 0
      then rows
      else if pre_temp_p == 0
      then write rows (next_temp_p + 16) 0
      else if next_temp_p == 0
      then write rows (pre_temp_p + 8) 0
      else write (write rows (pre_temp_p + 8) next_temp_p) (next_temp_p + 16) pre_temp_p in
    write (write around (to_be_removed + 16) 0) (to_be_removed + 8) 0

-- From the list `i`; the source returns 1.
unfoldable pub remove_from_free_list : ℕ → ℕ → Allocator → Allocator
unfolding unlink
remove_from_free_list to_be_removed i self = record {
  rows = unlink self.rows to_be_removed;
  heads =
      if prev_of self.rows to_be_removed == 0 && next_of self.rows to_be_removed == 0
      then set self.heads i 0
      else if prev_of self.rows to_be_removed == 0
      then set self.heads i (next_of self.rows to_be_removed)
      else self.heads;
}

-- The address found or NULL; none is out of fuel, as on a list that does not end.
unfoldable pub search_in_list : ℕ → Rows → ℕ → ℕ → Option ℕ
search_in_list zero rows blocksize current = none
search_in_list (suc n) rows blocksize current =
    let rest = search_in_list n rows blocksize (next_of rows current) in
    if current == 0
    then some 0
    else if leb blocksize (blocksize_of (rows current))
    then some current
    else rest

unfoldable pub search_head_in_list : ℕ → Rows → ℕ → ℕ → Option ℕ
search_head_in_list zero rows to_coalesce current = none
search_head_in_list (suc n) rows to_coalesce current =
    let rest = search_head_in_list n rows to_coalesce (next_of rows current) in
    if current == 0 then some 0 else if current == to_coalesce then some current else rest
