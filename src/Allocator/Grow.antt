-- ===== src/Allocator/Grow.antt =====
-- `sf_malloc` of hw3/src/sfmm.c as a whole, with `mem_init` and the growing of the heap.
--
-- `sf_sbrk`, `get_heap_start` and `get_heap_end` belong to the library the allocator is linked with:
-- they are a record of functions of the number of pages taken so far, and none is the -1 of
-- `sf_sbrk`, which sets `sf_errno` to ENOMEM. The `while` loop is given a number of rounds, each of
-- which takes a page.
use cse320_projects.Common.{
  ℕ, zero, suc, ◌+◌, ◌-◌, ◌*◌, Bool, ◌&&◌, ◌||◌, Option, none, some, ltb, ◌==◌, if◌then◌else◌,
  get_or, set,
}
use cse320_projects.Allocator.{
  Rows, write, allocated, blocksize_of, in_list, Allocator, get_header_pointer_from_fp,
  get_footer_pointer_from_hp, add_to_free_list, remove_from_free_list, search_head_in_list,
}
use cse320_projects.Allocator.Free.{
  FreeRun, aborted, searching, freed, zeroed, set_block_size, insert,
}
use cse320_projects.Allocator.Malloc.{adjust, search_lists, remove_loop, place}

pub record Pages : Type 0 where
  pub sf_sbrk : ℕ → Option ℕ
  pub get_heap_start : ℕ
  pub get_heap_end : ℕ → ℕ

-- The allocator, and the pages taken.
pub record Heap : Type 0 where
  pub allocator : Allocator
  pub pages : ℕ

pub data SfErrno : Type 0 where
  einval enomem : SfErrno

-- How a call ends: stopped, as in `FreeRun`; out of rounds; or with the heap, what it stored in
-- `sf_errno` if anything, and the pointer returned.
pub data HeapRun : Type 0 where
  stopped : FreeRun → HeapRun
  growing : HeapRun
  returned : Heap → Option SfErrno → ℕ → HeapRun

-- `PAGE_SZ`
abbrev pub page_sz : ℕ
page_sz = 4096

-- The new block becomes the head of list `i`.
unfoldable pub started : ℕ → ℕ → Allocator → Allocator × ℕ
started i headers self =
    let added =
      if get_or self.heads i 0 == 0
      then record self { heads = set self.heads i headers }
      else (add_to_free_list headers self).0 in
    (added, get_or added.heads i 0)

-- The loop of `mem_init` from list `i` on.
unfoldable pub mem_init_loop : ℕ → ℕ → ℕ → Allocator → Allocator × ℕ
mem_init_loop zero i headers self = (self, 0)
mem_init_loop (suc n) i headers self =
    let rest = mem_init_loop n (i + 1) headers self in
    if in_list page_sz i
    then started i headers
        (record self { rows = write (write self.rows (headers + 8) 0) (headers + 16) 0 })
    else rest

unfoldable pub mem_init : (ℕ → ℕ) → ℕ → ℕ → Allocator → Allocator × ℕ
mem_init junk page_start heap_end self =
    let footer_p = heap_end - 8 in
    let header = set_block_size (zeroed self.rows (junk 0) page_start) page_start page_sz in
    let footer = set_block_size (zeroed header (junk 1) footer_p) footer_p page_sz in
    mem_init_loop 4 0 page_start (record self { rows = footer })

-- The block before the new one is taken from list `i`; one that is not there is an `abort`.
unfoldable pub take_previous : ℕ → Allocator → Option ℕ → FreeRun
take_previous i self none = searching
take_previous i self (some zero) = aborted
take_previous i self (some (suc n)) = freed (remove_from_free_list (suc n) i self)

unfoldable pub previous_loop : ℕ → ℕ → ℕ → ℕ → Allocator → FreeRun
previous_loop fuel zero i pre_hp self = freed self
previous_loop fuel (suc n) i pre_hp self =
    let rest = previous_loop fuel n (i + 1) pre_hp self in
    if in_list (blocksize_of (self.rows pre_hp)) i
    then take_previous i self (search_head_in_list fuel self.rows pre_hp (get_or self.heads i 0))
    else rest

-- The words of the block before the new one and the new one, made one free block.
unfoldable pub joined_rows : (ℕ → ℕ) → ℕ → ℕ → ℕ → Rows → Rows
joined_rows junk pre_hp h_p fp rows =
    let new_blck_sz = blocksize_of (rows h_p) + blocksize_of (rows pre_hp) in
    let clear = zeroed (zeroed rows (junk 2) pre_hp) (junk 3) fp in
    set_block_size (set_block_size clear pre_hp new_blck_sz) fp new_blck_sz

unfoldable pub join_previous : (ℕ → ℕ) → ℕ → ℕ → ℕ → FreeRun → FreeRun
join_previous junk pre_hp h_p fp (freed self) =
    freed (insert pre_hp (record self { rows = joined_rows junk pre_hp h_p fp self.rows }))
join_previous junk pre_hp h_p fp other = other

-- The new block `h_p`, which `mem_init` has put in a list, is taken out and joined with the block
-- before it if that is free.
unfoldable pub coalesce_back : ℕ → (ℕ → ℕ) → ℕ → Allocator → FreeRun
coalesce_back fuel junk h_p self0 =
    let self = remove_loop 4 0 (blocksize_of (self0.rows h_p)) h_p self0 in
    let fp = get_footer_pointer_from_hp self.rows h_p in
    let pre_fp = h_p - 8 in
    let pre_hp = get_header_pointer_from_fp self.rows pre_fp in
    if allocated (self.rows pre_fp) == 0
    then join_previous junk pre_hp h_p fp (previous_loop fuel 4 0 pre_hp self)
    else freed self

-- `sf_sbrk` and `mem_init`, with what comes after them for the heap and the new block.
unfoldable pub init_done : ℕ → Allocator × ℕ → (Heap → ℕ → HeapRun) → HeapRun
init_done pages (self, zero) later =
    returned (record { allocator = self; pages = pages }) (some enomem) 0
init_done pages (self, suc p) later = later (record { allocator = self; pages = pages }) (suc p)

unfoldable pub page_taken : (ℕ → ℕ) → Pages → Option ℕ → Heap → (Heap → ℕ → HeapRun) → HeapRun
page_taken junk lib none heap later = returned heap (some enomem) 0
page_taken junk lib (some page_start) heap later =
    let pages = heap.pages + 1 in
    init_done pages (mem_init junk page_start (lib.get_heap_end pages) heap.allocator) later

unfoldable pub take_page : (ℕ → ℕ) → Pages → Heap → (Heap → ℕ → HeapRun) → HeapRun
take_page junk lib heap later = page_taken junk lib (lib.sf_sbrk heap.pages) heap later

unfoldable pub block_placed : Heap → Option (Allocator × ℕ) → HeapRun
block_placed heap none = stopped aborted
block_placed heap (some (self, payload_start)) =
    returned (record heap { allocator = self }) none payload_start

unfoldable pub searched : Option ℕ → (ℕ → HeapRun) → HeapRun → HeapRun
searched none found rest = stopped searching
searched (some zero) found rest = rest
searched (some (suc sfh)) found rest = found (suc sfh)

unfoldable pub coalesced : FreeRun → ℕ → (Heap → HeapRun) → HeapRun
coalesced (freed self) pages later = later (record { allocator = self; pages = pages })
coalesced other pages later = stopped other

-- The search, and the growing of the heap while it finds nothing.
unfoldable pub grow_loop : ℕ → ℕ → (ℕ → ℕ) → Pages → ℕ → ℕ → Bool → Heap → HeapRun
grow_loop zero fuel junk lib size sfbloc_sz paded heap = growing
grow_loop (suc n) fuel junk lib size sfbloc_sz paded heap =
    searched (search_lists fuel 4 0 sfbloc_sz heap.allocator)
      (λ sfh. block_placed heap (place junk size sfbloc_sz paded sfh heap.allocator))
      (take_page junk lib heap (λ grown p.
        coalesced (coalesce_back fuel junk p grown.allocator) grown.pages
          (λ next. grow_loop n fuel (λ k. junk (k + 4)) lib size sfbloc_sz paded next)))

unfoldable pub no_blocks : Allocator → Bool
no_blocks self =
    get_or self.heads 0 0 == 0
    && get_or self.heads 1 0 == 0
    && get_or self.heads 2 0 == 0
    && get_or self.heads 3 0 == 0

unfoldable pub allocate : ℕ → ℕ → (ℕ → ℕ) → Pages → ℕ → Heap → HeapRun
allocate n fuel junk lib size heap =
    let (adjusted_sz, paded) = adjust size in
    grow_loop n fuel junk lib size (16 + adjusted_sz) paded heap

unfoldable pub sf_malloc : ℕ → ℕ → (ℕ → ℕ) → Pages → ℕ → Heap → HeapRun
sf_malloc n fuel junk lib size heap =
    if size == 0 || ltb (4 * page_sz) size
    then returned heap (some einval) 0
    else if no_blocks heap.allocator
    then take_page junk lib heap (λ first p. allocate n fuel (λ k. junk (k + 2)) lib size first)
    else allocate n fuel junk lib size heap
