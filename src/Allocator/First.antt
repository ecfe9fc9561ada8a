-- ===== src/Allocator/First.antt =====
-- The first call of `sf_malloc` of hw3/src/sfmm.c, on a heap that has no page yet.
use native.Mathlib.Decide.{ℕ_discrete}
use mathlib.Core.Path.{subst, fun_ext}
use cse320_projects.Common.{
  ℕ, zero, suc, ◌+◌, ◌-◌, ◌*◌, ◌%◌, ◌^◌, ◌≤◌, ◌<◌, ◌≡◌, ◌≢◌, refl, ap, ◌∙◌, Bool, true, false, ◌||◌,
  none, some, List, [], ◌∷◌, ltb, leb, ◌==◌, if◌then◌else◌, arith, inl, inr, Bool-cases, get_or,
  set,
}
use cse320_projects.Allocator.{
  Rows, write, block_size, blocksize_of, in_list, Allocator, search_in_list,
}
use cse320_projects.Allocator.FreeList.{has, apart, Links, nil, cons}
use cse320_projects.Allocator.Unlink.{without}
use cse320_projects.Allocator.Lists.{class, IsFree, replace}
use cse320_projects.Allocator.Free.{zeroed, set_block_size}
use cse320_projects.Allocator.Malloc.{adjust, search_lists, search_found, place}
use cse320_projects.Allocator.InUse.{used_row}
use cse320_projects.Allocator.Place.{place-split}
use cse320_projects.Allocator.Release.{outside}
use cse320_projects.Allocator.Grow.{
  Pages, Heap, HeapRun, returned, page_sz, started, mem_init_loop, mem_init, init_done, page_taken,
  take_page, block_placed, searched, grow_loop, no_blocks, allocate, sf_malloc,
}

abbrev no_heads : List ℕ
no_heads = 0 ∷ 0 ∷ 0 ∷ 0 ∷ []

-- The page as one free block.
unfoldable pub page_rows : (ℕ → ℕ) → ℕ → Rows → Rows
page_rows junk page rows =
    let header = set_block_size (zeroed rows (junk 0) page) page page_sz in
    let footer =
      set_block_size (zeroed header (junk 1) (page + page_sz - 8)) (page + page_sz - 8) page_sz in
    write (write footer (page + 8) 0) (page + 16) 0

abbrev page_block : (ℕ → ℕ) → ℕ → Rows → Allocator
page_block junk page rows = record {
  rows = page_rows junk page rows;
  heads = 0 ∷ 0 ∷ 0 ∷ page ∷ [];
}

unfoldable page_lists : ℕ → ℕ → List ℕ
page_lists page j = if j == 3 then page ∷ [] else []

mem_init-page :
    (junk : ℕ → ℕ) (page : ℕ) (rows : Rows)
    → mem_init junk page (page + page_sz) (record { rows = rows; heads = no_heads })
      ≡ (page_block junk page rows, page)
unfolding mem_init mem_init_loop in_list get_or started set page_rows
mem_init-page junk page rows = ground arith

pub page_block-sized :
    (junk : ℕ → ℕ) (page : ℕ) (rows : Rows) → blocksize_of (page_rows junk page rows page) ≡ page_sz
unfolding page_rows set_block_size zeroed write blocksize_of block_size
page_block-sized junk page rows = ground arith

other_head : (page i : ℕ) → i < 4 → i ≢ 3 → get_or (0 ∷ 0 ∷ 0 ∷ page ∷ []) i 0 ≡ 0
unfolding get_or
other_head page zero lt ne = refl
other_head page (suc zero) lt ne = refl
other_head page (suc (suc zero)) lt ne = refl
other_head page (suc (suc (suc zero))) lt ne = absurd (ne refl)
other_head page (suc (suc (suc (suc i)))) lt ne = absurd (omega (arith, lt))

other_list : (page i : ℕ) → i ≢ 3 → page_lists page i ≡ []
unfolding page_lists
other_list page i ne = ground (arith, ne)

own_list : (page : ℕ) → page_lists page 3 ≡ page ∷ []
unfolding page_lists
own_list page = refl

page_chain :
    (junk : ℕ → ℕ) (page : ℕ) (rows : Rows)
    → page ≢ 0
    → Links (page_rows junk page rows) 0 page (page ∷ [])
page_chain junk page rows nz =
    cons {prev = 0} {q = 0} {ps = []} nz (unfold page_rows write in ground arith)
      (unfold page_rows write in ground arith) (unfold apart in refl) nil

page_block-IsFree :
    (junk : ℕ → ℕ) (page : ℕ) (rows : Rows)
    → page ≢ 0
    → IsFree (page_block junk page rows) (page_lists page)
page_block-IsFree junk page rows nz = record {
  four = refl;
  chains = λ i lt. elim (ℕ_discrete i 3) [
    | yes e ↦ rw (e, own_list page) (unfold get_or in page_chain junk page rows nz)
    | no ne ↦ rw (other_head page i lt ne, other_list page i ne) nil
  ];
  sizes = λ i lt p m. elim (ℕ_discrete i 3) [
    | yes e ↦
        let same : p ≡ page = unfold page_lists has in ground (arith, m, e) in
        rw (same, page_block-sized junk page rows, e) (unfold class in refl)
    | no ne ↦ absurd (unfold page_lists has in ground (arith, m, ne))
  ];
  away = λ i j lti ltj ne p m. elim (ℕ_discrete j 3) [
    | yes e ↦ absurd (unfold page_lists has in ground (arith, m, e, ne))
    | no nj ↦ rw (other_list page j nj) (unfold apart in refl)
  ];
}

init_done-some :
    (pages p : ℕ) (self : Allocator) (later : Heap → ℕ → HeapRun)
    → p ≢ 0
    → init_done pages (self, p) later ≡ later (record { allocator = self; pages = pages }) p
unfolding init_done
init_done-some pages zero self later nz = absurd (nz refl)
init_done-some pages (suc p) self later nz = refl

searched-some :
    (p : ℕ) (found : ℕ → HeapRun) (rest : HeapRun) → p ≢ 0 → searched (some p) found rest ≡ found p
unfolding searched
searched-some zero found rest nz = absurd (nz refl)
searched-some (suc p) found rest nz = refl

found_last : (p : ℕ) → p ≢ 0 → search_found (some p) (some 0) ≡ some p
unfolding search_found
found_last zero nz = absurd (nz refl)
found_last (suc p) nz = refl

search_page :
    (fuel page n : ℕ) (junk : ℕ → ℕ) (rows : Rows)
    → page ≢ 0
    → n ≤ page_sz
    → search_lists (suc fuel) 4 0 n (page_block junk page rows) ≡ some page
unfolding search_lists search_in_list search_found get_or
search_page fuel page n junk rows nz le =
    let some_page : (page == 0) ≡ false = ground (arith, nz) in
    let large : leb n page_sz ≡ true = ground (arith, le) in
    rw (some_page, page_block-sized junk page rows, large) (found_last page nz)

class-rest : (n : ℕ) → 32 ≤ n → n ≤ page_sz → (k : ℕ) × (class n ≡ some k)
unfolding class
class-rest n le small = elim (Bool-cases (leb n 128)) [
  | inl e ↦ (0, ground (arith, e, le))
  | inr e ↦ elim (Bool-cases (leb n 512)) [
    | inl f ↦ (1, ground (arith, e, f, le))
    | inr f ↦ elim (Bool-cases (leb n 2048)) [
      | inl g ↦ (2, ground (arith, e, f, g, le))
      | inr g ↦ (3, ground (arith, e, f, g, le, small))
    ]
  ]
]

-- The search finds the page, and the block is placed in it.
grow_loop-page :
    (n fuel size blocksize page : ℕ) (junk junk' : ℕ → ℕ) (lib : Pages) (paded : Bool) (pages : ℕ)
    (rows : Rows)
    → page ≢ 0
    → blocksize ≤ page_sz
    → (let self : Allocator = page_block junk page rows in
        let heap : Heap = record { allocator = self; pages = pages } in
        grow_loop (suc n) (suc fuel) junk' lib size blocksize paded heap
        ≡ block_placed heap (place junk' size blocksize paded page self))
unfolding grow_loop
grow_loop-page n fuel size blocksize page junk junk' lib paded pages rows nz le =
    rw (search_page fuel page blocksize junk rows nz le) (searched-some page _ _ nz)

malloc_page :
    (n fuel size page : ℕ) (junk : ℕ → ℕ) (lib : Pages) (heap : Heap)
    → size ≢ 0
    → size ≤ 4 * page_sz
    → heap.allocator.heads ≡ no_heads
    → lib.sf_sbrk heap.pages ≡ some page
    → page ≢ 0
    → lib.get_heap_end (heap.pages + 1) ≡ page + page_sz
    → sf_malloc n fuel junk lib size heap
      ≡ allocate n fuel
          (λ k. junk (k + 2))
          lib
          size
          (record { allocator = page_block junk page heap.allocator.rows; pages = heap.pages + 1 })
unfolding sf_malloc no_blocks take_page page_taken get_or
malloc_page n fuel size page junk lib heap some_size small none_yet brk nz ending =
    let valid : (size == 0 || ltb (4 * page_sz) size) ≡ false = ground (arith, some_size, small) in
    rw (valid, none_yet, brk, ending, mem_init-page junk page heap.allocator.rows)
      (init_done-some (heap.pages + 1) page _ _ nz)

adjust-bounds :
    (size : ℕ)
    → size ≤ 4048
    → (16 ≤ (adjust size).0) × ((adjust size).0 ≤ 4048) × ((adjust size).0 % 16 ≡ 0)
unfolding adjust
adjust-bounds size h = (ground arith, ground (arith, h), ground arith)

only_page : (page j : ℕ) → replace (page_lists page) 3 (without page (page_lists page 3)) j ≡ []
unfolding replace without page_lists
only_page page j = ground arith

rest_alone :
    (page k p j : ℕ)
    → (let lists' = replace (page_lists page) 3 (without page (page_lists page 3)) in
        replace lists' k (p ∷ lists' k) j ≡ (if j == k then p ∷ [] else []))
rest_alone page k p j = rw (only_page page k) (unfold replace in ground (arith, only_page page j))

-- On a heap without a page, the first `sf_malloc` of 1 to 4048 bytes takes a page and returns its
-- address plus 8, sets no errno, and leaves at its beginning a block in use of the adjusted size,
-- marked as padded and with the request in its footer as it should be, and behind it the rest of
-- the page as the only block of the list of its class, the other three lists being empty;
-- `get_heap_end` is then a page behind what `sf_sbrk` returned.
pub sf_malloc-first :
    (n fuel size page : ℕ) (junk : ℕ → ℕ) (lib : Pages) (heap : Heap)
    → size ≢ 0
    → size ≤ 4048
    → heap.allocator.heads ≡ no_heads
    → lib.sf_sbrk heap.pages ≡ some page
    → page ≢ 0
    → lib.get_heap_end (heap.pages + 1) ≡ page + page_sz
    → (let blocksize = 16 + (adjust size).0 in
        (self : Allocator) × (k : ℕ) × (sf_malloc (suc n) (suc fuel) junk lib size heap
          ≡ returned (record { allocator = self; pages = heap.pages + 1 }) none (page + 8))
        × (class (page_sz - blocksize) ≡ some k)
        × IsFree self (λ j. if j == k then (page + blocksize) ∷ [] else [])
        × (self.rows page ≡ used_row (junk 2 % 2 ^ 32) blocksize (adjust size).1)
        × (self.rows (page + blocksize - 8) ≡ used_row size blocksize (adjust size).1)
        × (blocksize_of (self.rows (page + blocksize)) ≡ page_sz - blocksize))
unfolding allocate block_placed
sf_malloc-first n fuel size page junk lib heap some_size small none_yet brk nz ending =
    let blocksize = 16 + (adjust size).0 in
    let paded = (adjust size).1 in
    let start = page_block junk page heap.allocator.rows in
    let (least, most, even) = adjust-bounds size small in
    let (k, sized) = class-rest (page_sz - blocksize) (omega (arith, most)) (omega arith) in
    let (self, run, free, header, footer, rest) =
      place-split {lists = page_lists page} (λ i. junk (i + 2)) size blocksize page_sz page 3 k
        paded (page_block-IsFree junk page heap.allocator.rows nz) (omega arith)
        (unfold has page_lists in ground arith) (page_block-sized junk page heap.allocator.rows)
        (omega (arith, least)) (omega (arith, even)) (omega (arith, most)) sized
        (λ j lt. ap (outside page page_sz) (only_page page j) ∙ (unfold outside in refl)) in
    (
      self,
      k,
      malloc_page (suc n) (suc fuel) size page junk lib heap some_size (omega (arith, small))
            none_yet brk nz ending
          ∙ grow_loop-page n fuel size blocksize page junk (λ i. junk (i + 2)) lib paded
              (heap.pages + 1) heap.allocator.rows nz (omega (arith, most))
          ∙ ap (block_placed (record { allocator = start; pages = heap.pages + 1 })) run,
      sized,
      subst (λ lists. IsFree self lists) (fun_ext (rest_alone page k (page + blocksize))) free,
      header,
      footer ∙ ap (λ z. used_row z blocksize paded) (omega (arith, small)),
      rest,
    )
