-- ===== src/Allocator/Lost.antt =====
-- A round of the `while` loop of `sf_malloc` of hw3/src/sfmm.c behind a block in use.
use mathlib.Core.Path.{subst, fun_ext}
use cse320_projects.Common.{
  ℕ, ◌+◌, ◌-◌, ◌≤◌, ◌<◌, ◌≡◌, ◌≢◌, refl, ap, ◌∙◌, true, false, ◌||◌, List, [], ◌∷◌, ltb, leb, ◌==◌,
  arith, inl, inr, Bool-cases, get_or, set, length, get_or-set,
}
use cse320_projects.Allocator.{
  Rows, write, allocated, block_size, blocksize_of, in_list, Allocator, link, push,
  add_to_free_list, remove_from_free_list,
}
use cse320_projects.Allocator.FreeList.{has, misses}
use cse320_projects.Allocator.Unlink.{without}
use cse320_projects.Allocator.Lists.{class, IsFree, replace}
use cse320_projects.Allocator.Changes.{add_to_free_list-IsFree, remove_from_free_list-IsFree}
use cse320_projects.Allocator.Free.{freed, zeroed, set_block_size}
use cse320_projects.Allocator.Malloc.{remove_loop}
use cse320_projects.Allocator.Place.{remove_loop-class}
use cse320_projects.Allocator.Release.{outside, outside-apart, outside-IsFree, ends-misses}
use cse320_projects.Allocator.Grow.{page_sz, started, mem_init_loop, mem_init, coalesce_back}
use cse320_projects.Allocator.First.{page_rows, page_block-sized}

mem_init-started :
    (junk : ℕ → ℕ) (page : ℕ) (self : Allocator)
    → mem_init junk page (page + page_sz) self
      ≡ started 3 page (record self { rows = page_rows junk page self.rows })
unfolding mem_init mem_init_loop in_list get_or page_rows
mem_init-started junk page self = refl

link-blank_page :
    (junk : ℕ → ℕ) (page : ℕ) (rows : Rows)
    → link (page_rows junk page rows) page 0 ≡ page_rows junk page rows
unfolding link page_rows write
link-blank_page junk page rows = fun_ext (λ a. ground arith)

page_rows-away :
    (junk : ℕ → ℕ) (page a : ℕ) (rows : Rows)
    → (ltb a page || leb (page + page_sz) a) ≡ true
    → page_rows junk page rows a ≡ rows a
unfolding page_rows set_block_size zeroed write
page_rows-away junk page a rows h = ground (arith, h)

page_rows-unused :
    (junk : ℕ → ℕ) (page : ℕ) (rows : Rows) → allocated (page_rows junk page rows page) ≡ 0
unfolding page_rows set_block_size zeroed write allocated block_size
page_rows-unused junk page rows = ground arith

misses-before :
    (page size : ℕ) (qs : List ℕ)
    → 8 ≤ page
    → 32 ≤ size
    → outside page size qs ≡ true
    → misses (page - 8) qs ≡ true
unfolding misses outside
misses-before page size [] le room h = refl
misses-before page size (q ∷ qs) le room h =
    ground (arith, le, room, h, misses-before page size qs le room)

replaced_back :
    (page j : ℕ) (lists : ℕ → List ℕ)
    → (let with_page = replace lists 3 (page ∷ lists 3) in
        replace with_page 3 (without page (with_page 3)) j ≡ lists j)
unfolding replace without
replaced_back page j lists = ground arith

started-empty :
    (page : ℕ) (blank_page : Allocator)
    → link blank_page.rows page 0 ≡ blank_page.rows
    → get_or (set blank_page.heads 3 page) 3 0 ≡ page
    → get_or blank_page.heads 3 0 ≡ 0
    → started 3 page blank_page ≡ (push page 3 blank_page, page)
unfolding started push
started-empty page blank_page same here no_head = rw (no_head, same, here) refl

started-added :
    (page : ℕ) (blank_page after : Allocator)
    → (get_or blank_page.heads 3 0 == 0) ≡ false
    → add_to_free_list page blank_page ≡ (after, true)
    → get_or after.heads 3 0 ≡ page
    → started 3 page blank_page ≡ (after, page)
unfolding started
started-added page blank_page after some_head pushed here = rw (some_head, pushed, here) refl

started-push :
    (page : ℕ) (blank_page : Allocator)
    → link blank_page.rows page 0 ≡ blank_page.rows
    → length blank_page.heads ≡ 4
    → add_to_free_list page blank_page ≡ (push page 3 blank_page, true)
    → started 3 page blank_page ≡ (push page 3 blank_page, page)
started-push page blank_page same four pushed =
    let here : get_or (set blank_page.heads 3 page) 3 0 ≡ page =
      ground (arith, get_or-set blank_page.heads 3 3 page 0 (omega (arith, four))) in
    elim (Bool-cases (get_or blank_page.heads 3 0 == 0)) [
      | inl e ↦ started-empty page blank_page same here (ground (arith, e))
      | inr e ↦
          started-added page blank_page (push page 3 blank_page) e pushed (unfold push in here)
    ]

-- A page behind a block in use.
module _ (fuel : ℕ) (junk junk' : ℕ → ℕ) (page : ℕ) {self : Allocator} {lists : ℕ → List ℕ}
    (free : IsFree self lists) (room : 8 ≤ page)
    (clear : (j : ℕ) → j < 4 → outside page page_sz (lists j) ≡ true) where
  abbrev blank_page : Allocator
  blank_page = record self { rows = page_rows junk page self.rows }

  abbrev listed : Allocator
  listed = push page 3 blank_page

  abbrev with_page : ℕ → List ℕ
  with_page = replace lists 3 (page ∷ lists 3)

  blank_page-IsFree : IsFree blank_page lists
  blank_page-IsFree =
      outside-IsFree page page_sz (page_rows junk page self.rows) free clear
        (λ a h. page_rows-away junk page a self.rows h)

  some_page : page ≢ 0
  some_page e = omega (arith, e, room)

  page_added :
      (add_to_free_list page blank_page ≡ (listed, true))
      × IsFree listed with_page
      × ((a : ℕ) → misses a (page ∷ lists 3) ≡ true → listed.rows a ≡ blank_page.rows a)
  page_added =
      add_to_free_list-IsFree page 3 blank_page-IsFree
        (ap class (page_block-sized junk page self.rows) ∙ (unfold class in refl)) some_page
        (λ j lt. outside-apart page page_sz (lists j) (omega arith) (clear j lt))

  mem_init-listed : mem_init junk page (page + page_sz) self ≡ (listed, page)
  mem_init-listed =
      let (pushed, _, _) = page_added in
      mem_init-started junk page self
      ∙ started-push page blank_page (link-blank_page junk page self.rows) free.four pushed

  abbrev lost : Allocator
  lost = remove_from_free_list page 3 listed

  page_removed :
      IsFree lost lists × ((a : ℕ) → misses a (page ∷ lists 3) ≡ true → lost.rows a ≡ listed.rows a)
  page_removed =
      let (_, free', _) = page_added in
      let own : with_page 3 ≡ page ∷ lists 3 = unfold replace in refl in
      let member : has page (with_page 3) ≡ true =
        ap (has page) own ∙ (unfold has in ground arith) in
      let (back, frame) = remove_from_free_list-IsFree page 3 free' (omega arith) member in
      (
        subst (λ z. IsFree lost z) (fun_ext (λ j. replaced_back page j lists)) back,
        (λ a h. frame a (ap (misses a) own ∙ h)),
      )

  -- Only the page itself changes, apart from links of blocks in the lists.
  page_kept :
      (a : ℕ) → misses a (page ∷ lists 3) ≡ true → lost.rows a ≡ page_rows junk page self.rows a
  page_kept a h =
      let (_, _, frame) = page_added in let (_, frame') = page_removed in frame' a h ∙ frame a h

  page_header : lost.rows page ≡ page_rows junk page self.rows page
  page_header =
      page_kept page (
        ends-misses page page_sz page (lists 3) (omega arith) (ground arith)
          (clear 3 (omega arith)))

  before_kept : lost.rows (page - 8) ≡ self.rows (page - 8)
  before_kept =
      page_kept (page - 8) (
        unfold misses in
        ground (
          arith,
          room,
          misses-before page page_sz (lists 3) room (omega arith) (clear 3 (omega arith)),
        ))
      ∙ page_rows-away junk page (page - 8) self.rows (ground (arith, room))

  coalesce_listed :
      allocated (self.rows (page - 8)) ≡ 1 → coalesce_back fuel junk' page listed ≡ freed lost
  unfolding coalesce_back
  coalesce_listed used =
      let (_, _, frame) = page_added in
      let size : blocksize_of (listed.rows page) ≡ page_sz =
        ap blocksize_of (
          frame page (
            ends-misses page page_sz page (lists 3) (omega arith) (ground arith)
              (clear 3 (omega arith))))
        ∙ page_block-sized junk page self.rows in
      let removed : remove_loop 4 0 page_sz page listed ≡ lost =
        remove_loop-class page_sz page 3 listed (unfold class in refl) in
      let busy : allocated (lost.rows (page - 8)) ≡ 1 = ap allocated before_kept ∙ used in
      rw (size, removed, busy) refl

  -- When `sf_malloc` has grown the heap by a page behind a block in use, away from the blocks in
  -- the lists, `mem_init` puts the page in a list, and the coalescing that follows takes it out
  -- again and does not put it back: the lists hold the blocks they held before, and the page is a
  -- free block in none of them.
  pub coalesce_back-lost :
      allocated (self.rows (page - 8)) ≡ 1
      → (listed lost : Allocator) × (mem_init junk page (page + page_sz) self ≡ (listed, page))
        × (coalesce_back fuel junk' page listed ≡ freed lost)
        × IsFree lost lists
        × (blocksize_of (lost.rows page) ≡ page_sz)
        × (allocated (lost.rows page) ≡ 0)
  coalesce_back-lost used =
      let (back, _) = page_removed in
      (
        listed,
        lost,
        mem_init-listed,
        coalesce_listed used,
        back,
        ap blocksize_of page_header ∙ page_block-sized junk page self.rows,
        ap allocated page_header ∙ page_rows-unused junk page self.rows,
      )
