-- ===== src/Allocator/Resize.antt =====
-- What `sf_realloc` of hw3/src/sfmm.c does to a block that it leaves in place.
use mathlib.Core.Path.{subst}
use cse320_projects.Allocator.Release.{blocksize_of-IsRound}
use cse320_projects.Common.{
  ℕ, ◌+◌, ◌-◌, ◌*◌, ◌%◌, ◌^◌, ◌≤◌, ◌<◌, ◌≡◌, ◌≢◌, refl, sym, ap, ◌∙◌, Bool, true, false, not, none,
  ltb, ◌==◌, if◌then◌else◌, arith, inl, inr, Bool-cases,
}
use cse320_projects.Allocator.{
  Rows, write, allocated, padded, requested_size, block_size, blocksize_of,
}
use cse320_projects.Allocator.Free.{bad_block}
use cse320_projects.Allocator.Malloc.{adjust, set_requested}
use cse320_projects.Allocator.Grow.{Pages, Heap, returned}
use cse320_projects.Allocator.Realloc.{mark_padded, same_block, with_rows, resize, sf_realloc}

-- The fields of a row after an assignment to one of them.
unfoldable marked_row : ℕ → Bool → ℕ
marked_row row paded = row - padded row * 2 + (if paded then 2 else 0)

marked_row-fields :
    (row : ℕ) (paded : Bool)
    → (blocksize_of (marked_row row paded) ≡ blocksize_of row)
      × (allocated (marked_row row paded) ≡ allocated row)
      × (padded (marked_row row paded) ≡ (if paded then 1 else 0))
      × (requested_size (marked_row row paded) ≡ requested_size row)
unfolding marked_row blocksize_of block_size allocated padded requested_size
marked_row-fields row true = (omega arith, omega arith, omega arith, omega arith)
marked_row-fields row false = (omega arith, omega arith, omega arith, omega arith)

unfoldable asked_row : ℕ → ℕ → ℕ
asked_row row size = row - requested_size row * 2 ^ 32 + size % 2 ^ 32 * 2 ^ 32

asked_row-fields :
    (row size : ℕ)
    → size < 2 ^ 32
    → (blocksize_of (asked_row row size) ≡ blocksize_of row)
      × (allocated (asked_row row size) ≡ allocated row)
      × (requested_size (asked_row row size) ≡ size)
unfolding asked_row blocksize_of block_size allocated padded requested_size
asked_row-fields row size lt = (omega arith, omega arith, omega arith)

module _ (header footer size : ℕ) (paded : Bool) (rows : Rows) (ne : header ≢ footer) where
  same_block-header :
      same_block header footer paded size rows header ≡ marked_row (rows header) paded
  unfolding same_block mark_padded set_requested write marked_row
  same_block-header = ground (arith, ne)

  same_block-footer :
      same_block header footer paded size rows footer
      ≡ marked_row (asked_row (rows footer) size) paded
  unfolding same_block mark_padded set_requested write marked_row asked_row
  same_block-footer = ground (arith, ne)

  same_block-away :
      (a : ℕ) → a ≢ header → a ≢ footer → same_block header footer paded size rows a ≡ rows a
  unfolding same_block mark_padded set_requested write
  same_block-away a out out' = ground (arith, out, out')

-- The new words pass too, when the mark of padding fits the request.
good_again :
    (heap_start heap_end p size : ℕ) (paded : Bool) (rows rows' : Rows)
    → bad_block heap_start heap_end rows (p + 8) ≡ false
    → 32 ≤ blocksize_of (rows p)
    → size < 2 ^ 32
    → size + 16 ≤ blocksize_of (rows p)
    → (size + 16 == blocksize_of (rows p)) ≡ not paded
    → rows' p ≡ marked_row (rows p) paded
    → rows' (p + blocksize_of (rows p) - 8)
      ≡ marked_row (asked_row (rows (p + blocksize_of (rows p) - 8)) size) paded
    → bad_block heap_start heap_end rows' (p + 8) ≡ false
unfolding bad_block
good_again heap_start heap_end p size true rows rows' good le lt fits fit header footer =
    let back : p + 8 - 8 ≡ p = omega arith in
    let (sized, used, mark, _) = marked_row-fields (rows p) true in
    let (sized', used', mark', asked') =
      marked_row-fields (asked_row (rows (p + blocksize_of (rows p) - 8)) size) true in
    let (sized2, used2, asked2) = asked_row-fields (rows (p + blocksize_of (rows p) - 8)) size lt in
    rw
      (back, header, sized, footer, used, mark, sized', used', mark', asked', sized2, used2, asked2)
      (ground (arith, good, fits, fit, le))
good_again heap_start heap_end p size false rows rows' good le lt fits fit header footer =
    let back : p + 8 - 8 ≡ p = omega arith in
    let (sized, used, mark, _) = marked_row-fields (rows p) false in
    let (sized', used', mark', asked') =
      marked_row-fields (asked_row (rows (p + blocksize_of (rows p) - 8)) size) false in
    let (sized2, used2, asked2) = asked_row-fields (rows (p + blocksize_of (rows p) - 8)) size lt in
    rw
      (back, header, sized, footer, used, mark, sized', used', mark', asked', sized2, used2, asked2)
      (ground (arith, good, fits, fit, le))

-- The adjusted size, and when it is no adjustment.
adjust-fits :
    (size : ℕ)
    → (16 ≤ (adjust size).0)
      × (size ≤ (adjust size).0)
      × ((size == (adjust size).0) ≡ not (adjust size).1)
unfolding adjust
adjust-fits size = (ground arith, ground arith, ground arith)

-- The mark of padding that the block gets.
unfoldable kept_mark : ℕ → ℕ × Bool → Bool
kept_mark s (adjusted_sz, is_adjusted) = if adjusted_sz + 16 == s then is_adjusted else true

resize-kept :
    (n fuel : ℕ) (junk : ℕ → ℕ) (lib : Pages) (p s size a : ℕ) (b : Bool) (heap : Heap)
    → s ≡ blocksize_of (heap.allocator.rows p)
    → a + 16 ≤ s
    → s < a + 48
    → resize n fuel junk lib (p + 8) size (a, b) heap
      ≡ returned
          (with_rows (same_block p (p + s - 8) (kept_mark s (a, b)) size heap.allocator.rows) heap)
          none
          (p + 8)
unfolding resize kept_mark
resize-kept n fuel junk lib p s size a b heap e_s room near =
    let back : p + 8 - 8 ≡ p = omega arith in
    elim (Bool-cases (a + 16 == s)) [
      | inl e ↦
          let same : (a == s - 16) ≡ true = ground (arith, e) in rw (back, sym e_s, same, e) refl
      | inr e ↦
          let other : (a == s - 16) ≡ false = ground (arith, e, room) in
          let not_larger : ltb (s - 16) a ≡ false = ground (arith, room) in
          let little : ltb (s - 16 - a) 32 ≡ true = ground (arith, near) in
          rw (back, sym e_s, other, not_larger, little, e) refl
    ]

good_kept :
    (heap_start heap_end p s size : ℕ) (paded : Bool) (rows rows' : Rows)
    → s ≡ blocksize_of (rows p)
    → bad_block heap_start heap_end rows (p + 8) ≡ false
    → 32 ≤ s
    → size < 2 ^ 32
    → size + 16 ≤ s
    → (size + 16 == s) ≡ not paded
    → rows' p ≡ marked_row (rows p) paded
    → rows' (p + s - 8) ≡ marked_row (asked_row (rows (p + s - 8)) size) paded
    → bad_block heap_start heap_end rows' (p + 8) ≡ false
good_kept heap_start heap_end p s size paded rows rows' e good le lt fits fit header footer =
    good_again heap_start heap_end p size paded rows rows' good (subst (λ z. 32 ≤ z) e le) lt
      (subst (λ z. size + 16 ≤ z) e fits) (subst (λ z. (size + 16 == z) ≡ not paded) e fit) header
      (subst (λ z. rows' (p + z - 8) ≡ marked_row (asked_row (rows (p + z - 8)) size) paded) e
        footer)

-- `sf_realloc` of a block that `sf_free` accepts, to a size of at least 1 whose adjusted size fits
-- its payload with less than 32 bytes to spare, returns the same pointer, sets no errno, changes
-- nothing but the header and the footer, and leaves a block of the same size with the new request,
-- which `sf_free` accepts again.
pub sf_realloc-kept :
    (n fuel : ℕ) (junk : ℕ → ℕ) (lib : Pages) (p s size : ℕ) (heap : Heap)
    → size ≢ 0
    → s ≡ blocksize_of (heap.allocator.rows p)
    → bad_block lib.get_heap_start (lib.get_heap_end heap.pages) heap.allocator.rows (p + 8) ≡ false
    → (adjust size).0 + 16 ≤ s
    → s < (adjust size).0 + 48
    → (rows : Rows) × (sf_realloc n fuel junk lib (p + 8) size heap
        ≡ returned (with_rows rows heap) none (p + 8))
      × (bad_block lib.get_heap_start (lib.get_heap_end heap.pages) rows (p + 8) ≡ false)
      × (blocksize_of (rows p) ≡ s)
      × (requested_size (rows (p + s - 8)) ≡ size)
      × ((a : ℕ) → a ≢ p → a ≢ p + s - 8 → rows a ≡ heap.allocator.rows a)
unfolding sf_realloc kept_mark
sf_realloc-kept n fuel junk lib p s size heap some_size e_s good room near =
    let old = heap.allocator.rows in
    let (least, fits, adjusted) = adjust-fits size in
    let mark = kept_mark s (adjust size) in
    let ne : p ≢ p + s - 8 = λ e. omega (arith, e, least, room) in
    let rows = same_block p (p + s - 8) mark size old in
    let (_, below) = blocksize_of-IsRound (old p) in
    let small : size < 2 ^ 32 = omega (arith, below, e_s, fits, room) in
    let fit : (size + 16 == s) ≡ not mark = ground (arith, fits, adjusted, room) in
    let header = same_block-header p (p + s - 8) size mark old ne in
    let footer = same_block-footer p (p + s - 8) size mark old ne in
    let (sized, _, _, _) = marked_row-fields (old p) mark in
    let (_, _, _, asked) = marked_row-fields (asked_row (old (p + s - 8)) size) mark in
    let (_, _, asked') = asked_row-fields (old (p + s - 8)) size small in
    let some_ptr : (p + 8 == 0) ≡ false = ground arith in
    let some_bytes : (size == 0) ≡ false = ground (arith, some_size) in
    (
      rows,
      rw (some_ptr, good, some_bytes)
          (resize-kept n fuel junk lib p s size (adjust size).0 (adjust size).1 heap e_s room near),
      good_kept lib.get_heap_start (lib.get_heap_end heap.pages) p s size mark old rows e_s good
          (omega (arith, least, room)) small (omega (arith, fits, room)) fit header footer,
      ap blocksize_of header ∙ sized ∙ sym e_s,
      ap requested_size footer ∙ asked ∙ asked',
      same_block-away p (p + s - 8) size mark old ne,
    )
