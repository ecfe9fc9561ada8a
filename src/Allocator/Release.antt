-- ===== src/Allocator/Release.antt =====
-- `sf_free` of hw3/src/sfmm.c on a valid block.
use cse320_projects.Common.{
  ℕ, ◌+◌, ◌-◌, ◌*◌, ◌/◌, ◌%◌, ◌^◌, ◌<◌, ◌≤◌, ◌≡◌, refl, ap, ◌∙◌, ◌≢◌, Bool, true, false, ◌&&◌, ◌||◌,
  some, List, [], ◌∷◌, arith, ltb, leb, ◌==◌, if◌then◌else◌,
}
use cse320_projects.Allocator.{
  Rows, write, add_to_free_list, Allocator, allocated, push, blocksize_of, block_size,
}
use cse320_projects.Allocator.FreeList.{has, apart, misses}
use cse320_projects.Allocator.Lists.{class, class-lt, IsFree, IsFree-agree, replace}
use cse320_projects.Allocator.Changes.{add_to_free_list-IsFree}
use cse320_projects.Allocator.Free.{
  freed, zeroed, set_block_size, bad_block, take_loop, insert, coalesce, released, release, sf_free,
}

-- The blocks lie before `b` or behind the `size` bytes from there.
unfoldable pub outside : ℕ → ℕ → List ℕ → Bool
outside b size [] = true
outside b size (q ∷ qs) = (leb (q + 32) b || leb (b + size) q) && outside b size qs

pub outside-apart :
    (b size : ℕ) (qs : List ℕ) → 32 ≤ size → outside b size qs ≡ true → apart b qs ≡ true
unfolding outside apart
outside-apart b size [] le h = refl
outside-apart b size (q ∷ qs) le h = ground (arith, outside-apart b size qs le)

outside-has :
    (b size q : ℕ) (qs : List ℕ)
    → outside b size qs ≡ true
    → has q qs ≡ true
    → (leb (q + 32) b || leb (b + size) q) ≡ true
unfolding outside has
outside-has b size q [] h m = ground arith
outside-has b size q (r ∷ qs) h m = ground (arith, outside-has b size q qs)

pub outside-misses :
    (b size a : ℕ) (qs : List ℕ)
    → b ≤ a
    → a < b + size
    → outside b size qs ≡ true
    → misses a qs ≡ true
unfolding outside misses
outside-misses b size a [] ge lt h = refl
outside-misses b size a (q ∷ qs) ge lt h = ground (arith, outside-misses b size a qs ge lt)

pub class-at_least : (n i : ℕ) → class n ≡ some i → 32 ≤ n
unfolding class
class-at_least n i e = ground (arith, e)

pub class-at_most : (n i : ℕ) → class n ≡ some i → n < 2 ^ 32
unfolding class
class-at_most n i e = ground (arith, e)

pub outside-inner :
    (b size b' size' : ℕ) (qs : List ℕ)
    → b ≤ b'
    → b' + size' ≤ b + size
    → outside b size qs ≡ true
    → outside b' size' qs ≡ true
unfolding outside
outside-inner b size b' size' [] lo hi h = refl
outside-inner b size b' size' (q ∷ qs) lo hi h =
    ground (arith, lo, hi, outside-inner b size b' size' qs lo hi)

-- Free blocks outside the bytes that change.
pub outside-IsFree :
    {self : Allocator} {lists : ℕ → List ℕ} (b size : ℕ) (rows : Rows)
    → IsFree self lists
    → ((j : ℕ) → j < 4 → outside b size (lists j) ≡ true)
    → ((a : ℕ) → (ltb a b || leb (b + size) a) ≡ true → rows a ≡ self.rows a)
    → IsFree (record self { rows = rows }) lists
outside-IsFree {lists} b size rows free clear same =
    IsFree-agree rows free
      (λ j ltj q m. same q (ground (arith, outside-has b size q (lists j) (clear j ltj) m)))
      (λ j ltj a hit. same a (ground (arith, hit, clear j ltj, outside-misses b size a (lists j))))

-- A block that is written with its size and put in.
module _ {self : Allocator} {lists : ℕ → List ℕ} (b size k : ℕ) (rows : Rows) where
  pub insert-IsFree :
      IsFree self lists
      → class size ≡ some k
      → blocksize_of (rows b) ≡ size
      → b ≢ 0
      → ((j : ℕ) → j < 4 → outside b size (lists j) ≡ true)
      → ((a : ℕ) → (ltb a b || leb (b + size) a) ≡ true → rows a ≡ self.rows a)
      → (self' : Allocator) × (add_to_free_list b
            (record self { rows = write (write rows (b + 8) 0) (b + 16) 0 })
          ≡ (self', true))
        × IsFree self' (replace lists k (b ∷ lists k))
        × ((a : ℕ) → misses a (b ∷ lists k) ≡ true → self'.rows a ≡ rows a)
  unfolding write
  insert-IsFree free sized written nz clear same =
      let le = class-at_least size k sized in
      let blank : Rows = write (write rows (b + 8) 0) (b + 16) 0 in
      let header : blank b ≡ rows b = ground arith in
      let free' = outside-IsFree b size blank free clear (λ a h. ground (arith, same a h, le, h)) in
      let (done, free'', frame) =
        add_to_free_list-IsFree b k free'
          (ap (λ row. class (blocksize_of row)) header ∙ ap class written ∙ sized) nz
          (λ j ltj. outside-apart b size (lists j) le (clear j ltj)) in
      (
        push b k (record self { rows = blank }),
        done,
        free'',
        λ a h. frame a h ∙ unfold misses in ground (arith, h),
      )

-- The header and the footer of that block are no links.
pub ends-misses :
    (b size a : ℕ) (qs : List ℕ)
    → 32 ≤ size
    → ((a == b) || (a == b + size - 8)) ≡ true
    → outside b size qs ≡ true
    → misses a (b ∷ qs) ≡ true
unfolding misses
ends-misses b size a qs le h clear = ground (arith, le, h, clear, outside-misses b size a qs)

-- A row that has been zeroed and given a size is that of a free block.
unfoldable pub free_row : ℕ → ℕ → ℕ
free_row junk size =
    junk % 2 ^ 32 * 2 ^ 32 - block_size (junk % 2 ^ 32 * 2 ^ 32) * 16 + size / 16 % 2 ^ 28 * 16

pub free_row-IsSized :
    (junk size : ℕ)
    → size % 16 ≡ 0
    → size < 2 ^ 32
    → (blocksize_of (free_row junk size) ≡ size) × (allocated (free_row junk size) ≡ 0)
unfolding free_row blocksize_of block_size allocated
free_row-IsSized junk size even lt = (omega (arith, even, lt), omega (arith, even, lt))

pub blocksize_of-IsRound : (row : ℕ) → (blocksize_of row % 16 ≡ 0) × (blocksize_of row < 2 ^ 32)
unfolding blocksize_of block_size
blocksize_of-IsRound row = (omega arith, omega arith)

-- Past the tests, `sf_free` asks whether the next block is free.
pub sf_free-branch :
    (fuel : ℕ) (junk : ℕ → ℕ) (heap_start heap_end b : ℕ) (self : Allocator)
    → bad_block heap_start heap_end self.rows (b + 8) ≡ false
    → sf_free fuel junk heap_start heap_end (b + 8) self ≡ (
        let s = blocksize_of (self.rows b) in
        if allocated (self.rows (b + s)) == 0
        then coalesce junk b s (blocksize_of (self.rows (b + s))) (take_loop fuel 4 0 (b + s) self)
        else freed (release junk b s self))
unfolding sf_free
sf_free-branch fuel junk heap_start heap_end b self good =
    let back : b + 8 - 8 ≡ b = omega arith in rw (back, good) (ground arith)

-- `sf_free` of a valid block whose next block is in use marks it free, keeps its size, and puts it
-- in front of the list of its class; the lists stay well formed. The free blocks lie outside the
-- block, and its size has a class.
pub sf_free-alone :
    {self : Allocator} {lists : ℕ → List ℕ} (fuel : ℕ) (junk : ℕ → ℕ) (heap_start heap_end b k : ℕ)
    → IsFree self lists
    → b ≢ 0
    → bad_block heap_start heap_end self.rows (b + 8) ≡ false
    → allocated (self.rows (b + blocksize_of (self.rows b))) ≡ 1
    → class (blocksize_of (self.rows b)) ≡ some k
    → ((j : ℕ) → j < 4 → outside b (blocksize_of (self.rows b)) (lists j) ≡ true)
    → (self' : Allocator) × (sf_free fuel junk heap_start heap_end (b + 8) self ≡ freed self')
      × IsFree self' (replace lists k (b ∷ lists k))
      × (blocksize_of (self'.rows b) ≡ blocksize_of (self.rows b))
      × (allocated (self'.rows b) ≡ 0)
unfolding release insert
sf_free-alone {self} {lists} fuel junk heap_start heap_end b k free nz good used sized clear =
    let s = blocksize_of (self.rows b) in
    let rows = released junk b s self.rows in
    let le = class-at_least s k sized in
    let (round, lt) = blocksize_of-IsRound (self.rows b) in
    let (size, not_used) = free_row-IsSized (junk 0) s round lt in
    let header = ends-misses b s b (lists k) le (ground arith) (clear k (class-lt s k sized)) in
    let here : rows b ≡ free_row (junk 0) s =
      unfold released set_block_size zeroed write free_row in ground (arith, le) in
    let (self', e, free', frame) =
      insert-IsFree b s k rows free sized (ap blocksize_of here ∙ size) nz clear
        (λ a h. unfold released set_block_size zeroed write in ground (arith, h, le)) in
    (
      self',
      sf_free-branch fuel junk heap_start heap_end b self good ∙ rw used (ap (λ r. freed r.0) e),
      free',
      ap blocksize_of (frame b header ∙ here) ∙ size,
      ap allocated (frame b header ∙ here) ∙ not_used,
    )
