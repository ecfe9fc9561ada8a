-- ===== src/Allocator/Coalesce.antt =====
-- `sf_free` of hw3/src/sfmm.c on a valid block whose next block is free.
use cse320_projects.Common.{
  ℕ, zero, suc, ◌+◌, ◌-◌, ◌%◌, ◌<◌, ◌≤◌, ◌≡◌, refl, sym, ap, ◌∙◌, ◌≢◌, true, false, ◌||◌, Option,
  none, some, List, ◌∷◌, arith, ltb, leb, ◌==◌, get_or, length,
}
use cse320_projects.Allocator.{
  Rows, write, Allocator, allocated, blocksize_of, in_list, search_head_in_list,
  remove_from_free_list,
}
use cse320_projects.Allocator.FreeList.{has, has-nonzero, misses}
use cse320_projects.Allocator.Unlink.{without}
use cse320_projects.Allocator.Lists.{class, class-lt, IsFree, replace}
use cse320_projects.Allocator.Changes.{remove_from_free_list-IsFree}
use cse320_projects.Allocator.Search.{search_head_in_list-has}
use cse320_projects.Allocator.Free.{
  FreeRun, freed, zeroed, set_block_size, bad_block, take_found, take_loop, insert, coalesce,
  merged, sf_free,
}
use cse320_projects.Allocator.Release.{
  outside, insert-IsFree, ends-misses, class-at_least, class-at_most, free_row, free_row-IsSized,
  blocksize_of-IsRound, sf_free-branch,
}

unfoldable taken : ℕ → ℕ → Allocator → Option ℕ → FreeRun
taken fuel n self none = freed self
taken fuel n self (some i) =
    take_found i self (search_head_in_list fuel self.rows n (get_or self.heads i 0))

take_loop-class :
    (fuel n : ℕ) (self : Allocator)
    → take_loop fuel 4 0 n self ≡ taken fuel n self (class (blocksize_of (self.rows n)))
unfolding take_loop in_list class taken get_or
take_loop-class fuel n self = ground arith

take_found-nonzero :
    (i n : ℕ) (self : Allocator)
    → n ≢ 0
    → take_found i self (some n) ≡ freed (remove_from_free_list n i self)
unfolding take_found
take_found-nonzero i zero self nz = absurd (nz refl)
take_found-nonzero i (suc n) self nz = refl

take_loop-found :
    {self : Allocator} {lists : ℕ → List ℕ} (fuel i n : ℕ)
    → IsFree self lists
    → i < 4
    → has n (lists i) ≡ true
    → length (lists i) < fuel
    → take_loop fuel 4 0 n self ≡ freed (remove_from_free_list n i self)
unfolding taken
take_loop-found {self} fuel i n free lt member enough =
    take_loop-class fuel n self
    ∙ rw
        (free.sizes i lt n member, search_head_in_list-has fuel n (free.chains i lt) enough, member)
        (take_found-nonzero i n self (has-nonzero n (free.chains i lt) member))

merged-row :
    (junk : ℕ → ℕ) (b s t : ℕ) (rows : Rows)
    → 32 ≤ s
    → 32 ≤ t
    → merged junk b s t rows b ≡ free_row (junk 0) (s + t)
unfolding merged set_block_size zeroed write free_row
merged-row junk b s t rows ls lt = ground (arith, ls, lt)

merged-away :
    (junk : ℕ → ℕ) (b s t a : ℕ) (rows : Rows)
    → 32 ≤ s
    → 32 ≤ t
    → (ltb a b || leb (b + (s + t)) a) ≡ true
    → merged junk b s t rows a ≡ rows a
unfolding merged set_block_size zeroed write
merged-away junk b s t a rows ls lt h = ground (arith, ls, lt, h)

merged-footer :
    (junk : ℕ → ℕ) (b s t : ℕ) (rows : Rows)
    → 32 ≤ s
    → 32 ≤ t
    → merged junk b s t rows (b + (s + t) - 8) ≡ free_row (junk 1) (s + t)
unfolding merged set_block_size zeroed write free_row
merged-footer junk b s t rows ls lt =
    let same : b + s + t - 8 ≡ b + (s + t) - 8 = omega arith in rw same (ground (arith, ls, lt))

-- The next block is free and has been taken from its list.
sf_free-next :
    (fuel : ℕ) (junk : ℕ → ℕ) (heap_start heap_end b s t : ℕ) (self self1 : Allocator)
    → bad_block heap_start heap_end self.rows (b + 8) ≡ false
    → blocksize_of (self.rows b) ≡ s
    → blocksize_of (self.rows (b + s)) ≡ t
    → allocated (self.rows (b + s)) ≡ 0
    → take_loop fuel 4 0 (b + s) self ≡ freed self1
    → sf_free fuel junk heap_start heap_end (b + 8) self
      ≡ freed (insert b (record self1 { rows = merged junk b s t self1.rows }))
unfolding coalesce
sf_free-next fuel junk heap_start heap_end b s t self self1 good e_s e_t unused found =
    sf_free-branch fuel junk heap_start heap_end b self good ∙ rw (e_s, e_t, unused, found) refl

-- `sf_free` of a valid block whose next block is free takes that block from its list and puts the
-- two, as one free block with both sizes in header and footer, in front of the list of its class;
-- the lists stay well formed. The other free blocks lie outside the two, the merged size has a
-- class, and the fuel exceeds the length of the list.
pub sf_free-coalesced :
    {self : Allocator} {lists : ℕ → List ℕ} (fuel : ℕ) (junk : ℕ → ℕ)
    (heap_start heap_end b s t i k : ℕ)
    → IsFree self lists
    → b ≢ 0
    → bad_block heap_start heap_end self.rows (b + 8) ≡ false
    → blocksize_of (self.rows b) ≡ s
    → 32 ≤ s
    → blocksize_of (self.rows (b + s)) ≡ t
    → allocated (self.rows (b + s)) ≡ 0
    → i < 4
    → has (b + s) (lists i) ≡ true
    → length (lists i) < fuel
    → class (s + t) ≡ some k
    → ((j : ℕ) → j < 4 → outside b (s + t) (replace lists i (without (b + s) (lists i)) j) ≡ true)
    → (self' : Allocator) × (sf_free fuel junk heap_start heap_end (b + 8) self ≡ freed self')
      × IsFree self' (
          let lists' = replace lists i (without (b + s) (lists i)) in
          replace lists' k (b ∷ lists' k))
      × (blocksize_of (self'.rows b) ≡ s + t)
      × (blocksize_of (self'.rows (b + (s + t) - 8)) ≡ s + t)
      × (allocated (self'.rows b) ≡ 0)
unfolding insert
sf_free-coalesced {self} {lists} fuel junk heap_start heap_end b s t i k free nz good e_s ls e_t
      unused lt member enough sized clear =
    let self1 = remove_from_free_list (b + s) i self in
    let (free1, _) = remove_from_free_list-IsFree (b + s) i free lt member in
    let lt32 = class-at_least t i (ap class (sym e_t) ∙ free.sizes i lt (b + s) member) in
    let (round_s, _) = blocksize_of-IsRound (self.rows b) in
    let (round_t, _) = blocksize_of-IsRound (self.rows (b + s)) in
    let round : (s + t) % 16 ≡ 0 = omega (arith, round_s, round_t, e_s, e_t) in
    let small = class-at_most (s + t) k sized in
    let (size, not_used) = free_row-IsSized (junk 0) (s + t) round small in
    let (size', _) = free_row-IsSized (junk 1) (s + t) round small in
    let here = merged-row junk b s t self1.rows ls lt32 in
    let lists' = replace lists i (without (b + s) (lists i)) in
    let ends : (a : ℕ)
        → ((a == b) || (a == b + (s + t) - 8)) ≡ true
        → misses a (b ∷ lists' k) ≡ true =
      λ a h.
        ends-misses b (s + t) a (lists' k) (omega (arith, ls)) h
          (clear k (class-lt (s + t) k sized)) in
    let (self', e, free', frame) =
      insert-IsFree b (s + t) k (merged junk b s t self1.rows) free1 sized
        (ap blocksize_of here ∙ size) nz clear
        (λ a h. merged-away junk b s t a self1.rows ls lt32 h) in
    (
      self',
      sf_free-next fuel junk heap_start heap_end b s t self self1 good e_s e_t unused
            (take_loop-found fuel i (b + s) free lt member enough)
          ∙ ap (λ r. freed r.0) e,
      free',
      ap blocksize_of (frame b (ends b (ground arith)) ∙ here) ∙ size,
      ap blocksize_of
            (frame _ (ends _ (ground arith)) ∙ merged-footer junk b s t self1.rows ls lt32)
          ∙ size',
      ap allocated (frame b (ends b (ground arith)) ∙ here) ∙ not_used,
    )
