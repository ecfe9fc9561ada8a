-- ===== src/Allocator/Place.antt =====
-- The block that `sf_malloc` of hw3/src/sfmm.c has found: taken whole, or split.
use cse320_projects.Common.{
  ℕ, ◌+◌, ◌-◌, ◌%◌, ◌^◌, ◌<◌, ◌≤◌, ◌≡◌, refl, sym, ap, ◌∙◌, Bool, true, false, ◌||◌, some, List,
  ◌∷◌, arith, ltb, leb, get_or,
}
use cse320_projects.Allocator.{
  Rows, write, Allocator, blocksize_of, add_to_free_list, remove_from_free_list, in_list,
}
use cse320_projects.Allocator.FreeList.{has, misses}
use cse320_projects.Allocator.Unlink.{without}
use cse320_projects.Allocator.Lists.{class, class-lt, IsFree, replace}
use cse320_projects.Allocator.Changes.{remove_from_free_list-IsFree}
use cse320_projects.Allocator.Free.{zeroed, set_block_size}
use cse320_projects.Allocator.Release.{
  outside, outside-inner, outside-IsFree, outside-misses, insert-IsFree, ends-misses,
  class-at_least, class-at_most, free_row, free_row-IsSized, blocksize_of-IsRound,
}
use cse320_projects.Allocator.Malloc.{remove_loop, in_use, left_over, rest_added, place}
use cse320_projects.Allocator.InUse.{used_row, in_use-header, in_use-footer, in_use-away}

pub remove_loop-class :
    (s sfh i : ℕ) (self : Allocator)
    → class s ≡ some i
    → remove_loop 4 0 s sfh self ≡ remove_from_free_list sfh i self
unfolding remove_loop in_list class get_or
remove_loop-class s sfh i self e = ground (arith, e)

-- whole
pub place-whole :
    {self : Allocator} {lists : ℕ → List ℕ} (junk : ℕ → ℕ) (size n s sfh i : ℕ) (paded : Bool)
    → IsFree self lists
    → i < 4
    → has sfh (lists i) ≡ true
    → blocksize_of (self.rows sfh) ≡ s
    → s < n + 32
    → ((j : ℕ) → j < 4 → outside sfh s (replace lists i (without sfh (lists i)) j) ≡ true)
    → (self' : Allocator) × (place junk size n paded sfh self ≡ some (self', sfh + 8))
      × IsFree self' (replace lists i (without sfh (lists i)))
      × (self'.rows sfh ≡ used_row (junk 0 % 2 ^ 32) s paded)
      × (self'.rows (sfh + s - 8) ≡ used_row (size % 2 ^ 32) s paded)
unfolding place
place-whole {self} {lists} junk size n s sfh i paded free lt member e_s short clear =
    let sized : class s ≡ some i = ap class (sym e_s) ∙ free.sizes i lt sfh member in
    let le = class-at_least s i sized in
    let (round, _) = blocksize_of-IsRound (self.rows sfh) in
    let even : s % 16 ≡ 0 = omega (arith, round, e_s) in
    let small = class-at_most s i sized in
    let self1 = remove_from_free_list sfh i self in
    let (free1, _) = remove_from_free_list-IsFree sfh i free lt member in
    let no_room : leb 32 (s - n) ≡ false = ground (arith, short) in
    (
      record self1 { rows = in_use junk sfh s size paded self1.rows },
      rw (e_s, remove_loop-class s sfh i self sized, no_room) refl,
      outside-IsFree sfh s (in_use junk sfh s size paded self1.rows) free1 clear
          (in_use-away junk sfh s size self1.rows le even small paded),
      in_use-header junk sfh s size self1.rows le even small paded,
      in_use-footer junk sfh s size self1.rows le even small paded,
    )

left_over-row :
    (junk : ℕ → ℕ) (p r : ℕ) (rows : Rows)
    → 32 ≤ r
    → left_over junk p r rows p ≡ free_row (junk 2) r
unfolding left_over set_block_size zeroed write free_row
left_over-row junk p r rows le = ground (arith, le)

left_over-away :
    (junk : ℕ → ℕ) (p r a : ℕ) (rows : Rows)
    → 32 ≤ r
    → (ltb a p || leb (p + r) a) ≡ true
    → left_over junk p r rows a ≡ rows a
unfolding left_over set_block_size zeroed write
left_over-away junk p r a rows le h = ground (arith, le, h)

-- The rows before what is left are neither links of the lists nor of the block put in.
before_misses :
    (b s p a : ℕ) (qs : List ℕ)
    → b ≤ a
    → a < p
    → p ≤ b + s
    → outside b s qs ≡ true
    → misses a (p ∷ qs) ≡ true
unfolding misses
before_misses b s p a qs lo hi le clear = ground (arith, lo, hi, le, clear, outside-misses b s a qs)

place-room :
    (junk : ℕ → ℕ) (size n s sfh : ℕ) (paded : Bool) (self self1 self' : Allocator)
    → blocksize_of (self.rows sfh) ≡ s
    → remove_loop 4 0 s sfh self ≡ self1
    → leb 32 (s - n) ≡ true
    → (let rest = left_over junk (sfh + n) (s - n) (in_use junk sfh n size paded self1.rows) in
        add_to_free_list
          (sfh + n)
          (record self1 { rows = write (write rest (sfh + n + 8) 0) (sfh + n + 16) 0 })
        ≡ (self', true))
    → place junk size n paded sfh self ≡ some (self', sfh + 8)
unfolding place rest_added
place-room junk size n s sfh paded self self1 self' e_s removed room e =
    rw (e_s, removed, room, e) refl

-- When `sf_malloc` has found a free block with at least 32 bytes more than it needs, it takes the
-- block from its list, makes its first part a block in use, with the size and the mark of padding
-- in header and footer and the request in the footer, and puts the rest, of the size that is left,
-- in front of the list of its class; the lists stay well formed. The other free blocks lie outside
-- the block, and the rest has a class.
pub place-split :
    {self : Allocator} {lists : ℕ → List ℕ} (junk : ℕ → ℕ) (size n s sfh i k : ℕ) (paded : Bool)
    → IsFree self lists
    → i < 4
    → has sfh (lists i) ≡ true
    → blocksize_of (self.rows sfh) ≡ s
    → 32 ≤ n
    → n % 16 ≡ 0
    → n + 32 ≤ s
    → class (s - n) ≡ some k
    → ((j : ℕ) → j < 4 → outside sfh s (replace lists i (without sfh (lists i)) j) ≡ true)
    → (self' : Allocator) × (place junk size n paded sfh self ≡ some (self', sfh + 8))
      × IsFree self' (
          let lists' = replace lists i (without sfh (lists i)) in
          replace lists' k ((sfh + n) ∷ lists' k))
      × (self'.rows sfh ≡ used_row (junk 0 % 2 ^ 32) n paded)
      × (self'.rows (sfh + n - 8) ≡ used_row (size % 2 ^ 32) n paded)
      × (blocksize_of (self'.rows (sfh + n)) ≡ s - n)
place-split {self} {lists} junk size n s sfh i k paded free lt member e_s le even room sized_k
      clear =
    let sized : class s ≡ some i = ap class (sym e_s) ∙ free.sizes i lt sfh member in
    let (round, _) = blocksize_of-IsRound (self.rows sfh) in
    let small : n < 2 ^ 32 = omega (arith, class-at_most s i sized, room) in
    let self1 = remove_from_free_list sfh i self in
    let lists' = replace lists i (without sfh (lists i)) in
    let (free1, _) = remove_from_free_list-IsFree sfh i free lt member in
    let used = in_use junk sfh n size paded self1.rows in
    let free2 =
      outside-IsFree sfh n used free1
        (λ j ltj.
          outside-inner sfh s sfh n (lists' j) (omega arith) (omega (arith, room)) (clear j ltj))
        (in_use-away junk sfh n size self1.rows le even small paded) in
    let left : 32 ≤ s - n = omega (arith, room) in
    let rest : Rows = left_over junk (sfh + n) (s - n) used in
    let (size_left, _) =
      free_row-IsSized (junk 2) (s - n) (omega (arith, round, e_s, even, room))
        (class-at_most (s - n) k sized_k) in
    let here = ap blocksize_of (left_over-row junk (sfh + n) (s - n) used left) ∙ size_left in
    let (self', e, free', frame) =
      insert-IsFree (sfh + n) (s - n) k rest free2 sized_k here (λ z. absurd (omega (arith, z, le)))
        (λ j ltj.
          outside-inner sfh s (sfh + n) (s - n) (lists' j) (omega arith) (omega (arith, room))
            (clear j ltj))
        (λ a h. left_over-away junk (sfh + n) (s - n) a used left h) in
    let clear_k = clear k (class-lt (s - n) k sized_k) in
    let kept : (a : ℕ) → sfh ≤ a → a < sfh + n → self'.rows a ≡ used a = λ a lo hi.
      frame a (before_misses sfh s (sfh + n) a (lists' k) lo hi (omega (arith, room)) clear_k)
      ∙ left_over-away junk (sfh + n) (s - n) a used left (ground (arith, hi)) in
    let room' : leb 32 (s - n) ≡ true = ground (arith, left) in
    (
      self',
      place-room junk size n s sfh paded self self1 self' e_s (remove_loop-class s sfh i self sized)
          room' e,
      free',
      kept sfh (omega arith) (omega (arith, le))
          ∙ in_use-header junk sfh n size self1.rows le even small paded,
      kept (sfh + n - 8) (omega (arith, le)) (omega (arith, le))
          ∙ in_use-footer junk sfh n size self1.rows le even small paded,
      ap blocksize_of (
            frame (sfh + n) (
              ends-misses (sfh + n) (s - n) (sfh + n) (lists' k) left (ground arith) (
                outside-inner sfh s (sfh + n) (s - n) (lists' k) (omega arith) (omega (arith, room))
                  clear_k)))
          ∙ here,
    )
