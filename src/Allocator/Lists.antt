-- ===== src/Allocator/Lists.antt =====
-- The four free lists of hw3/src/sfmm.c: which list a block belongs to, adding and removing it.
use native.Mathlib.Decide.{ℕ_discrete}
use cse320_projects.Common.{
  ℕ, ◌<◌, ◌≡◌, sym, ap, ◌∙◌, ◌≢◌, inl, inr, Bool, Bool-cases, true, false, not, Option, none, some,
  List, [], ◌∷◌, arith, leb, ◌==◌, if◌then◌else◌, get_or, length,
}
use cse320_projects.Allocator.{
  Rows, in_list, Allocator, push, add_loop, add_to_free_list, blocksize_of,
}
use cse320_projects.Allocator.FreeList.{
  has, apart, misses, misses-next, misses-prev, Links, Links-agree,
}

-- The list that a block of this size belongs to.
unfoldable pub class : ℕ → Option ℕ
class blocksize =
    if not (leb 32 blocksize)
    then none
    else if leb blocksize 128
    then some 0
    else if leb blocksize 512
    then some 1
    else if leb blocksize 2048
    then some 2
    else if leb blocksize 65535
    then some 3
    else none

-- What `add_to_free_list` does with a block of a class.
unfoldable pub added : ℕ → Allocator → Option ℕ → Allocator × Bool
added p self none = (self, false)
added p self (some i) = (push p i self, true)

pub add_to_free_list-class :
    (p : ℕ) (self : Allocator)
    → add_to_free_list p self ≡ added p self (class (blocksize_of (self.rows p)))
unfolding add_to_free_list add_loop in_list class added get_or
add_to_free_list-class p self = ground arith

pub class-lt : (n i : ℕ) → class n ≡ some i → i < 4
unfolding class
class-lt n i e = ground (arith, e)

-- The four lists hold the blocks `lists`, each in the list of its class, and no two meet.
pub record IsFree (self : Allocator) (lists : ℕ → List ℕ) : Type 0 where
  pub four : length self.heads ≡ 4
  pub chains : (i : ℕ) → i < 4 → Links self.rows 0 (get_or self.heads i 0) (lists i)
  pub sizes :
      (i : ℕ)
      → i < 4
      → (p : ℕ) → has p (lists i) ≡ true
      → class (blocksize_of (self.rows p)) ≡ some i
  pub away :
      (i j : ℕ)
      → i < 4
      → j < 4
      → i ≢ j
      → (p : ℕ) → has p (lists i) ≡ true
      → apart p (lists j) ≡ true

-- A row that is a link of one group of blocks is none of another, away from it.
pub links-away :
    (a : ℕ) (ps qs : List ℕ)
    → misses a qs ≡ false
    → ((m : ℕ) → has m qs ≡ true → apart m ps ≡ true)
    → misses a ps ≡ true
unfolding misses has
links-away a ps [] h out = ground arith
links-away a ps (q ∷ qs) h out =
    let clear : apart q ps ≡ true = out q (ground arith) in
    elim (Bool-cases (misses a qs)) [
      | inr later ↦ links-away a ps qs later (λ m e. out m (ground (arith, e)))
      | inl first ↦ ground (arith, h, first, misses-next q ps clear, misses-prev q ps clear)
    ]

unfoldable pub replace : (ℕ → List ℕ) → ℕ → List ℕ → ℕ → List ℕ
replace lists i ps j = if j == i then ps else lists j

replaced : (lists : ℕ → List ℕ) (i : ℕ) (ps : List ℕ) → replace lists i ps i ≡ ps
unfolding replace
replaced lists i ps = ground arith

kept : (lists : ℕ → List ℕ) (i : ℕ) (ps : List ℕ) (j : ℕ) → j ≢ i → replace lists i ps j ≡ lists j
unfolding replace
kept lists i ps j h = ground arith

-- One list is exchanged for another, and the other three are left alone.
module _ {self : Allocator} {lists : ℕ → List ℕ} (i : ℕ) (ps : List ℕ) (self' : Allocator) where
  pub IsFree-replace :
      IsFree self lists
      → length self'.heads ≡ 4
      → ((j : ℕ) → j ≢ i → get_or self'.heads j 0 ≡ get_or self.heads j 0)
      → Links self'.rows 0 (get_or self'.heads i 0) ps
      → ((j : ℕ) → j < 4 → j ≢ i → (q : ℕ) → has q (lists j) ≡ true → self'.rows q ≡ self.rows q)
      → ((j : ℕ)
          → j < 4
          → j ≢ i
          → (a : ℕ) → misses a (lists j) ≡ false
          → self'.rows a ≡ self.rows a)
      → ((q : ℕ) → has q ps ≡ true → class (blocksize_of (self'.rows q)) ≡ some i)
      → ((j : ℕ) → j < 4 → j ≢ i → (q : ℕ) → has q ps ≡ true → apart q (lists j) ≡ true)
      → ((j : ℕ) → j < 4 → j ≢ i → (q : ℕ) → has q (lists j) ≡ true → apart q ps ≡ true)
      → IsFree self' (replace lists i ps)
  IsFree-replace free four heads chain headers links sizes out back = record {
    four = four;
    chains = λ j lt. elim (ℕ_discrete j i) [
      | yes e ↦ rw (e, replaced) chain
      | no ne ↦
          rw (kept lists i ps j ne, heads j ne)
            (Links-agree self'.rows (free.chains j lt) (links j lt ne))
    ];
    sizes = λ j lt q m. elim (ℕ_discrete j i) [
      | yes e ↦ rw e (sizes q (unfold replace in ground (arith, m, e)))
      | no ne ↦
          let old : has q (lists j) ≡ true = unfold replace in ground (arith, m, ne) in
          rw (headers j lt ne q old) (free.sizes j lt q old)
    ];
    away = λ j k ltj ltk ne q m. elim (ℕ_discrete j i) [
      | yes e ↦
          let new : has q ps ≡ true = unfold replace in ground (arith, m, e) in
          rw (kept lists i ps k (λ e'. ne (e ∙ sym e'))) (out k ltk (λ e'. ne (e ∙ sym e')) q new)
      | no nj ↦
          let old : has q (lists j) ≡ true = unfold replace in ground (arith, m, nj) in
          elim (ℕ_discrete k i) [
            | yes e ↦ rw (e, replaced) (back j ltj nj q old)
            | no nk ↦ rw (kept lists i ps k nk) (free.away j k ltj ltk ne q old)
          ]
    ];
  }

-- Memory that changes in no header and no link of the blocks.
pub IsFree-agree :
    {self : Allocator} {lists : ℕ → List ℕ} (rows : Rows)
    → IsFree self lists
    → ((j : ℕ) → j < 4 → (q : ℕ) → has q (lists j) ≡ true → rows q ≡ self.rows q)
    → ((j : ℕ) → j < 4 → (a : ℕ) → misses a (lists j) ≡ false → rows a ≡ self.rows a)
    → IsFree (record self { rows = rows }) lists
IsFree-agree rows free headers links = record {
  four = free.four;
  chains = λ i lt. Links-agree rows (free.chains i lt) (links i lt);
  sizes = λ i lt p m. ap (λ row. class (blocksize_of row)) (headers i lt p m) ∙ free.sizes i lt p m;
  away = free.away;
}
