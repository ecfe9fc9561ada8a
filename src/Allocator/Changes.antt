-- ===== src/Allocator/Changes.antt =====
-- `add_to_free_list` and `remove_from_free_list` of hw3/src/sfmm.c on the four free lists.
use native.Mathlib.Decide.{ℕ_discrete}
use cse320_projects.Common.{
  ℕ, ◌<◌, ◌≡◌, refl, sym, ap, ◌∙◌, ◌≢◌, true, some, List, [], ◌∷◌, arith, ◌==◌, if◌then◌else◌,
  get_or, set, get_or-set, length, length-set,
}
use cse320_projects.Allocator.{
  Allocator, next_of, prev_of, push, add_to_free_list, unlink, remove_from_free_list, blocksize_of,
}
use cse320_projects.Allocator.FreeList.{
  has, apart, misses, link-Links, link-agree, apart-has, apart-misses, prev-has, header-misses,
  has-nonzero,
}
use cse320_projects.Allocator.Unlink.{without, apart-without, unlink-Links, unlink-agree}
use cse320_projects.Allocator.Lists.{
  class, class-lt, added, add_to_free_list-class, IsFree, links-away, replace, IsFree-replace,
}

pub has-without : (q x : ℕ) (ps : List ℕ) → has q (without x ps) ≡ true → has q ps ≡ true
unfolding has without
has-without q x [] m = m
has-without q x (p ∷ ps) m = ground (arith, m, has-without q x ps)

module _ {self : Allocator} {lists : ℕ → List ℕ} (p i : ℕ) where
  -- `add_to_free_list` of a block whose size has a class, away from the blocks of the four
  -- well-formed lists, puts it in front of the list of the class, keeps all four well formed, and
  -- changes no row but the links of the block and of that list.
  pub add_to_free_list-IsFree :
      IsFree self lists
      → class (blocksize_of (self.rows p)) ≡ some i
      → p ≢ 0
      → ((j : ℕ) → j < 4 → apart p (lists j) ≡ true)
      → (add_to_free_list p self ≡ (push p i self, true))
        × IsFree (push p i self) (replace lists i (p ∷ lists i))
        × ((a : ℕ) → misses a (p ∷ lists i) ≡ true → (push p i self).rows a ≡ self.rows a)
  unfolding push added
  add_to_free_list-IsFree free sized nz clear =
      let lt = class-lt _ i sized in
      let inside : i < length self.heads = omega (arith, free.four, lt) in
      let here : get_or (set self.heads i p) i 0 ≡ p =
        ground (arith, get_or-set self.heads i i p 0 inside) in
      let chain = free.chains i lt in
      let same : (a : ℕ) → misses a (p ∷ lists i) ≡ true → (push p i self).rows a ≡ self.rows a =
        λ a h. link-agree self.rows p (get_or self.heads i 0) a (lists i) chain h in
      let beside : (j : ℕ)
          → j < 4
          → j ≢ i
          → (q : ℕ) → has q (lists j) ≡ true
          → apart q (p ∷ lists i) ≡ true =
        λ j ltj ne q m.
          unfold apart in
          ground (arith, apart-has p q (lists j) (clear j ltj) m, free.away j i ltj lt ne q m) in
      let header : (q : ℕ) → has q (p ∷ lists i) ≡ true → misses q (p ∷ lists i) ≡ true = λ q m.
        unfold misses has in
        ground (
          arith,
          m,
          header-misses q chain,
          apart-misses p (lists i) (clear i lt),
          apart-has p q (lists i) (clear i lt),
        ) in
      (
        rw (add_to_free_list-class p self, sized) refl,
        IsFree-replace i (p ∷ lists i) (push p i self) free (length-set self.heads i p ∙ free.four)
            (λ j ne. ground (arith, get_or-set self.heads i j p 0 inside, ne))
            (rw (here) (link-Links p chain nz (clear i lt)))
            (λ j ltj ne q m. same q (apart-misses q (p ∷ lists i) (beside j ltj ne q m)))
            (λ j ltj ne a hit. same a (links-away a (p ∷ lists i) (lists j) hit (beside j ltj ne)))
            (λ q m.
              let was : class (blocksize_of (self.rows q)) ≡ some i = elim (ℕ_discrete q p) [
                | yes e ↦ rw e sized
                | no ne ↦ free.sizes i lt q (unfold has in ground (arith, m, ne))
              ] in
              ap (λ row. class (blocksize_of row)) (same q (header q m)) ∙ was)
            (λ j ltj ne q m. elim (ℕ_discrete q p) [
              | yes e ↦ rw e (clear j ltj)
              | no ne' ↦
                  free.away i j lt ltj (λ e. ne (sym e)) q (unfold has in ground (arith, m, ne'))
            ])
            beside,
        same,
      )

  -- `remove_from_free_list` of a block of one of four well-formed lists removes that block from
  -- that list, keeps all four well formed, and changes no row but the links of the list.
  pub remove_from_free_list-IsFree :
      IsFree self lists
      → i < 4
      → has p (lists i) ≡ true
      → IsFree (remove_from_free_list p i self) (replace lists i (without p (lists i)))
        × ((a : ℕ)
            → misses a (lists i) ≡ true
            → (remove_from_free_list p i self).rows a ≡ self.rows a)
  unfolding remove_from_free_list
  remove_from_free_list-IsFree free lt member =
      let inside : i < length self.heads = omega (arith, free.four, lt) in
      let chain = free.chains i lt in
      let head = get_or self.heads i 0 in
      let same : (a : ℕ) → misses a (lists i) ≡ true → unlink self.rows p a ≡ self.rows a =
        λ a h. unlink-agree p a chain member h in
      let here : get_or (remove_from_free_list p i self).heads i 0
          ≡ (if p == head then next_of self.rows p else head) =
        ground (
          arith,
          prev-has p chain member,
          has-nonzero (prev_of self.rows p) chain,
          get_or-set self.heads i i 0 0 inside,
          get_or-set self.heads i i (next_of self.rows p) 0 inside,
        ) in
      (
        IsFree-replace i (without p (lists i)) (remove_from_free_list p i self) free
            (ground (
              arith,
              length-set self.heads i 0,
              length-set self.heads i (next_of self.rows p),
              free.four,
            ))
            (λ j ne. ground (
              arith,
              ne,
              get_or-set self.heads i j 0 0 inside,
              get_or-set self.heads i j (next_of self.rows p) 0 inside,
            ))
            (rw here (unlink-Links p chain refl member))
            (λ j ltj ne q m. same q (apart-misses q (lists i) (free.away j i ltj lt ne q m)))
            (λ j ltj ne a hit.
              same a (links-away a (lists i) (lists j) hit (free.away j i ltj lt ne)))
            (λ q m.
              let old : has q (lists i) ≡ true = has-without q p (lists i) m in
              ap (λ row. class (blocksize_of row)) (same q (header-misses q chain old))
              ∙ free.sizes i lt q old)
            (λ j ltj ne q m. free.away i j lt ltj (λ e. ne (sym e)) q (has-without q p (lists i) m))
            (λ j ltj ne q m. apart-without q p (lists i) (free.away j i ltj lt ne q m)),
        same,
      )
