-- ===== src/Allocator/Unlink.antt =====
-- Removing a block from a free list of hw3/src/sfmm.c: the links that `unlink` leaves.
use native.Mathlib.Decide.{ℕ_discrete}
use cse320_projects.Common.{
  ℕ, ◌+◌, ◌≡◌, refl, ◌≢◌, true, not, ◌||◌, List, [], ◌∷◌, arith, leb, ◌==◌, if◌then◌else◌,
}
use cse320_projects.Allocator.{Rows, write, next_of, prev_of, unlink}
use cse320_projects.Allocator.FreeList.{
  has, apart, misses, Links, nil, cons, Links-agree, misses-next, misses-prev, apart-has, next-has,
  prev-has, misses-has,
}

unfoldable pub without : ℕ → List ℕ → List ℕ
without x [] = []
without x (p ∷ ps) = if x == p then ps else p ∷ without x ps

pub apart-without : (p x : ℕ) (ps : List ℕ) → apart p ps ≡ true → apart p (without x ps) ≡ true
unfolding apart without
apart-without p x [] h = refl
apart-without p x (q ∷ qs) h = ground (arith, apart-without p x qs)

-- Away from the block and its neighbours, `unlink` changes nothing.
unlink-away :
    (rows : Rows) (x a : ℕ)
    → a ≢ x + 8
    → a ≢ x + 16
    → ((prev_of rows x == 0) || not (a == prev_of rows x + 8)) ≡ true
    → ((next_of rows x == 0) || not (a == next_of rows x + 16)) ≡ true
    → unlink rows x a ≡ rows a
unfolding unlink write
unlink-away rows x a h8 h16 hp hn = ground arith

-- The first block of a list is unlinked.
unlink-first :
    {rows : Rows} {prev p q : ℕ} {ps : List ℕ}
    → p ≢ 0
    → next_of rows p ≡ q
    → prev_of rows p ≡ prev
    → apart p ps ≡ true
    → ((prev == 0) || apart prev ps) ≡ true
    → Links rows p q ps
    → Links (unlink rows p) prev q ps
unlink-first nz n b out before nil = nil
unlink-first {rows} {prev} {p} {q} nz n b out before (cons {q = r} {ps} nz' n' b' out' rest) =
    cons {prev = prev} {q = r} nz' (unfold apart in ground (arith, unlink-away rows p (q + 8), n'))
      (unfold unlink write apart in ground arith) out'
      (Links-agree (unlink rows p) rest λ a hit.
        unfold apart in
        ground (
          arith,
          hit,
          unlink-away rows p a,
          misses-next p ps,
          misses-prev p ps,
          misses-prev q ps,
          misses-next prev ps,
        ))

-- The links of a block before the one that is unlinked.
module _ {rows : Rows} {p q : ℕ} {ps : List ℕ} (x : ℕ) where
  next_kept :
      p ≢ 0
      → next_of rows p ≡ q
      → (leb (p + 32) x || leb (x + 32) p) ≡ true
      → has x ps ≡ true
      → apart p ps ≡ true
      → Links rows p q ps
      → next_of (unlink rows x) p ≡ (if x == q then next_of rows x else q)
  next_kept nz n far m out rest =
      unfold unlink write in
      ground (
        arith,
        next-has x rest m,
        prev-has x rest m,
        apart-has p (next_of rows x) ps out,
        apart-has p (prev_of rows x) ps out,
      )

  prev_kept :
      {prev : ℕ}
      → prev_of rows p ≡ prev
      → (leb (p + 32) x || leb (x + 32) p) ≡ true
      → has x ps ≡ true
      → apart p ps ≡ true
      → Links rows p q ps
      → prev_of (unlink rows x) p ≡ prev
  prev_kept b far m out rest =
      unfold unlink write in
      ground (
        arith,
        next-has x rest m,
        prev-has x rest m,
        apart-has p (next_of rows x) ps out,
        apart-has p (prev_of rows x) ps out,
      )

pub unlink-Links :
    {rows : Rows} {prev p : ℕ} {ps : List ℕ} (x : ℕ)
    → Links rows prev p ps
    → ((prev == 0) || apart prev ps) ≡ true
    → has x ps ≡ true
    → Links (unlink rows x) prev (if x == p then next_of rows x else p) (without x ps)
unlink-Links x nil before m = absurd (unfold has in ground arith)
unlink-Links {rows} x (cons {prev} {p} {q} {ps} nz n b out rest) before m = elim (ℕ_discrete x p) [
  | yes e ↦
      let gone : without x (p ∷ ps) ≡ ps = unfold without in ground (arith, e) in
      let left : (if x == p then next_of rows x else p) ≡ q = ground (arith, e, n) in
      let here : ((prev == 0) || apart prev ps) ≡ true = unfold apart in ground (arith, before) in
      rw (gone, left, e) (unlink-first nz n b out here rest)
  | no ne ↦
      let there : has x ps ≡ true = unfold has in ground (arith, m, ne) in
      let gone : without x (p ∷ ps) ≡ p ∷ without x ps = unfold without in ground (arith, ne) in
      let left : (if x == p then next_of rows x else p) ≡ p = ground (arith, ne) in
      let far : (leb (p + 32) x || leb (x + 32) p) ≡ true = apart-has p x ps out there in
      rw (gone, left)
        (cons {prev = prev} {q = if x == q then next_of rows x else q} nz
          (next_kept x nz n far there out rest) (prev_kept x b far there out rest)
          (apart-without p x ps out) (unlink-Links x rest (ground (arith, out)) there))
]

pub unlink-agree :
    {rows : Rows} {p : ℕ} {ps : List ℕ} (x a : ℕ)
    → Links rows 0 p ps
    → has x ps ≡ true
    → misses a ps ≡ true
    → unlink rows x a ≡ rows a
unlink-agree {rows} {p} {ps} x a links m out =
    unlink-away rows x a (ground (arith, misses-has a x ps out m))
      (ground (arith, misses-has a x ps out m))
      (ground (arith, prev-has x links m, misses-has a (prev_of rows x) ps out))
      (ground (arith, next-has x links m, misses-has a (next_of rows x) ps out))
