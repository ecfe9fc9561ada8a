-- ===== src/Allocator/FreeList.antt =====
-- A free list of hw3/src/sfmm.c as a list of addresses.
use cse320_projects.Common.{
  ℕ, ◌+◌, ◌≡◌, refl, ◌∙◌, ◌≢◌, Bool, true, false, not, ◌&&◌, ◌||◌, List, [], ◌∷◌, arith, leb, ◌==◌,
  if◌then◌else◌,
}
use cse320_projects.Allocator.{Rows, write, next_of, prev_of, link}

unfoldable pub has : ℕ → List ℕ → Bool
has a [] = false
has a (p ∷ ps) = (a == p) || has a ps

-- The 32 bytes from `p` on do not meet those from any of the addresses on.
unfoldable pub apart : ℕ → List ℕ → Bool
apart p [] = true
apart p (q ∷ qs) = (leb (p + 32) q || leb (q + 32) p) && apart p qs

-- The row is no link of any of the blocks.
unfoldable pub misses : ℕ → List ℕ → Bool
misses a [] = true
misses a (p ∷ ps) = not (a == p + 8) && not (a == p + 16) && misses a ps

-- From `p` on, behind `prev`, the links lead through `ps` and back.
pub data Links (rows : Rows) : ℕ → ℕ → List ℕ → Type 0 where
  nil : {prev : ℕ} → Links rows prev 0 []
  cons :
      {prev p q : ℕ} {ps : List ℕ}
      → p ≢ 0
      → next_of rows p ≡ q
      → prev_of rows p ≡ prev
      → apart p ps ≡ true
      → Links rows p q ps
      → Links rows prev p (p ∷ ps)

pub misses-next : (p : ℕ) (qs : List ℕ) → apart p qs ≡ true → misses (p + 8) qs ≡ true
unfolding apart misses
misses-next p [] h = refl
misses-next p (q ∷ qs) h = ground (arith, misses-next p qs)

pub misses-prev : (p : ℕ) (qs : List ℕ) → apart p qs ≡ true → misses (p + 16) qs ≡ true
unfolding apart misses
misses-prev p [] h = refl
misses-prev p (q ∷ qs) h = ground (arith, misses-prev p qs)

-- A list survives a change of rows that are none of its links.
pub Links-agree :
    {rows : Rows} {prev p : ℕ} {ps : List ℕ} (rows' : Rows)
    → Links rows prev p ps
    → ((a : ℕ) → misses a ps ≡ false → rows' a ≡ rows a)
    → Links rows' prev p ps
Links-agree rows' nil same = nil
Links-agree rows' (cons {prev} {p} {q} {ps} nz n b out rest) same =
    cons nz (same (p + 8) (unfold misses in ground arith) ∙ n)
      (same (p + 16) (unfold misses in ground arith) ∙ b) out
      (Links-agree rows' rest (λ a h. same a (unfold misses in ground arith)))

pub link-Links :
    {rows : Rows} {head : ℕ} {ps : List ℕ} (p : ℕ)
    → Links rows 0 head ps
    → p ≢ 0
    → apart p ps ≡ true
    → Links (link rows p head) 0 p (p ∷ ps)
link-Links p nil nz out =
    cons {prev = 0} {q = 0} nz (unfold link write in ground arith)
      (unfold link write in ground arith) out nil
link-Links {rows} p (cons {prev} {p = h} {q} {ps} nz_h n b out_h rest) nz out =
    cons {prev = 0} {q = h} nz (unfold link write in ground arith)
      (unfold link write in ground arith) out
      (cons {prev = p} {q = q} nz_h (unfold link write apart in ground (arith, n))
        (unfold link write apart in ground arith) out_h
        (Links-agree (link rows p h) rest λ a hit.
          unfold link write apart in
          ground (arith, hit, misses-next p ps, misses-prev p ps, misses-prev h ps, out, out_h)))

-- Rows that are no link keep their value.
pub link-agree :
    (rows : Rows) (p head a : ℕ) (ps : List ℕ)
    → Links rows 0 head ps
    → misses a (p ∷ ps) ≡ true
    → link rows p head a ≡ rows a
unfolding link write misses
link-agree rows p head a [] nil h = ground arith
link-agree rows p head a (q ∷ ps) (cons nz n b out rest) h = ground arith

pub apart-has :
    (p x : ℕ) (ps : List ℕ)
    → apart p ps ≡ true
    → has x ps ≡ true
    → (leb (p + 32) x || leb (x + 32) p) ≡ true
unfolding apart has
apart-has p x [] h m = ground arith
apart-has p x (q ∷ qs) h m = ground (arith, apart-has p x qs)

pub apart-misses : (q : ℕ) (ps : List ℕ) → apart q ps ≡ true → misses q ps ≡ true
unfolding apart misses
apart-misses q [] h = refl
apart-misses q (p ∷ ps) h = ground (arith, apart-misses q ps)

pub misses-has :
    (a m : ℕ) (ps : List ℕ)
    → misses a ps ≡ true
    → has m ps ≡ true
    → (not (a == m + 8) && not (a == m + 16)) ≡ true
unfolding misses has
misses-has a m [] h e = ground arith
misses-has a m (p ∷ ps) h e = ground (arith, misses-has a m ps)

pub has-nonzero :
    {rows : Rows} {prev p : ℕ} {ps : List ℕ} (x : ℕ)
    → Links rows prev p ps
    → has x ps ≡ true
    → x ≢ 0
unfolding has
has-nonzero x nil m = ground arith
has-nonzero x (cons nz n b out rest) m = ground (arith, has-nonzero x rest)

pub next-has :
    {rows : Rows} {prev p : ℕ} {ps : List ℕ} (x : ℕ)
    → Links rows prev p ps
    → has x ps ≡ true
    → ((next_of rows x == 0) || has (next_of rows x) ps) ≡ true
unfolding has
next-has x nil m = ground arith
next-has x (cons nz n b out nil) m = ground arith
next-has x (cons nz n b out (cons nz' n' b' out' rest)) m =
    ground (arith, next-has x (cons nz' n' b' out' rest))

pub prev-has :
    {rows : Rows} {prev p : ℕ} {ps : List ℕ} (x : ℕ)
    → Links rows prev p ps
    → has x ps ≡ true
    → (if x == p then prev_of rows x == prev else has (prev_of rows x) ps) ≡ true
unfolding has
prev-has x nil m = ground arith
prev-has x (cons nz n b out nil) m = ground arith
prev-has x (cons nz n b out (cons nz' n' b' out' rest)) m =
    ground (arith, prev-has x (cons nz' n' b' out' rest))

-- The header of a block in the list is no link.
pub header-misses :
    {rows : Rows} {prev p : ℕ} {ps : List ℕ} (q : ℕ)
    → Links rows prev p ps
    → has q ps ≡ true
    → misses q ps ≡ true
unfolding misses has
header-misses q nil m = refl
header-misses q (cons {prev} {p} {q = r} {ps} nz n b out rest) m =
    ground (arith, m, header-misses q rest, apart-misses p ps out, apart-has p q ps out)
