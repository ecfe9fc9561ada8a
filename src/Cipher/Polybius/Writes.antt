-- ===== src/Cipher/Polybius/Writes.antt =====
-- What the loops of hw1/src/hw1.c that fill the Polybius table write, and what the search finds.
use native.Mathlib.Decide.{ℕ_discrete}
use cse320_projects.Common.{
  ℕ, zero, suc, ◌+◌, ◌≤◌, ◌<◌, ◌≡◌, ◌≢◌, refl, ◌∙◌, ap, inl, inr, Bool-cases, true, false, some,
  List, [], ◌∷◌, ◌++◌, arith, if◌then◌else◌, get_or, set, length, length-set, get_or-set,
}
use cse320_projects.Cipher.Strings.{is_char_in_alphabet}
use cse320_projects.Cipher.Polybius.{
  Filled, is_char_in_key, copy_key, copy_rest, clear_rest, get_index_loop,
}
use cse320_projects.Cipher.Polybius.Table.{rest_size}

-- The characters that `copy_rest` copies.
unfoldable pub kept : List ℕ → List ℕ → List ℕ
kept key [] = []
kept key (c ∷ alphabet) =
    let rest = kept key alphabet in if is_char_in_key key c then rest else c ∷ rest

pub length-kept : (key alphabet : List ℕ) → length (kept key alphabet) ≡ rest_size key alphabet
unfolding kept rest_size
length-kept key [] = refl
length-kept key (c ∷ alphabet) = ground (arith, length-kept key alphabet)

pub copy_rest-kept :
    (key alphabet : List ℕ) (self : Filled)
    → copy_rest key alphabet self ≡ copy_key (kept key alphabet) self
unfolding copy_rest kept copy_key
copy_rest-kept key [] self = refl
copy_rest-kept key (c ∷ alphabet) self = elim (Bool-cases (is_char_in_key key c)) [
  | inl e ↦ rw e (copy_rest-kept key alphabet self)
  | inr e ↦ rw e (
      copy_rest-kept key alphabet (record self { table = set self.table self.i c; i = self.i + 1 }))
]

pub copy_key-append :
    (xs ys : List ℕ) (self : Filled) → copy_key ys (copy_key xs self) ≡ copy_key (xs ++ ys) self
unfolding copy_key
copy_key-append [] ys self = refl
copy_key-append (c ∷ xs) ys self = copy_key-append xs ys _

pub copy_key-i : (xs : List ℕ) (self : Filled) → (copy_key xs self).i ≡ self.i + length xs
unfolding copy_key
copy_key-i [] self = omega arith
copy_key-i (c ∷ xs) self =
    omega (arith, copy_key-i xs (record self { table = set self.table self.i c; i = self.i + 1 }))

pub copy_key-below :
    (xs : List ℕ) (self : Filled) (j d : ℕ)
    → self.i + length xs ≤ length self.table
    → j < self.i
    → get_or (copy_key xs self).table j d ≡ get_or self.table j d
unfolding copy_key
copy_key-below [] self j d room below = refl
copy_key-below (c ∷ xs) self j d room below =
    copy_key-below xs (record self { table = set self.table self.i c; i = self.i + 1 }) j d
      (omega (arith, length-set self.table self.i c)) (omega arith)
    ∙ ground (arith, get_or-set self.table self.i j c d (omega arith))

pub copy_key-at :
    (xs : List ℕ) (self : Filled) (j k d : ℕ)
    → self.i + length xs ≤ length self.table
    → k < length xs
    → j ≡ self.i + k
    → get_or (copy_key xs self).table j d ≡ get_or xs k d
unfolding copy_key get_or
copy_key-at [] self j k d room within at = absurd (omega arith)
copy_key-at (c ∷ xs) self j zero d room within at =
    copy_key-below xs (record self { table = set self.table self.i c; i = self.i + 1 }) j d
      (omega (arith, length-set self.table self.i c)) (omega arith)
    ∙ ground (arith, get_or-set self.table self.i j c d (omega arith))
copy_key-at (c ∷ xs) self j (suc k) d room within at =
    copy_key-at xs (record self { table = set self.table self.i c; i = self.i + 1 }) j k d
      (omega (arith, length-set self.table self.i c)) (omega arith) (omega arith)

pub set-other :
    (table : List ℕ) (i j v d : ℕ) → i ≢ j → get_or (set table i v) j d ≡ get_or table j d
unfolding set get_or
set-other [] i j v d h = refl
set-other (x ∷ table) zero zero v d h = absurd (h refl)
set-other (x ∷ table) zero (suc j) v d h = refl
set-other (x ∷ table) (suc i) zero v d h = refl
set-other (x ∷ table) (suc i) (suc j) v d h = set-other table i j v d (λ e. h (ap suc e))

pub clear_rest-below :
    (n k : ℕ) (table : List ℕ) (j d : ℕ)
    → j < k
    → get_or (clear_rest n k table) j d ≡ get_or table j d
unfolding clear_rest
clear_rest-below zero k table j d below = refl
clear_rest-below (suc n) k table j d below =
    clear_rest-below n (k + 1) (set table k 0) j d (omega arith)
    ∙ set-other table k j 0 d (λ e. omega (arith, e))

-- The search finds a character that stands in the table behind no '\0'.
pub get_index_loop-finds :
    (c : ℕ) (xs table : List ℕ) (i : ℕ)
    → is_char_in_alphabet c xs ≡ true
    → is_char_in_alphabet 0 xs ≡ false
    → ((k : ℕ) → k < length xs → get_or table k 0 ≡ get_or xs k 0)
    → (j : ℕ) × (get_index_loop c table i ≡ some j)
unfolding is_char_in_alphabet get_index_loop get_or
get_index_loop-finds c [] table i there clean agree = absurd (cc (there))
get_index_loop-finds c (x ∷ xs) [] i there clean agree =
    absurd (ground (arith, clean, agree 0 (omega arith)))
get_index_loop-finds c (x ∷ xs) (t ∷ table) i there clean agree = elim (ℕ_discrete c x) [
  | yes e ↦ (i, ground (arith, e, clean, agree 0 (omega arith)))
  | no e ↦
      let (j, found) =
        get_index_loop-finds c xs table (i + 1) (ground (arith, e, there)) (ground (arith, clean))
          (λ k h. agree (suc k) (omega arith)) in
      (j, ground (arith, e, found, clean, agree 0 (omega arith)))
]
