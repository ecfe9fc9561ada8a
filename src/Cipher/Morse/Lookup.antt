-- ===== src/Cipher/Morse/Lookup.antt =====
-- The searches of hw1/src/hw1.c in the Morse tables of hw1/src/const.c.
use mathlib.Core.Path.{subst}
use cse320_projects.Common.{
  passes, passes_at, ℕ, suc, ◌+◌, ◌<◌, ◌≡◌, ◌≢◌, ◌↔◌, refl, sym, Bool, true, false, not, ◌||◌,
  Option, none, some, List, [], ◌∷◌, arith, ◌==◌, get_or, inl, inr, Bool-cases,
}
use cse320_projects.Cipher.Strings.{string_eql, string_eql_loop, buffer_size, buffer_size_loop}
use cse320_projects.Cipher.Strings.Equal.{string_eql_iff}
use cse320_projects.Cipher.MorseTables.{morse_table, fractionated_table}
use cse320_projects.Cipher.Morse.{
  frac_loop, get_frac_table_index, morse_loop, get_index_in_morse_table,
}

pub frac_loop-found :
    (s : List ℕ) (table : List (List ℕ)) (i j : ℕ)
    → frac_loop s table i ≡ some j
    → (k : ℕ) × (j ≡ i + k) × (get_or table k [] ≡ s)
unfolding frac_loop get_or
frac_loop-found s [] i j found = absurd (cc (found))
frac_loop-found s (element ∷ table) i j found = elim (Bool-cases (string_eql element s)) [
  | inl e ↦ (0, ground (arith, e, found), (string_eql_iff element s).0 e)
  | inr e ↦
      let (k, at, is) = frac_loop-found s table (i + 1) j (ground (arith, e, found)) in
      (suc k, omega arith, is)
]

pub morse_loop-found :
    (s : List ℕ) (table : List (List ℕ)) (i j : ℕ)
    → morse_loop s table i ≡ some j
    → (k : ℕ) × (j ≡ i + k) × (get_or table k [] ≡ s) × (s ≢ [])
unfolding morse_loop get_or
morse_loop-found s [] i j found = absurd (cc (found))
morse_loop-found s ([] ∷ table) i j found =
    let (k, at, is, some_code) = morse_loop-found s table (i + 1) j found in
    (suc k, omega arith, is, some_code)
morse_loop-found s ((c ∷ element) ∷ table) i j found =
    elim (Bool-cases (string_eql (c ∷ element) s)) [
      | inl e ↦
          let same = (string_eql_iff (c ∷ element) s).0 e in
          (0, ground (arith, e, found), same, λ none_left. cc (same, none_left))
      | inr e ↦
          let (k, at, is, some_code) =
            morse_loop-found s table (i + 1) j (ground (arith, e, found)) in
          (suc k, omega arith, is, some_code)
    ]

-- Whether a search gives an index.
unfoldable pub gives : Option ℕ → ℕ → Bool
gives none i = false
gives (some j) i = j == i

pub gives-some : (o : Option ℕ) (i : ℕ) → gives o i ≡ true → o ≡ some i
unfolding gives
gives-some none i h = absurd (cc (h))
gives-some (some j) i h = ground (arith, h)

pub frac_all :
    passes (λ i. gives (get_frac_table_index (get_or fractionated_table i [])) i) 26 ≡ true
unfolding passes gives get_frac_table_index frac_loop get_or fractionated_table string_eql
    string_eql_loop buffer_size buffer_size_loop
frac_all = refl

-- A string has index `i` below 26 by `get_frac_table_index` exactly when it stands at `i` in the
-- fractionated table.
pub get_frac_table_index_iff :
    (i : ℕ) (s : List ℕ)
    → i < 26
    → (get_frac_table_index s ≡ some i) ↔ (get_or fractionated_table i [] ≡ s)
get_frac_table_index_iff i s h = (
  λ found.
      (let (k, at, is) =
          frac_loop-found s fractionated_table 0 i (unfold get_frac_table_index in found) in
        let same : i ≡ k = omega (arith, at) in rw same is),
  λ e. rw (sym e) (gives-some _ i (passes_at _ 26 frac_all i h)),
)

-- An element of the Morse table that is no empty string is found.
pub filled : List ℕ → Bool
filled [] = false
filled (c ∷ s) = true

pub filled_of : (s : List ℕ) → s ≢ [] → filled s ≡ true
unfolding filled
filled_of [] h = absurd (h refl)
filled_of (c ∷ s) h = refl

pub morse_found : ℕ → Bool
morse_found i =
    not (filled (get_or morse_table i []))
    || gives (get_index_in_morse_table (get_or morse_table i [])) i

pub morse_all : passes morse_found 90 ≡ true
unfolding passes morse_found gives filled get_index_in_morse_table morse_loop get_or morse_table
    string_eql string_eql_loop buffer_size buffer_size_loop
morse_all = refl

pub or_left : {a b : Bool} → a ≡ true → (not a || b) ≡ true → b ≡ true
or_left {a} {b} h e = ground (arith, h, e)

pub found_code :
    (i : ℕ) (s : List ℕ)
    → get_or morse_table i [] ≡ s
    → filled s ≡ true
    → morse_found i ≡ true
    → gives (get_index_in_morse_table s) i ≡ true
unfolding morse_found
found_code i s e full there =
    subst (λ s. filled s ≡ true → gives (get_index_in_morse_table s) i ≡ true) e
      (λ full. or_left full there) full

-- A Morse code has index `i` below 90 by `get_index_in_morse_table` exactly when it is not empty
-- and stands at `i` in the table.
pub get_index_in_morse_table_iff :
    (i : ℕ) (s : List ℕ)
    → i < 90
    → (get_index_in_morse_table s ≡ some i) ↔ ((get_or morse_table i [] ≡ s) × (s ≢ []))
get_index_in_morse_table_iff i s h = (
  λ found.
      (let (k, at, is, some_code) =
          morse_loop-found s morse_table 0 i (unfold get_index_in_morse_table in found) in
        let same : i ≡ k = omega (arith, at) in (rw same is, some_code)),
  λ (e, some_code).
      let full = filled_of s some_code in
      let there = passes_at morse_found 90 morse_all i h in
      gives-some _ i (found_code i s e full there),
)
