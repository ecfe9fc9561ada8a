-- ===== src/Cipher/Polybius/Cover.antt =====
-- The characters in the Polybius table of hw1/src/hw1.c when there is a key.
use native.Mathlib.Decide.{ℕ_discrete}
use cse320_projects.Common.{
  ℕ, ◌-◌, ◌*◌, ◌<◌, ◌≡◌, refl, ◌∙◌, ap, inl, inr, Bool-cases, Bool, true, false, ◌||◌, some, List,
  [], ◌∷◌, ◌++◌, arith, if◌then◌else◌, get_or, length, length-append, length-replicate,
}
use cse320_projects.Cipher.Strings.{is_char_in_alphabet, repeats, is_legal_in_alphabet}
use cse320_projects.Cipher.Constants.{polybius_alphabet, initial_table}
use cse320_projects.Cipher.Polybius.{
  Filled, is_char_in_key, copy_key, copy_rest, keyed_table, construct_table, get_index_in_table,
  encrypt_loop, emit, is_blank, cipher_pe, row_of, col_of,
}
use cse320_projects.Cipher.Polybius.Table.{codes-below, is_char_in_key-alphabet, size_bound}
use cse320_projects.Cipher.Polybius.Writes.{
  kept, length-kept, copy_rest-kept, copy_key-append, copy_key-i, copy_key-at, clear_rest-below,
  get_index_loop-finds,
}

pub is_char_in_alphabet-append :
    (c : ℕ) (xs ys : List ℕ)
    → is_char_in_alphabet c (xs ++ ys) ≡ (is_char_in_alphabet c xs || is_char_in_alphabet c ys)
unfolding is_char_in_alphabet
is_char_in_alphabet-append c [] ys = refl
is_char_in_alphabet-append c (x ∷ xs) ys = ground (arith, is_char_in_alphabet-append c xs ys)

-- The copied characters are those of the alphabet that the key lacks.
pub is_char_in_alphabet-kept :
    (c : ℕ) (key alphabet : List ℕ)
    → is_char_in_alphabet c (kept key alphabet)
      ≡ (if is_char_in_key key c then false else is_char_in_alphabet c alphabet)
unfolding kept is_char_in_alphabet
is_char_in_alphabet-kept c key [] = ground arith
is_char_in_alphabet-kept c key (x ∷ alphabet) = elim (ℕ_discrete c x) [
  | yes e ↦ ground (arith, e, is_char_in_alphabet-kept c key alphabet)
  | no e ↦ ground (arith, e, is_char_in_alphabet-kept c key alphabet)
]

-- A legal key holds no '\0'.
pub legal-clean :
    (key alphabet : List ℕ)
    → is_char_in_alphabet 0 alphabet ≡ false
    → is_legal_in_alphabet key alphabet ≡ true
    → is_char_in_alphabet 0 key ≡ false
unfolding is_legal_in_alphabet is_char_in_alphabet
legal-clean [] alphabet clean legal = refl
legal-clean (c ∷ key) alphabet clean legal = elim (ℕ_discrete 0 c) [
  | yes e ↦ absurd (ground (arith, e, clean, legal))
  | no e ↦ ground (arith, e, legal-clean key alphabet clean (ground (arith, legal)))
]

module _ (key : List ℕ) (distinct : repeats key ≡ false)
    (legal : is_legal_in_alphabet key polybius_alphabet ≡ true) where
  pub symbols : List ℕ
  symbols = key ++ kept key polybius_alphabet

  pub length-symbols : length symbols ≡ 94
  unfolding symbols
  length-symbols = omega (
    arith,
    length-append key (kept key polybius_alphabet),
    length-kept key polybius_alphabet,
    size_bound key 33 94 distinct legal,
  )

  pub keyed_table-at :
      (total k : ℕ)
      → k < length symbols
      → get_or (keyed_table key total initial_table) k 0 ≡ get_or symbols k 0
  unfolding symbols keyed_table
  keyed_table-at total k within =
      let start : Filled = record { table = initial_table; i = 0 } in
      let filled : Filled = copy_rest key polybius_alphabet (copy_key key start) in
      let e : filled ≡ copy_key symbols start =
        copy_rest-kept key polybius_alphabet (copy_key key start)
        ∙ copy_key-append key (kept key polybius_alphabet) start in
      let behind : filled.i ≡ 94 =
        ap (λ self. self.i) e ∙ omega (arith, copy_key-i symbols start, length-symbols) in
      clear_rest-below (total - filled.i) filled.i filled.table k 0
        (omega (arith, behind, length-symbols))
      ∙ ap (λ self. get_or self.table k 0) e
      ∙ copy_key-at symbols start k k 0
          (omega (arith, length-symbols, length-replicate {A = ℕ} 257 0)) within (omega arith)

  pub symbols-clean : is_char_in_alphabet 0 symbols ≡ false
  unfolding symbols
  symbols-clean = ground (
    arith,
    is_char_in_alphabet-append 0 key (kept key polybius_alphabet),
    is_char_in_alphabet-kept 0 key polybius_alphabet,
    codes-below 0 33 94 (omega arith),
    legal-clean key polybius_alphabet (codes-below 0 33 94 (omega arith)) legal,
  )

  pub symbols-all :
      (c : ℕ)
      → is_char_in_alphabet c polybius_alphabet ≡ true
      → is_char_in_alphabet c symbols ≡ true
  unfolding symbols
  symbols-all c there = ground (
    arith,
    there,
    is_char_in_alphabet-append c key (kept key polybius_alphabet),
    is_char_in_alphabet-kept c key polybius_alphabet,
    is_char_in_key-alphabet c key,
  )

  pub get_index_in_table-finds :
      (total c : ℕ)
      → is_char_in_alphabet c polybius_alphabet ≡ true
      → (j : ℕ) × (get_index_in_table c (keyed_table key total initial_table) ≡ some j)
  unfolding get_index_in_table
  get_index_in_table-finds total c there =
      get_index_loop-finds c symbols (keyed_table key total initial_table) 0 (symbols-all c there)
        symbols-clean (keyed_table-at total)

-- Every character is a blank or one of the alphabet.
unfoldable pub is_text : List ℕ → Bool
is_text [] = true
is_text (c ∷ input) =
    let rest = is_text input in
    if is_blank c || is_char_in_alphabet c polybius_alphabet then rest else false

pub encrypt_loop-success :
    (table : List ℕ) (col : ℕ) (input : List ℕ)
    → ((c : ℕ)
        → is_char_in_alphabet c polybius_alphabet ≡ true
        → (j : ℕ) × (get_index_in_table c table ≡ some j))
    → is_text input ≡ true
    → (encrypt_loop table col input).success ≡ true
unfolding encrypt_loop is_text emit get_index_in_table
encrypt_loop-success table col [] finds text = refl
encrypt_loop-success table col (c ∷ input) finds text = elim (Bool-cases (is_blank c)) [
  | inl e ↦ ground (arith, e, text, encrypt_loop-success table col input finds)
  | inr e ↦
      let there : is_char_in_alphabet c polybius_alphabet ≡ true = ground (arith, e, text) in
      let text' : is_text input ≡ true = ground (arith, e, there, text) in
      let (j, found) = finds c there in
      ground (arith, e, found, encrypt_loop-success table col input finds text')
]

-- With a key that repeats no character and stays in the alphabet, `cipher_pe` encrypts in full
-- every text of characters of the alphabet and blanks, for every mode with at least one column.
pub cipher_pe-success :
    (beyond : ℕ → ℕ) (key : List ℕ) (mode : ℕ) (input : List ℕ)
    → repeats key ≡ false
    → is_legal_in_alphabet key polybius_alphabet ≡ true
    → is_text input ≡ true
    → 0 < col_of mode
    → (cipher_pe beyond (some key) mode input).success ≡ true
unfolding cipher_pe construct_table
cipher_pe-success beyond key mode input distinct legal text columns =
    encrypt_loop-success _ (col_of mode) input
      (get_index_in_table-finds key distinct legal (row_of mode * col_of mode)) text
