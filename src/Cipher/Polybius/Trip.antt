-- ===== src/Cipher/Polybius/Trip.antt =====
-- `cipher_pd` of hw1/src/hw1.c after `cipher_pe`.
use native.Mathlib.Nat.{div-lt_iff_lt-mul, mod-lt}
use cse320_projects.Common.{
  ℕ, ◌*◌, ◌/◌, ◌%◌, ◌≤◌, ◌<◌, ◌≡◌, refl, sym, ◌∙◌, ap, inl, inr, Bool-cases, Option-cases, true,
  false, Option, none, some, List, [], ◌∷◌, arith, ◌==◌, get_or,
}
use cse320_projects.Cipher.Polybius.{
  get_index_in_table, int_to_char, is_blank, next_row, decrypted, decrypt_loop, encrypt_loop, emit,
  cipher_pe, cipher_pd, cal_Index, char_to_Index, row_of, col_of,
}
use cse320_projects.Cipher.Polybius.Symbols.{
  char_to_Index-int_to_char, int_to_char-visible, cal_Index-divmod, get_index_loop-found,
}
use cse320_projects.Cipher.Polybius.Table.{Clear, Legal, construct_table-Clear}

module _ (outside : ℕ → ℕ) (table : List ℕ) (col : ℕ) (some_columns : 6 ≤ col)
    (few_columns : col < 16) (clear : Clear 94 table) where
  pub pair_byte : ℕ → ℕ → ℕ
  pair_byte r c =
      let index = cal_Index (char_to_Index r) (char_to_Index c) col in
      get_or table index (outside index)

  pub decrypt_loop-blank :
      (c : ℕ) (input : List ℕ)
      → is_blank c ≡ true
      → decrypt_loop outside table col 0 (c ∷ input) ≡ c ∷ decrypt_loop outside table col 0 input
  unfolding decrypt_loop next_row decrypted is_blank
  decrypt_loop-blank c input blank = ground (arith, blank)

  -- The first symbol of a pair waits, and the second one ends it.
  pub decrypt_loop-first :
      (r : ℕ) (input : List ℕ)
      → is_blank r ≡ false
      → decrypt_loop outside table col 0 (r ∷ input) ≡ decrypt_loop outside table col r input
  unfolding decrypt_loop next_row decrypted is_blank
  decrypt_loop-first r input shown = ground (arith, shown)

  pub decrypt_loop-second :
      (r c : ℕ) (input : List ℕ)
      → is_blank c ≡ false
      → (r == 0) ≡ false
      → (c == 0) ≡ false
      → (x : ℕ) → pair_byte r c ≡ x
      → decrypt_loop outside table col r (c ∷ input) ≡ x ∷ decrypt_loop outside table col 0 input
  unfolding decrypt_loop next_row decrypted pair_byte is_blank
  decrypt_loop-second r c input shown r_nz c_nz x e = ground (arith, shown, r_nz, c_nz, e)

  pub decrypt_loop-pair :
      (c index : ℕ) (input : List ℕ)
      → get_index_in_table c table ≡ some index
      → decrypt_loop outside table col 0
          (int_to_char (index / col) ∷ int_to_char (index % col) ∷ input)
        ≡ c ∷ decrypt_loop outside table col 0 input
  unfolding get_index_in_table Clear pair_byte
  decrypt_loop-pair c index input found =
      let (k, e, below, at) = get_index_loop-found c table 0 index 94 found clear in
      let index_k : index ≡ k = omega arith in
      let row : index / col < 16 = (div-lt_iff_lt-mul (omega arith)).1 (omega arith) in
      let column : index % col < 16 = omega (arith, mod-lt index {m = col} (omega arith)) in
      let (shown, nz) = int_to_char-visible _ row in
      let (shown', nz') = int_to_char-visible _ column in
      let at_index : cal_Index (char_to_Index (int_to_char (index / col)))
            (char_to_Index (int_to_char (index % col))) col
          ≡ index =
        rw (char_to_Index-int_to_char _ row, char_to_Index-int_to_char _ column)
          (cal_Index-divmod index col (omega arith) (omega arith)) in
      let byte : get_or table index (outside index) ≡ c = rw index_k (at (outside k)) in
      decrypt_loop-first _ _ shown
      ∙ decrypt_loop-second _ _ input shown' nz nz' c (rw at_index byte)

  pub encrypt_loop-blank :
      (c : ℕ) (input : List ℕ)
      → is_blank c ≡ true
      → encrypt_loop table col (c ∷ input) ≡ emit c (encrypt_loop table col input)
  unfolding encrypt_loop
  encrypt_loop-blank c input blank = cc (blank)

  pub encrypt_loop-missing :
      (c : ℕ) (input : List ℕ)
      → is_blank c ≡ false
      → get_index_in_table c table ≡ none
      → (encrypt_loop table col (c ∷ input)).success ≡ false
  unfolding encrypt_loop get_index_in_table
  encrypt_loop-missing c input shown missing = ground (arith, shown, missing)

  pub encrypt_loop-pair :
      (c index : ℕ) (input : List ℕ)
      → is_blank c ≡ false
      → get_index_in_table c table ≡ some index
      → encrypt_loop table col (c ∷ input)
        ≡ emit
            (int_to_char (index / col))
            (emit (int_to_char (index % col)) (encrypt_loop table col input))
  unfolding encrypt_loop get_index_in_table
  encrypt_loop-pair c index input shown found = ground (arith, shown, found)

  pub decrypt_loop-encrypt_loop :
      (input : List ℕ)
      → (encrypt_loop table col input).success ≡ true
      → decrypt_loop outside table col 0 (encrypt_loop table col input).text ≡ input
  unfolding emit
  decrypt_loop-encrypt_loop [] success = unfold decrypt_loop encrypt_loop in refl
  decrypt_loop-encrypt_loop (c ∷ input) success = elim (Bool-cases (is_blank c)) [
    | inl blank ↦
        let e = encrypt_loop-blank c input blank in
        rw e (
          decrypt_loop-blank c _ blank
          ∙ ap (λ s. c ∷ s)
              (decrypt_loop-encrypt_loop input (sym (ap (λ out. out.success) e) ∙ success)))
    | inr shown ↦ elim (Option-cases (get_index_in_table c table)) [
      | inl missing ↦ absurd (cc (success, encrypt_loop-missing c input shown missing))
      | inr (index, found) ↦
          let e = encrypt_loop-pair c index input shown found in
          rw e (
            decrypt_loop-pair c index _ found
            ∙ ap (λ s. c ∷ s)
                (decrypt_loop-encrypt_loop input (sym (ap (λ out. out.success) e) ∙ success)))
    ]
  ]

-- For a legal key or none and 6 to 15 columns, `cipher_pd` undoes what `cipher_pe` encrypts in
-- full, whatever lies behind the alphabet and the table.
pub cipher_pd-cipher_pe :
    (beyond outside : ℕ → ℕ) (key : Option (List ℕ)) (mode mode' : ℕ) (input : List ℕ)
    → Legal key
    → 6 ≤ col_of mode
    → col_of mode < 16
    → row_of mode' ≡ row_of mode
    → col_of mode' ≡ col_of mode
    → (cipher_pe beyond key mode input).success ≡ true
    → (cipher_pd beyond outside key mode' (cipher_pe beyond key mode input).text).text ≡ input
unfolding cipher_pe cipher_pd
cipher_pd-cipher_pe beyond outside key mode mode' input legal some_columns few_columns rows columns
      success =
    rw (rows, columns)
      (decrypt_loop-encrypt_loop outside _ (col_of mode) some_columns few_columns
        (construct_table-Clear beyond key (row_of mode * col_of mode) legal) input success)
