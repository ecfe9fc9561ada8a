-- ===== src/Cipher/Fractionated/Encrypt.antt =====
-- What `cipher_fe` of hw1/src/hw1.c makes of a line of text.
use mathlib.Core.List.{append_assoc}
use cse320_projects.Common.{
  ℕ, ◌-◌, ◌^◌, ◌≤◌, ◌≡◌, refl, sym, ap, ◌∙◌, ◌≢◌, Bool, true, false, not, ◌&&◌, ◌||◌, Option, none,
  some, List, [], ◌∷◌, ◌++◌, arith, leb, ◌==◌, if◌then◌else◌, get_or, length, length-append, passes,
  passes_at, inl, inr, Bool-cases,
}
use cse320_projects.Cipher.MorseTables.{x_mark, dot, dash, morse_table}
use cse320_projects.Cipher.Strings.{is_char_in_alphabet, char_value}
use cse320_projects.Cipher.Polybius.{Output, is_blank}
use cse320_projects.Cipher.Morse.{get_morse_table_index}
use cse320_projects.Cipher.Fractionated.{
  string_in, next, morsed_at, encode_round, blank_round, next_char1, prefixed, lead, flush_loop,
  add_to_buffer,
}
use cse320_projects.Cipher.Fractionated.Buffer.{is_symbol, symbols, holding, add_to_buffer-holding}
use cse320_projects.Cipher.Fractionated.Triples.{letters, left, triples_ok, flush_loop-letters}

-- The code of a character, and whether it has one.
unfoldable pub code_of : ℕ → List ℕ
code_of c = get_or morse_table (c - 33) []

unfoldable pub encodable : ℕ → Bool
encodable c = leb 33 c && leb c 122 && not (length (code_of c) == 0)

-- Codes are dots and dashes, at most six.
unfoldable pub plain_code : List ℕ → Bool
plain_code [] = true
plain_code (c ∷ s) = (c == dot || c == dash) && plain_code s

code_ok : ℕ → Bool
code_ok i = plain_code (get_or morse_table i []) && leb (length (get_or morse_table i [])) 6

codes_all : passes code_ok 90 ≡ true
unfolding passes code_ok plain_code get_or morse_table
codes_all = refl

pub code_of-IsPlain :
    (c : ℕ) → encodable c ≡ true → (plain_code (code_of c) ≡ true) × (length (code_of c) ≤ 6)
unfolding encodable
code_of-IsPlain c h =
    let ok : code_ok (c - 33) ≡ true =
      passes_at code_ok 90 codes_all (c - 33) (ground (arith, h)) in
    (unfold code_ok code_of in ground (arith, ok), unfold code_ok code_of in ground (arith, ok))

pub symbols-plain : (s : List ℕ) → plain_code s ≡ true → symbols s ≡ true
unfolding symbols is_symbol plain_code
symbols-plain [] h = refl
symbols-plain (c ∷ s) h = ground (arith, h, symbols-plain s)

pub symbols-append : (s t : List ℕ) → symbols (s ++ t) ≡ (symbols s && symbols t)
unfolding symbols
symbols-append [] t = refl
symbols-append (c ∷ s) t = ground (arith, symbols-append s t)

-- The symbols that a character adds.
unfoldable pub piece : List ℕ → ℕ → ℕ → List ℕ
piece fm_key char1 c =
    if is_blank c
    then (if is_char_in_alphabet char1 (string_in fm_key) then x_mark ∷ [] else [])
    else code_of c ++ x_mark ∷ []

-- The symbols of a text behind the character `char1`.
unfoldable pub stream : List ℕ → ℕ → List ℕ → List ℕ
stream fm_key char1 [] = []
stream fm_key char1 (c ∷ line) =
    piece fm_key char1 c ++ stream fm_key (next_char1 fm_key char1 c) line

unfoldable pub last_char1 : List ℕ → ℕ → List ℕ → ℕ
last_char1 fm_key char1 [] = char1
last_char1 fm_key char1 (c ∷ line) = last_char1 fm_key (next_char1 fm_key char1 c) line

-- Spaces, tabs, and characters that have a code.
unfoldable pub plain_line : List ℕ → Bool
plain_line [] = true
plain_line (c ∷ line) = (c == 32 || c == 9 || encodable c) && plain_line line

pub lead-nil : (o : Option Output) → lead [] o ≡ o
unfolding lead prefixed
lead-nil none = refl
lead-nil (some out) = refl

pub lead-lead : (s t : List ℕ) (o : Option Output) → lead s (lead t o) ≡ lead (s ++ t) o
unfolding lead prefixed
lead-lead s t none = refl
lead-lead s t (some out) = rw (append_assoc s t out.text) refl

pub letters_short : (fm_key s : List ℕ) → length s ≤ 2 → letters fm_key s ≡ []
unfolding letters
letters_short fm_key [] h = refl
letters_short fm_key (a ∷ []) h = refl
letters_short fm_key (a ∷ b ∷ []) h = refl
letters_short fm_key (a ∷ b ∷ c ∷ s) h = absurd (omega (arith, h))

pub left_short : (s : List ℕ) → length s ≤ 2 → left s ≡ s
unfolding left
left_short [] h = refl
left_short (a ∷ []) h = refl
left_short (a ∷ b ∷ []) h = refl
left_short (a ∷ b ∷ c ∷ s) h = absurd (omega (arith, h))

pub append_nil : (s : List ℕ) → s ++ [] ≡ s
append_nil [] = refl
append_nil (c ∷ s) = ap (λ z. c ∷ z) (append_nil s)

-- A round with less than three symbols in the buffer.
module _ (behind : ℕ → List ℕ) (fm_key s : List ℕ) (short : length s ≤ 2)
    (clean : symbols s ≡ true) where
  flush_piece :
      (m : List ℕ)
      → length m ≤ 7
      → symbols m ≡ true
      → triples_ok (s ++ m) ≡ true
      → flush_loop 257 fm_key (holding (s ++ m))
        ≡ next (letters fm_key (s ++ m)) (holding (left (s ++ m)))
  flush_piece m small clean' ok =
      flush_loop-letters 257 fm_key (s ++ m) (omega (arith, length-append s m, short, small))
        (omega (arith, length-append s m, short, small))
        (symbols-append s m ∙ rw (clean, clean') refl) ok

  pub encode_round-letters :
      (c : ℕ)
      → encodable c ≡ true
      → triples_ok (s ++ (code_of c ++ x_mark ∷ [])) ≡ true
      → (let t = s ++ (code_of c ++ x_mark ∷ []) in
          encode_round behind fm_key c (holding s) ≡ next (letters fm_key t) (holding (left t)))
  encode_round-letters c h ok =
      let (plain, small) = code_of-IsPlain c h in
      let index : get_morse_table_index c ≡ c - 33 =
        unfold get_morse_table_index char_value encodable in ground (arith, h) in
      let positive : leb (2 ^ 31) (c - 33) ≡ false = unfold encodable in ground (arith, h) in
      let there : morsed_at behind (c - 33) ≡ code_of c =
        unfold morsed_at code_of encodable in ground (arith, h) in
      let some_code : (length (code_of c) == 0) ≡ false = unfold encodable in ground (arith, h) in
      let added : add_to_buffer (x_mark ∷ []) (add_to_buffer (code_of c) (holding s))
          ≡ holding (s ++ (code_of c ++ x_mark ∷ [])) =
        ap (add_to_buffer (x_mark ∷ []))
          (add_to_buffer-holding s (code_of c) (omega (arith, short, small)))
        ∙ add_to_buffer-holding (s ++ code_of c) (x_mark ∷ [])
            (omega (arith, length-append s (code_of c), short, small))
        ∙ ap holding (append_assoc s (code_of c) (x_mark ∷ [])) in
      let clean' : symbols (code_of c ++ x_mark ∷ []) ≡ true =
        symbols-append (code_of c) (x_mark ∷ [])
        ∙ rw (symbols-plain (code_of c) plain) (unfold symbols is_symbol in refl) in
      unfold encode_round in
      rw (index, positive, there, some_code, added)
        (flush_piece (code_of c ++ x_mark ∷ [])
          (omega (arith, length-append (code_of c) (x_mark ∷ []), small)) clean' ok)

  pub blank_round-letters :
      (char1 c : ℕ)
      → c ≢ 10
      → is_blank c ≡ true
      → triples_ok (s ++ piece fm_key char1 c) ≡ true
      → (let t = s ++ piece fm_key char1 c in
          blank_round fm_key char1 c (holding s) ≡ next (letters fm_key t) (holding (left t)))
  blank_round-letters char1 c ne blank ok =
      let no_newline : (c == 10) ≡ false = ground (arith, ne) in
      elim (Bool-cases (is_char_in_alphabet char1 (string_in fm_key))) [
        | inl e ↦
            let here : piece fm_key char1 c ≡ x_mark ∷ [] = unfold piece in rw (blank, e) refl in
            let added = add_to_buffer-holding s (x_mark ∷ []) (omega (arith, short)) in
            unfold blank_round in
            rw (no_newline, e, here, added)
              (flush_piece (x_mark ∷ []) (omega arith) (unfold symbols is_symbol in refl)
                (ap (λ m. triples_ok (s ++ m)) (sym here) ∙ ok))
        | inr e ↦
            let here : piece fm_key char1 c ≡ [] = unfold piece in rw (blank, e) refl in
            unfold blank_round in
            rw (no_newline, e, here, append_nil s, letters_short fm_key s short, left_short s short)
              refl
      ]
