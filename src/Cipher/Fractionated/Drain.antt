-- ===== src/Cipher/Fractionated/Drain.antt =====
-- The rounds of the loop over the codes in the buffer of `cipher_fd` of hw1/src/hw1.c.
use cse320_projects.Common.{
  ℕ, suc, ◌+◌, ◌*◌, ◌≤◌, ◌≡◌, refl, sym, ap, ◌∙◌, ◌≢◌, Bool, true, false, ◌&&◌, List, [], ◌∷◌, ◌++◌,
  arith, ltb, ◌==◌, if◌then◌else◌, get_or, drop, length, length-append, inl, inr, Bool-cases,
}
use cse320_projects.Cipher.MorseTables.{x_mark}
use cse320_projects.Cipher.Morse.{get_index_in_morse_table, does_contain_x}
use cse320_projects.Cipher.Fractionated.{
  shift_buffer_back1, shift_buffer_backi, before_x, Decoding, drained, ascii_letter, drain_loop,
}
use cse320_projects.Cipher.Fractionated.Buffer.{
  is_symbol, symbols, buffer_of, holding, buffer_of-get_or, string_in-buffer_of, buffer_size-length,
  get_or-cons, shift_buffer_back-holding, symbols-drop,
}
use cse320_projects.Cipher.Fractionated.Encrypt.{plain_code}
use cse320_projects.Cipher.Fractionated.Line.{runs}
use cse320_projects.Cipher.Fractionated.Decode.{marks}

-- At most six symbols in a row that are no x, `n` of them before the string.
unfoldable pub gaps : ℕ → List ℕ → Bool
gaps n [] = true
gaps n (c ∷ s) =
    let fresh = gaps 0 s in
    let longer = gaps (n + 1) s in if c == x_mark then fresh else ltb n 6 && longer

pub gaps-prefix : (n : ℕ) (s u : List ℕ) → gaps n (s ++ u) ≡ true → gaps n s ≡ true
unfolding gaps
gaps-prefix n [] u h = refl
gaps-prefix n (c ∷ s) u h = ground (arith, h, gaps-prefix 0 s u, gaps-prefix (n + 1) s u)

pub gaps-length : (n : ℕ) (s : List ℕ) → n ≤ 6 → gaps n s ≡ true → length s + n ≤ 7 * marks s + 6
unfolding gaps marks
gaps-length n [] small h = omega (arith, small)
gaps-length n (c ∷ s) small h = elim (Bool-cases (c == x_mark)) [
  | inl e ↦ rw e (omega (arith, small, gaps-length 0 s (omega arith) (ground (arith, e, h))))
  | inr e ↦
      rw e (omega (arith, gaps-length (n + 1) s (ground (arith, e, h)) (ground (arith, e, h))))
]

-- A string with an x is a code, the x, and what stands behind it.
pub split_x :
    (s : List ℕ)
    → does_contain_x s ≡ true
    → symbols s ≡ true
    → (m t : List ℕ) × (s ≡ m ++ x_mark ∷ t) × (plain_code m ≡ true)
unfolding does_contain_x symbols is_symbol plain_code
split_x [] h clean = absurd (cc (h))
split_x (c ∷ s) h clean = elim (Bool-cases (c == x_mark)) [
  | inl e ↦ let is : c ≡ x_mark = ground (arith, e) in ([], s, rw is refl, refl)
  | inr e ↦
      let (m, t, is, plain) = split_x s (ground (arith, e, h)) (ground (arith, clean)) in
      (c ∷ m, t, ap (λ z. c ∷ z) is, ground (arith, e, clean, plain))
]

pub unmarked : (s : List ℕ) → does_contain_x s ≡ false → marks s ≡ 0
unfolding does_contain_x marks
unmarked [] h = refl
unmarked (c ∷ s) h = ground (arith, h, unmarked s)

-- A code, the x behind it, and the rest.
module _ (t : List ℕ) where
  does_contain_x-code : (m : List ℕ) → does_contain_x (m ++ x_mark ∷ t) ≡ true
  unfolding does_contain_x
  does_contain_x-code [] = ground arith
  does_contain_x-code (c ∷ m) = ground (arith, does_contain_x-code m)

  before_x-code : (m u : List ℕ) → plain_code m ≡ true → before_x ((m ++ x_mark ∷ t) ++ u) ≡ m
  unfolding before_x plain_code
  before_x-code [] u plain = ground arith
  before_x-code (c ∷ m) u plain = ground (arith, plain, before_x-code m u)

  drop-code : (m : List ℕ) → drop (length m) (m ++ x_mark ∷ t) ≡ x_mark ∷ t
  unfolding drop
  drop-code [] = refl
  drop-code (c ∷ m) = drop-code m

  pub runs_behind :
      (n : ℕ) (m : List ℕ)
      → plain_code m ≡ true
      → runs n (m ++ x_mark ∷ t) ≡ true
      → (k : ℕ) × (1 ≤ k) × (runs k t ≡ true)
  unfolding runs plain_code
  runs_behind n [] plain h = (n + 1, omega arith, ground (arith, h))
  runs_behind n (c ∷ m) plain h = runs_behind 0 m (ground (arith, plain)) (ground (arith, plain, h))

  pub gaps_behind :
      (n : ℕ) (m : List ℕ) → plain_code m ≡ true → gaps n (m ++ x_mark ∷ t) ≡ true → gaps 0 t ≡ true
  unfolding gaps plain_code
  gaps_behind n [] plain h = ground (arith, h)
  gaps_behind n (c ∷ m) plain h =
      gaps_behind (n + 1) m (ground (arith, plain)) (ground (arith, plain, h))

  pub marks-code : (m : List ℕ) → plain_code m ≡ true → marks (m ++ x_mark ∷ t) ≡ marks t + 1
  unfolding marks plain_code
  marks-code [] plain = ground arith
  marks-code (c ∷ m) plain = ground (arith, plain, marks-code m)

  pub symbols_behind : (m : List ℕ) → symbols (m ++ x_mark ∷ t) ≡ true → symbols t ≡ true
  unfolding symbols
  symbols_behind [] h = ground (arith, h)
  symbols_behind (c ∷ m) h = symbols_behind m (ground (arith, h))

-- The loop on a buffer that holds a string.
abbrev pub at : List ℕ → ℕ → Decoding
at s char1 = record { filling = holding s; char1 = char1 }

first_is_symbol : (c : ℕ) (s : List ℕ) → symbols (c ∷ s) ≡ true → (c == 0) ≡ false
unfolding symbols is_symbol
first_is_symbol c s h = ground (arith, h)

backi_holding :
    (a : ℕ) (s : List ℕ)
    → a ≤ 257
    → length s ≤ 257
    → length s ≢ 0
    → symbols s ≡ true
    → shift_buffer_backi (buffer_of s) a ≡ holding (drop a s)
unfolding shift_buffer_backi
backi_holding a [] small fits full clean = absurd (full refl)
backi_holding a (c ∷ s) small fits full clean =
    rw (buffer_of-get_or (c ∷ s) 0, get_or-cons c s 0, first_is_symbol c s clean)
      (shift_buffer_back-holding a (c ∷ s) small fits clean)

pub drain_none :
    (n char1 : ℕ) (s : List ℕ)
    → symbols s ≡ true
    → does_contain_x s ≡ false
    → drain_loop (suc n) (at s char1) ≡ drained [] (at s char1)
unfolding drain_loop
drain_none n char1 s clean h = rw (string_in-buffer_of s clean, h) refl

pub drain_space :
    (n char1 : ℕ) (t : List ℕ)
    → length (x_mark ∷ t) ≤ 257
    → symbols (x_mark ∷ t) ≡ true
    → (char1 == x_mark) ≡ true
    → drain_loop (suc n) (at (x_mark ∷ t) char1) ≡ drained (32 ∷ []) (at t char1)
unfolding drain_loop shift_buffer_back1
drain_space n char1 t fits clean again =
    let same : (x_mark == char1) ≡ true = ground (arith, again) in
    rw
      (
        string_in-buffer_of (x_mark ∷ t) clean,
        does_contain_x-code t [],
        buffer_of-get_or (x_mark ∷ t) 0,
        get_or-cons x_mark t 0,
        same,
        shift_buffer_back-holding 1 (x_mark ∷ t) (omega arith) fits clean,
      )
      (unfold drop in refl)

code_head :
    (m t : List ℕ) (char1 : ℕ)
    → plain_code m ≡ true
    → (length m == 0 && char1 == x_mark) ≡ false
    → (get_or (m ++ x_mark ∷ t) 0 0 == x_mark && get_or (m ++ x_mark ∷ t) 0 0 == char1) ≡ false
unfolding plain_code get_or
code_head [] t char1 plain other = ground (arith, other)
code_head (c ∷ m) t char1 plain other = ground (arith, plain)

pub drain_end :
    (n char1 : ℕ) (m t : List ℕ)
    → length (m ++ x_mark ∷ t) ≤ 257
    → symbols (m ++ x_mark ∷ t) ≡ true
    → plain_code m ≡ true
    → (length m == 0 && char1 == x_mark) ≡ false
    → drain_loop (suc n) (at (m ++ x_mark ∷ t) char1) ≡ (
        if length m == 0
        then drain_loop n (at t x_mark)
        else ascii_letter (get_index_in_morse_table m) (drain_loop n (at t x_mark)))
unfolding drain_loop shift_buffer_back1
drain_end n char1 m t fits clean plain other =
    let s = m ++ x_mark ∷ t in
    let code : before_x (buffer_of s) ≡ m = unfold buffer_of in before_x-code t m _ plain in
    let size = length-append m (x_mark ∷ t) in
    let cut : shift_buffer_backi (buffer_of s) (length m) ≡ holding (x_mark ∷ t) =
      backi_holding (length m) s (omega (arith, fits, size)) fits (omega (arith, size)) clean
      ∙ ap holding (drop-code t m) in
    let back =
      shift_buffer_back-holding 1 (x_mark ∷ t) (omega arith) (omega (arith, fits, size))
        (ap symbols (sym (drop-code t m)) ∙ symbols-drop (length m) s clean) in
    let head : (get_or s 0 0 == x_mark && get_or s 0 0 == char1) ≡ false =
      code_head m t char1 plain other in
    rw
      (
        string_in-buffer_of s clean,
        does_contain_x-code t m,
        buffer_of-get_or s 0,
        head,
        code,
        buffer_size-length m,
        cut,
        back,
      )
      (unfold drop in refl)
