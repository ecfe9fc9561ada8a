-- ===== src/Cipher/Fractionated/Triples.antt =====
-- Symbols in groups of three, and the letters for them in the fractionated table of hw1/src/const.c.
use cse320_projects.Common.{
  ℕ, zero, suc, ◌+◌, ◌*◌, ◌/◌, ◌%◌, ◌≤◌, ◌<◌, ◌≡◌, refl, ap, ◌∙◌, Bool, true, ◌&&◌, some, List, [],
  ◌∷◌, ◌++◌, arith, leb, ltb, ◌==◌, if◌then◌else◌, get_or, drop, length, passes, passes_at,
}
use cse320_projects.Cipher.MorseTables.{x_mark, dot, dash, fractionated_table}
use cse320_projects.Cipher.Strings.{buffer_size, buffer_size_loop, string_eql, string_eql_loop}
use cse320_projects.Cipher.Morse.{get_frac_table_index, frac_loop}
use cse320_projects.Cipher.Morse.Lookup.{gives, gives-some}
use cse320_projects.Cipher.Fractionated.{
  string_in, next, wrote, frac_letter, flush_loop, shift_buffer_back3,
}
use cse320_projects.Cipher.Fractionated.Buffer.{
  is_symbol, symbols, buffer_of, holding, buffer_of-get_or, string_in-buffer_of, buffer_size-length,
  shift_buffer_back-holding,
}

-- The symbols as digits of base 3.
unfoldable pub digit : ℕ → ℕ
digit c = if c == dot then 0 else if c == dash then 1 else 2

unfoldable pub symbol : ℕ → ℕ
symbol d = if d == 0 then dot else if d == 1 then dash else x_mark

-- A group is a number of three digits, and `xxx` has no letter.
unfoldable pub triple : ℕ → ℕ → ℕ → ℕ
triple a b c = digit a * 9 + digit b * 3 + digit c

symbol-digit : (c : ℕ) → is_symbol c ≡ true → symbol (digit c) ≡ c
unfolding is_symbol symbol digit
symbol-digit c h = ground (arith, h)

table_ok : ℕ → Bool
table_ok i =
    gives (get_frac_table_index (symbol (i / 9) ∷ symbol (i / 3 % 3) ∷ symbol (i % 3) ∷ [])) i

table_all : passes table_ok 26 ≡ true
unfolding passes table_ok gives get_frac_table_index frac_loop fractionated_table string_eql
    string_eql_loop buffer_size buffer_size_loop symbol
table_all = refl

pub get_frac_table_index-triple :
    (a b c : ℕ)
    → is_symbol a ≡ true
    → is_symbol b ≡ true
    → is_symbol c ≡ true
    → triple a b c < 26
    → get_frac_table_index (a ∷ b ∷ c ∷ []) ≡ some (triple a b c)
unfolding table_ok
get_frac_table_index-triple a b c ha hb hc lt =
    let small : (d : ℕ) → digit d < 3 = λ d. unfold digit in ground arith in
    let first : triple a b c / 9 ≡ digit a = unfold triple in omega (arith, small b, small c) in
    let second : triple a b c / 3 % 3 ≡ digit b =
      unfold triple in omega (arith, small b, small c) in
    let third : triple a b c % 3 ≡ digit c = unfold triple in omega (arith, small c) in
    let found = gives-some _ _ (passes_at table_ok 26 table_all (triple a b c) lt) in
    ap (λ s. get_frac_table_index s)
      (cc (symbol-digit a ha, symbol-digit b hb, symbol-digit c hc, first, second, third))
    ∙ found

-- The letters for a string of symbols, and the symbols that make no group.
unfoldable pub letters : List ℕ → List ℕ → List ℕ
letters fm_key [] = []
letters fm_key (a ∷ []) = []
letters fm_key (a ∷ b ∷ []) = []
letters fm_key (a ∷ b ∷ c ∷ s) = get_or fm_key (triple a b c) 0 ∷ letters fm_key s

unfoldable pub left : List ℕ → List ℕ
left [] = []
left (a ∷ []) = a ∷ []
left (a ∷ b ∷ []) = a ∷ b ∷ []
left (a ∷ b ∷ c ∷ s) = left s

-- No group is `xxx`.
unfoldable pub triples_ok : List ℕ → Bool
triples_ok [] = true
triples_ok (a ∷ []) = true
triples_ok (a ∷ b ∷ []) = true
triples_ok (a ∷ b ∷ c ∷ s) = ltb (triple a b c) 26 && triples_ok s

module _ (u : List ℕ) where
  pub letters-append :
      (fm_key t : List ℕ)
      → letters fm_key (t ++ u) ≡ letters fm_key t ++ letters fm_key (left t ++ u)
  unfolding letters left
  letters-append fm_key [] = refl
  letters-append fm_key (a ∷ []) = refl
  letters-append fm_key (a ∷ b ∷ []) = refl
  letters-append fm_key (a ∷ b ∷ c ∷ t) =
      ap (λ z. get_or fm_key (triple a b c) 0 ∷ z) (letters-append fm_key t)

  pub left-append : (t : List ℕ) → left (t ++ u) ≡ left (left t ++ u)
  unfolding left
  left-append [] = refl
  left-append (a ∷ []) = refl
  left-append (a ∷ b ∷ []) = refl
  left-append (a ∷ b ∷ c ∷ t) = left-append t

  pub triples_ok-append :
      (t : List ℕ) → triples_ok (t ++ u) ≡ (triples_ok t && triples_ok (left t ++ u))
  unfolding triples_ok left
  triples_ok-append [] = refl
  triples_ok-append (a ∷ []) = refl
  triples_ok-append (a ∷ b ∷ []) = refl
  triples_ok-append (a ∷ b ∷ c ∷ t) = ground (arith, triples_ok-append t)

pub length-left : (t : List ℕ) → length (left t) ≤ 2
unfolding left
length-left [] = omega arith
length-left (a ∷ []) = omega arith
length-left (a ∷ b ∷ []) = omega arith
length-left (a ∷ b ∷ c ∷ t) = length-left t

pub symbols-left : (t : List ℕ) → symbols t ≡ true → symbols (left t) ≡ true
unfolding left symbols
symbols-left [] h = h
symbols-left (a ∷ []) h = h
symbols-left (a ∷ b ∷ []) h = h
symbols-left (a ∷ b ∷ c ∷ t) h = symbols-left t (ground (arith, h))

held_size : (s : List ℕ) → symbols s ≡ true → buffer_size (string_in (buffer_of s)) ≡ length s
held_size s clean = rw (string_in-buffer_of s clean) (buffer_size-length s)

flush_few :
    (n : ℕ) (fm_key s : List ℕ)
    → length s < 3
    → symbols s ≡ true
    → flush_loop (suc n) fm_key (holding s) ≡ next [] (holding s)
unfolding flush_loop
flush_few n fm_key s short clean = rw (held_size s clean) (ground (arith, short))

held_triple :
    (a b c : ℕ) (s : List ℕ)
    → symbols (a ∷ b ∷ c ∷ s) ≡ true
    → (let buffer = buffer_of (a ∷ b ∷ c ∷ s) in
        string_in (get_or buffer 0 0 ∷ get_or buffer 1 0 ∷ get_or buffer 2 0 ∷ 0 ∷ [])
        ≡ a ∷ b ∷ c ∷ [])
unfolding symbols is_symbol
held_triple a b c s clean =
    rw
      (
        buffer_of-get_or (a ∷ b ∷ c ∷ s) 0,
        buffer_of-get_or (a ∷ b ∷ c ∷ s) 1,
        buffer_of-get_or (a ∷ b ∷ c ∷ s) 2,
      )
      (unfold string_in get_or in ground (arith, clean))

flush_more :
    (n : ℕ) (fm_key : List ℕ) (a b c : ℕ) (s : List ℕ)
    → length (a ∷ b ∷ c ∷ s) ≤ 257
    → symbols (a ∷ b ∷ c ∷ s) ≡ true
    → triple a b c < 26
    → flush_loop (suc n) fm_key (holding (a ∷ b ∷ c ∷ s))
      ≡ wrote (get_or fm_key (triple a b c) 0 ∷ []) (flush_loop n fm_key (holding s))
unfolding flush_loop shift_buffer_back3 frac_letter
flush_more n fm_key a b c s fits clean lt =
    let more : leb 3 (length (a ∷ b ∷ c ∷ s)) ≡ true = ground arith in
    let found =
      get_frac_table_index-triple a b c (unfold symbols in ground (arith, clean))
        (unfold symbols in ground (arith, clean)) (unfold symbols in ground (arith, clean)) lt in
    rw
      (
        held_size (a ∷ b ∷ c ∷ s) clean,
        more,
        held_triple a b c s clean,
        found,
        shift_buffer_back-holding 3 (a ∷ b ∷ c ∷ s) (omega arith) fits clean,
      )
      (unfold drop in refl)

symbols_tail : (a b c : ℕ) (s : List ℕ) → symbols (a ∷ b ∷ c ∷ s) ≡ true → symbols s ≡ true
unfolding symbols
symbols_tail a b c s h = ground (arith, h)

triples_tail :
    (a b c : ℕ) (s : List ℕ)
    → triples_ok (a ∷ b ∷ c ∷ s) ≡ true
    → (triple a b c < 26) × (triples_ok s ≡ true)
unfolding triples_ok
triples_tail a b c s h = (ground (arith, h), ground (arith, h))

-- flush
pub flush_loop-letters :
    (n : ℕ) (fm_key s : List ℕ)
    → length s < 3 * n
    → length s ≤ 257
    → symbols s ≡ true
    → triples_ok s ≡ true
    → flush_loop n fm_key (holding s) ≡ next (letters fm_key s) (holding (left s))
unfolding letters left
flush_loop-letters zero fm_key s short fits clean ok = absurd (omega (arith, short))
flush_loop-letters (suc n) fm_key [] short fits clean ok = flush_few n fm_key [] (omega arith) clean
flush_loop-letters (suc n) fm_key (a ∷ []) short fits clean ok =
    flush_few n fm_key (a ∷ []) (omega arith) clean
flush_loop-letters (suc n) fm_key (a ∷ b ∷ []) short fits clean ok =
    flush_few n fm_key (a ∷ b ∷ []) (omega arith) clean
flush_loop-letters (suc n) fm_key (a ∷ b ∷ c ∷ s) short fits clean ok =
    let rest =
      flush_loop-letters n fm_key s (omega (arith, short)) (omega (arith, fits))
        (ground (arith, symbols_tail a b c s clean)) (ground (arith, triples_tail a b c s ok)) in
    flush_more n fm_key a b c s fits clean (ground (arith, triples_tail a b c s ok))
    ∙ ap (wrote (get_or fm_key (triple a b c) 0 ∷ [])) rest
    ∙ (unfold wrote in refl)
