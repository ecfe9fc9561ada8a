-- ===== src/Cipher/Fractionated/Line.antt =====
-- `cipher_fe` of hw1/src/hw1.c on a line of text: the letters of its stream of symbols.
use mathlib.Core.List.{append_assoc}
use cse320_projects.Common.{
  ℕ, ◌+◌, ◌≤◌, ◌<◌, ◌≡◌, refl, sym, ap, ◌∙◌, ◌≢◌, Bool, true, false, not, ◌&&◌, ◌||◌, Option, some,
  List, [], ◌∷◌, ◌++◌, arith, ltb, ◌==◌, if◌then◌else◌, length, inl, inr, Bool-cases,
}
use cse320_projects.Cipher.MorseTables.{x_mark}
use cse320_projects.Cipher.Strings.{is_char_in_alphabet}
use cse320_projects.Cipher.Polybius.{is_blank}
use cse320_projects.Cipher.Morse.{construct_key, initial_key}
use cse320_projects.Cipher.Fractionated.{
  string_in, next, encode_round, blank_round, next_char1, prefixed, lead, resume, fe_loop,
  no_symbols, cipher_fe,
}
use cse320_projects.Cipher.Fractionated.Buffer.{is_symbol, symbols, buffer_of, holding}
use cse320_projects.Cipher.Fractionated.Triples.{
  digit, triple, letters, left, triples_ok, letters-append, left-append, triples_ok-append,
  length-left, symbols-left,
}
use cse320_projects.Cipher.Fractionated.Encrypt.{
  code_of, encodable, plain_code, code_of-IsPlain, symbols-plain, symbols-append, piece, stream,
  last_char1, plain_line, lead-nil, lead-lead, letters_short, left_short, append_nil,
  encode_round-letters, blank_round-letters,
}

abbrev pub plain_char : ℕ → Bool
plain_char c = c == 32 || c == 9 || encodable c

-- A round for a character of the line.
round-letters :
    (behind : ℕ → List ℕ) (fm_key s : List ℕ) (char1 c : ℕ)
    → length s ≤ 2
    → symbols s ≡ true
    → plain_char c ≡ true
    → triples_ok (s ++ piece fm_key char1 c) ≡ true
    → (if is_blank c
        then blank_round fm_key char1 c (holding s)
        else encode_round behind fm_key c (holding s))
      ≡ next
          (letters fm_key (s ++ piece fm_key char1 c))
          (holding (left (s ++ piece fm_key char1 c)))
round-letters behind fm_key s char1 c short clean plain ok = elim (Bool-cases (is_blank c)) [
  | inl e ↦ rw e (
      blank_round-letters behind fm_key s short clean char1 c
        (λ n. unfold encodable in ground (arith, plain, n)) e ok)
  | inr e ↦
      let here : piece fm_key char1 c ≡ code_of c ++ x_mark ∷ [] = unfold piece in rw e refl in
      rw (e, here)
        (encode_round-letters behind fm_key s short clean c
          (unfold is_blank in ground (arith, plain, e))
          (ap (λ m. triples_ok (s ++ m)) (sym here) ∙ ok))
]

piece-symbols :
    (fm_key : List ℕ) (char1 c : ℕ) → plain_char c ≡ true → symbols (piece fm_key char1 c) ≡ true
piece-symbols fm_key char1 c plain = elim (Bool-cases (is_blank c)) [
  | inl e ↦ unfold piece symbols is_symbol in ground (arith, e)
  | inr e ↦
      let coded : encodable c ≡ true = unfold is_blank in ground (arith, plain, e) in
      let (code, _) = code_of-IsPlain c coded in
      let here : piece fm_key char1 c ≡ code_of c ++ x_mark ∷ [] = unfold piece in rw e refl in
      rw (here, symbols-append, symbols-plain (code_of c) code) (unfold symbols is_symbol in refl)
]

fe_loop_round :
    (behind : ℕ → List ℕ) (fm_key input : List ℕ) (char1 c : ℕ) (s text s' : List ℕ)
    → (if is_blank c
        then blank_round fm_key char1 c (holding s)
        else encode_round behind fm_key c (holding s))
      ≡ next text (holding s')
    → fe_loop behind fm_key (c ∷ input) char1 (holding s)
      ≡ lead text (fe_loop behind fm_key input (next_char1 fm_key char1 c) (holding s'))
unfolding fe_loop resume
fe_loop_round behind fm_key input char1 c s text s' now = rw now refl

-- A line before the rest of the input.
pub fe_loop-line :
    (behind : ℕ → List ℕ) (fm_key line rest s : List ℕ) (char1 : ℕ)
    → plain_line line ≡ true
    → length s ≤ 2
    → symbols s ≡ true
    → triples_ok (s ++ stream fm_key char1 line) ≡ true
    → (let t = s ++ stream fm_key char1 line in
        fe_loop behind fm_key (line ++ rest) char1 (holding s)
        ≡ lead
            (letters fm_key t)
            (fe_loop behind fm_key rest (last_char1 fm_key char1 line) (holding (left t))))
unfolding plain_line stream last_char1
fe_loop-line behind fm_key [] rest s char1 plain short clean ok =
    rw (append_nil s, letters_short fm_key s short, left_short s short, lead-nil) refl
fe_loop-line behind fm_key (c ∷ line) rest s char1 plain short clean ok =
    let m = piece fm_key char1 c in
    let d = next_char1 fm_key char1 c in
    let u = stream fm_key d line in
    let t = s ++ m in
    let both : triples_ok (t ++ u) ≡ true = ap triples_ok (append_assoc s m u) ∙ ok in
    let split : (triples_ok t && triples_ok (left t ++ u)) ≡ true =
      sym (triples_ok-append u t) ∙ both in
    let clean' : symbols t ≡ true =
      symbols-append s m ∙ rw (clean, piece-symbols fm_key char1 c (ground (arith, plain))) refl in
    let now =
      round-letters behind fm_key s char1 c short clean (ground (arith, plain))
        (ground (arith, split)) in
    let later =
      fe_loop-line behind fm_key line rest (left t) d (ground (arith, plain)) (length-left t)
        (symbols-left t clean') (ground (arith, split)) in
    fe_loop_round behind fm_key (line ++ rest) char1 c s (letters fm_key t) (left t) now
    ∙ ap (lead (letters fm_key t)) later
    ∙ lead-lead (letters fm_key t) (letters fm_key (left t ++ u)) _
    ∙ rw (sym (letters-append u fm_key t), sym (left-append u t), append_assoc s m u) refl

-- At most two x in a row, `n` of them before the string.
unfoldable pub runs : ℕ → List ℕ → Bool
runs n [] = true
runs n (c ∷ s) =
    let more = runs (n + 1) s in
    let fresh = runs 0 s in if c == x_mark then ltb n 2 && more else fresh

runs_fewer : (n m : ℕ) (s : List ℕ) → m ≤ n → runs n s ≡ true → runs m s ≡ true
unfolding runs
runs_fewer n m [] h e = refl
runs_fewer n m (c ∷ s) h e = ground (arith, h, e, runs_fewer (n + 1) (m + 1) s (omega (arith, h)))

runs_tail : (n c : ℕ) (s : List ℕ) → runs n (c ∷ s) ≡ true → runs 0 s ≡ true
unfolding runs
runs_tail n c s h = ground (arith, h, runs_fewer (n + 1) 0 s (omega arith))

runs_three :
    (n a b c : ℕ) (s : List ℕ)
    → runs n (a ∷ b ∷ c ∷ s) ≡ true
    → (a == x_mark && b == x_mark && c == x_mark) ≡ false
unfolding runs
runs_three n a b c s h = ground (arith, h)

triple_small :
    (a b c : ℕ)
    → is_symbol a ≡ true
    → is_symbol b ≡ true
    → is_symbol c ≡ true
    → (a == x_mark && b == x_mark && c == x_mark) ≡ false
    → triple a b c < 26
unfolding triple digit is_symbol
triple_small a b c ha hb hc h = ground (arith, ha, hb, hc, h)

pub triples_ok-runs :
    (n : ℕ) (s : List ℕ) → symbols s ≡ true → runs n s ≡ true → triples_ok s ≡ true
unfolding triples_ok symbols
triples_ok-runs n [] clean h = refl
triples_ok-runs n (a ∷ []) clean h = refl
triples_ok-runs n (a ∷ b ∷ []) clean h = refl
triples_ok-runs n (a ∷ b ∷ c ∷ s) clean h =
    let tail = runs_tail 0 c s (runs_tail 0 b (c ∷ s) (runs_tail n a (b ∷ c ∷ s) h)) in
    let small =
      triple_small a b c (ground (arith, clean)) (ground (arith, clean)) (ground (arith, clean))
        (runs_three n a b c s h) in
    ground (arith, small, triples_ok-runs 0 s (ground (arith, clean)) tail)

-- The stream has at most two x in a row: one behind a letter, and one for a blank behind it.
runs-code :
    (n : ℕ) (m s : List ℕ)
    → plain_code m ≡ true
    → length m ≢ 0
    → runs 0 s ≡ true
    → runs n (m ++ s) ≡ true
unfolding runs plain_code
runs-code n [] s plain full h = absurd (full refl)
runs-code n (c ∷ []) s plain full h = ground (arith, plain, h)
runs-code n (c ∷ d ∷ m) s plain full h =
    ground (arith, plain, runs-code 0 (d ∷ m) s (ground (arith, plain)) (omega arith) h)

abbrev pub separates : List ℕ → Bool
separates fm_key =
    not (is_char_in_alphabet 32 (string_in fm_key))
    && not (is_char_in_alphabet 9 (string_in fm_key))

-- A character of `fm_key` is followed by one x at least, any other by two at most.
abbrev room : List ℕ → ℕ → ℕ
room fm_key char1 = if is_char_in_alphabet char1 (string_in fm_key) then 1 else 2

runs_x : (n : ℕ) (s : List ℕ) → n < 2 → runs (n + 1) s ≡ true → runs n (x_mark ∷ s) ≡ true
unfolding runs
runs_x n s lt h = ground (arith, lt, h)

blank_foreign :
    (fm_key : List ℕ) (c : ℕ)
    → separates fm_key ≡ true
    → is_blank c ≡ true
    → (c == 10) ≡ false
    → is_char_in_alphabet c (string_in fm_key) ≡ false
unfolding is_blank
blank_foreign fm_key c apart blank ne = ground (arith, apart, blank, ne)

pub stream-symbols :
    (fm_key line : List ℕ) (char1 : ℕ)
    → plain_line line ≡ true
    → symbols (stream fm_key char1 line) ≡ true
unfolding stream plain_line
stream-symbols fm_key [] char1 plain = unfold symbols in refl
stream-symbols fm_key (c ∷ line) char1 plain =
    symbols-append (piece fm_key char1 c) (stream fm_key (next_char1 fm_key char1 c) line)
    ∙ rw
        (
          piece-symbols fm_key char1 c (ground (arith, plain)),
          stream-symbols fm_key line (next_char1 fm_key char1 c) (ground (arith, plain)),
        )
        refl

pub runs-stream :
    (n : ℕ) (fm_key line : List ℕ) (char1 : ℕ)
    → separates fm_key ≡ true
    → plain_line line ≡ true
    → n ≤ room fm_key char1
    → runs n (stream fm_key char1 line) ≡ true
unfolding stream plain_line
runs-stream n fm_key [] char1 apart plain le = unfold runs in refl
runs-stream n fm_key (c ∷ line) char1 apart plain le =
    let plain' : plain_line line ≡ true = ground (arith, plain) in
    let char : plain_char c ≡ true = ground (arith, plain) in
    elim (Bool-cases (is_blank c)) [
      | inl e ↦
          let blank : (c == 10) ≡ false = unfold encodable in ground (arith, char) in
          let foreign : is_char_in_alphabet c (string_in fm_key) ≡ false =
            blank_foreign fm_key c apart e blank in
          elim (Bool-cases (is_char_in_alphabet char1 (string_in fm_key))) [
            | inl f ↦
                let here : piece fm_key char1 c ≡ x_mark ∷ [] = unfold piece in rw (e, f) refl in
                let to : next_char1 fm_key char1 c ≡ c = unfold next_char1 in rw (e, f) refl in
                let later =
                  runs-stream (n + 1) fm_key line c apart plain' (ground (arith, foreign, le, f)) in
                rw (here, to) (runs_x n _ (ground (arith, le, f)) later)
            | inr f ↦
                let here : piece fm_key char1 c ≡ [] = unfold piece in rw (e, f) refl in
                let to : next_char1 fm_key char1 c ≡ char1 =
                  unfold next_char1 in rw (e, f, blank) refl in
                rw (here, to) (runs-stream n fm_key line char1 apart plain' le)
          ]
      | inr e ↦
          let coded : encodable c ≡ true = unfold is_blank in ground (arith, char, e) in
          let (code, _) = code_of-IsPlain c coded in
          let full : length (code_of c) ≢ 0 = unfold encodable in ground (arith, coded) in
          let here : piece fm_key char1 c ≡ code_of c ++ x_mark ∷ [] = unfold piece in rw e refl in
          let to : next_char1 fm_key char1 c ≡ c = unfold next_char1 in rw e refl in
          let later = runs-stream 1 fm_key line c apart plain' (ground arith) in
          rw (here, to, append_assoc (code_of c) (x_mark ∷ []) (stream fm_key c line))
            (runs-code n (code_of c) (x_mark ∷ stream fm_key c line) code full
              (runs_x 0 _ (omega arith) later))
    ]

-- For a key that has neither a space nor a tab, `cipher_fe` encrypts a line of characters with a
-- code, spaces and tabs in full, as the letters of the groups of three symbols of its Morse code,
-- with an x behind each code and one more for a blank behind a letter of the key; up to two symbols
-- at the end are dropped.
pub cipher_fe-line :
    (behind : ℕ → List ℕ) (key : Option (List ℕ)) (line : List ℕ)
    → separates (construct_key key initial_key) ≡ true
    → plain_line line ≡ true
    → cipher_fe behind key line
      ≡ some (record {
        text =
            letters (construct_key key initial_key) (stream (construct_key key initial_key) 0 line);
        success = true;
      })
unfolding cipher_fe symbols fe_loop buffer_of lead prefixed
cipher_fe-line behind key line apart plain =
    let fm_key = construct_key key initial_key in
    let s = stream fm_key 0 line in
    let ok =
      triples_ok-runs 0 s (stream-symbols fm_key line 0 plain)
        (runs-stream 0 fm_key line 0 apart plain (omega arith)) in
    ap (λ z. fe_loop behind fm_key z 0 no_symbols) (sym (append_nil line))
    ∙ fe_loop-line behind fm_key line [] [] 0 plain (omega arith) refl ok
    ∙ ap some (ap (λ z. record { text = z; success = true }) (append_nil (letters fm_key s)))
