-- ===== src/Cipher/Fractionated/Decode.antt =====
-- Morse symbols read one after the other, as a specification of `cipher_fd` of hw1/src/hw1.c, and
-- the text that the stream of a line gives.
use mathlib.Core.List.{append_assoc}
use cse320_projects.Common.{
  ℕ, ◌+◌, ◌-◌, ◌%◌, ◌≤◌, ◌≡◌, refl, ap, ◌∙◌, ◌≢◌, Bool, true, false, not, Option, none, some, List,
  [], ◌∷◌, ◌++◌, arith, ◌==◌, if◌then◌else◌, length, inl, inr, Bool-cases,
}
use cse320_projects.Cipher.MorseTables.{x_mark}
use cse320_projects.Cipher.Strings.{is_char_in_alphabet}
use cse320_projects.Cipher.Polybius.{is_blank}
use cse320_projects.Cipher.Morse.{get_index_in_morse_table}
use cse320_projects.Cipher.Morse.Lookup.{get_index_in_morse_table_iff}
use cse320_projects.Cipher.Fractionated.{string_in, next_char1}
use cse320_projects.Cipher.Fractionated.Encrypt.{
  code_of, encodable, plain_code, code_of-IsPlain, piece, stream, plain_line, append_nil,
}
use cse320_projects.Cipher.Fractionated.Line.{plain_char}

unfoldable pub put_first : ℕ → Option (List ℕ) → Option (List ℕ)
put_first c none = none
put_first c (some text) = some (c ∷ text)

-- The character at an index of the Morse table before the rest.
unfoldable pub put_letter : Option ℕ → Option (List ℕ) → Option (List ℕ)
put_letter none rest = none
put_letter (some i) rest = put_first ((33 + i) % 256) rest

-- What an x ends: a code, or nothing, which behind another x is a space.
unfoldable pub end_code : Bool → List ℕ → Option (List ℕ) → Option (List ℕ)
end_code after_x [] rest = if after_x then put_first 32 rest else rest
end_code after_x (c ∷ code) rest = put_letter (get_index_in_morse_table (c ∷ code)) rest

-- The text of symbols, with the code read so far; none is a code that is not in the table.
unfoldable pub decode : Bool → List ℕ → List ℕ → Option (List ℕ)
decode after_x code [] = some []
decode after_x code (c ∷ s) =
    let ended = end_code after_x code (decode true [] s) in
    let longer = decode after_x (code ++ c ∷ []) s in if c == x_mark then ended else longer

unfoldable pub marks : List ℕ → ℕ
marks [] = 0
marks (c ∷ s) = let rest = marks s in if c == x_mark then rest + 1 else rest

pub marks-append : (s t : List ℕ) → marks (s ++ t) ≡ marks s + marks t
unfolding marks
marks-append [] t = omega arith
marks-append (c ∷ s) t = ground (arith, marks-append s t)

-- A code up to its x.
pub decode-code :
    (after_x : Bool) (acc m s : List ℕ)
    → plain_code m ≡ true
    → decode after_x acc (m ++ x_mark ∷ s) ≡ end_code after_x (acc ++ m) (decode true [] s)
unfolding decode plain_code
decode-code after_x acc [] s plain = rw (append_nil acc) refl
decode-code after_x acc (c ∷ m) s plain =
    let no_x : (c == x_mark) ≡ false = ground (arith, plain) in
    rw no_x (
      decode-code after_x (acc ++ c ∷ []) m s (ground (arith, plain))
      ∙ ap (λ z. end_code after_x z (decode true [] s)) (append_assoc acc (c ∷ []) m))

put_first-some :
    (c : ℕ) (rest : Option (List ℕ)) (o : List ℕ)
    → put_first c rest ≡ some o
    → (o' : List ℕ) × (rest ≡ some o') × (o ≡ c ∷ o')
unfolding put_first
put_first-some c none o h = absurd (cc (h))
put_first-some c (some o') o h = (o', refl, cc (h))

-- What an x ends, when the whole can be read.
pub end_code-space :
    (rest : Option (List ℕ)) (o : List ℕ)
    → end_code true [] rest ≡ some o
    → (o' : List ℕ) × (rest ≡ some o') × (o ≡ 32 ∷ o')
unfolding end_code
end_code-space rest o h = put_first-some 32 rest o h

put_letter-some :
    (found : Option ℕ) (rest : Option (List ℕ)) (o : List ℕ)
    → put_letter found rest ≡ some o
    → (i : ℕ) × (o' : List ℕ) × (found ≡ some i) × (rest ≡ some o') × (o ≡ (33 + i) % 256 ∷ o')
unfolding put_letter
put_letter-some none rest o h = absurd (cc (h))
put_letter-some (some i) rest o h =
    let (o', there, is) = put_first-some ((33 + i) % 256) rest o h in (i, o', refl, there, is)

pub end_code-letter :
    (after_x : Bool) (code : List ℕ) (rest : Option (List ℕ)) (o : List ℕ)
    → length code ≢ 0
    → end_code after_x code rest ≡ some o
    → (i : ℕ) × (o' : List ℕ) × (get_index_in_morse_table code ≡ some i)
      × (rest ≡ some o')
      × (o ≡ (33 + i) % 256 ∷ o')
unfolding end_code
end_code-letter after_x [] rest o full h = absurd (full refl)
end_code-letter after_x (c ∷ code) rest o full h =
    put_letter-some (get_index_in_morse_table (c ∷ code)) rest o h

end_code-length :
    (after_x : Bool) (code : List ℕ) (rest : Option (List ℕ)) (o : List ℕ) (n : ℕ)
    → end_code after_x code rest ≡ some o
    → ((o' : List ℕ) → rest ≡ some o' → length o' ≤ n)
    → length o ≤ n + 1
unfolding end_code
end_code-length false [] rest o n h small = omega (arith, small o h)
end_code-length true [] rest o n h small =
    let (o', there, is) = put_first-some 32 rest o h in rw is (omega (arith, small o' there))
end_code-length after_x (c ∷ code) rest o n h small =
    let (i, o', _, there, is) = put_letter-some (get_index_in_morse_table (c ∷ code)) rest o h in
    rw is (omega (arith, small o' there))

-- Every character is ended by an x.
pub length-decode :
    (after_x : Bool) (code s o : List ℕ) → decode after_x code s ≡ some o → length o ≤ marks s
unfolding decode marks
length-decode after_x code [] o h = let is : o ≡ [] = cc (h) in rw is (omega arith)
length-decode after_x code (c ∷ s) o h = elim (Bool-cases (c == x_mark)) [
  | inl e ↦
      let ended : end_code after_x code (decode true [] s) ≡ some o = ground (arith, e, h) in
      rw e (
        end_code-length after_x code _ o (marks s) ended
          (λ o' there. length-decode true [] s o' there))
  | inr e ↦
      let longer : decode after_x (code ++ c ∷ []) s ≡ some o = ground (arith, e, h) in
      rw e (length-decode after_x (code ++ c ∷ []) s o longer)
]

-- A line with each blank behind a letter of the key as a space, and no other blank.
unfoldable pub spaced : List ℕ → ℕ → List ℕ → List ℕ
spaced fm_key char1 [] = []
spaced fm_key char1 (c ∷ line) =
    let rest = spaced fm_key (next_char1 fm_key char1 c) line in
    if not (is_blank c)
    then c ∷ rest
    else if is_char_in_alphabet char1 (string_in fm_key)
    then 32 ∷ rest
    else rest

code_index : (c : ℕ) → encodable c ≡ true → get_index_in_morse_table (code_of c) ≡ some (c - 33)
unfolding encodable
code_index c h =
    let full : code_of c ≢ [] =
      λ e. (let none_left : length (code_of c) ≡ 0 = ap length e in ground (arith, h, none_left)) in
    (get_index_in_morse_table_iff (c - 33) (code_of c) (ground (arith, h))).1
      ((unfold code_of in refl), full)

end_code-code_of :
    (after_x : Bool) (code : List ℕ) (c : ℕ) (text : List ℕ)
    → encodable c ≡ true
    → length code ≢ 0
    → get_index_in_morse_table code ≡ some (c - 33)
    → end_code after_x code (some text) ≡ some (c ∷ text)
unfolding end_code put_letter put_first encodable
end_code-code_of after_x [] c text h full found = absurd (full refl)
end_code-code_of after_x (d ∷ code) c text h full found =
    let back : (33 + (c - 33)) % 256 ≡ c = ground (arith, h) in rw (found, back) refl

pub decode-stream :
    (fm_key line : List ℕ) (char1 : ℕ) (after_x : Bool)
    → (is_char_in_alphabet char1 (string_in fm_key) ≡ true → after_x ≡ true)
    → plain_line line ≡ true
    → decode after_x [] (stream fm_key char1 line) ≡ some (spaced fm_key char1 line)
unfolding stream spaced plain_line
decode-stream fm_key [] char1 after_x known plain = unfold decode in refl
decode-stream fm_key (c ∷ line) char1 after_x known plain =
    let d = next_char1 fm_key char1 c in
    let plain' : plain_line line ≡ true = ground (arith, plain) in
    let char : plain_char c ≡ true = ground (arith, plain) in
    elim (Bool-cases (is_blank c)) [
      | inl e ↦ elim (Bool-cases (is_char_in_alphabet char1 (string_in fm_key))) [
        | inl f ↦
            let here : piece fm_key char1 c ≡ x_mark ∷ [] = unfold piece in rw (e, f) refl in
            rw
              (
                here,
                e,
                f,
                known f,
                decode-code true [] [] (stream fm_key d line) (unfold plain_code in refl),
                decode-stream fm_key line d true (λ _. refl) plain',
              )
              (unfold end_code put_first in refl)
        | inr f ↦
            let here : piece fm_key char1 c ≡ [] = unfold piece in rw (e, f) refl in
            let blank : (c == 10) ≡ false = unfold encodable in ground (arith, char) in
            let to : d ≡ char1 = unfold next_char1 in rw (e, f, blank) refl in
            rw (here, e, f, to) (decode-stream fm_key line char1 after_x known plain')
      ]
      | inr e ↦
          let coded : encodable c ≡ true = unfold is_blank in ground (arith, char, e) in
          let (code, _) = code_of-IsPlain c coded in
          let full : length (code_of c) ≢ 0 = unfold encodable in ground (arith, coded) in
          let here : piece fm_key char1 c ≡ code_of c ++ x_mark ∷ [] = unfold piece in rw e refl in
          rw
            (
              here,
              e,
              append_assoc (code_of c) (x_mark ∷ []) (stream fm_key d line),
              decode-code after_x [] (code_of c) (stream fm_key d line) code,
              decode-stream fm_key line d true (λ _. refl) plain',
            )
            (end_code-code_of after_x (code_of c) c _ coded full (code_index c coded))
    ]
