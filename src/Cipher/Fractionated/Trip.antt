-- ===== src/Cipher/Fractionated/Trip.antt =====
-- `cipher_fd` of hw1/src/hw1.c on what `cipher_fe` writes for a line of text.
use mathlib.Core.List.{append_assoc}
use cse320_projects.Common.{
  ℕ, ◌+◌, ◌≤◌, ◌≡◌, refl, true, false, Option, some, List, [], ◌∷◌, ◌++◌, arith, length, inl, inr,
  Bool-cases,
}
use cse320_projects.Cipher.MorseTables.{x_mark}
use cse320_projects.Cipher.Strings.{is_char_in_alphabet}
use cse320_projects.Cipher.Polybius.{is_blank}
use cse320_projects.Cipher.Morse.{construct_key, initial_key}
use cse320_projects.Cipher.Fractionated.{string_in, next_char1, cipher_fe, cipher_fd}
use cse320_projects.Cipher.Fractionated.Buffer.{buffer_of}
use cse320_projects.Cipher.Fractionated.Triples.{letters}
use cse320_projects.Cipher.Fractionated.Encrypt.{
  code_of, encodable, plain_code, code_of-IsPlain, piece, stream, plain_line,
}
use cse320_projects.Cipher.Fractionated.Line.{
  plain_char, separates, runs-stream, stream-symbols, triples_ok-runs, cipher_fe-line,
}
use cse320_projects.Cipher.Fractionated.Decode.{marks, spaced, decode-stream}
use cse320_projects.Cipher.Fractionated.Drain.{gaps}
use cse320_projects.Cipher.Fractionated.Taken.{Ready}
use cse320_projects.Cipher.Fractionated.Read.{letters_found, few, Read, read_letters}

-- A code and its x in the stream.
gaps-code :
    (n : ℕ) (m t : List ℕ)
    → plain_code m ≡ true
    → length m + n ≤ 6
    → gaps 0 t ≡ true
    → gaps n (m ++ x_mark ∷ t) ≡ true
unfolding gaps plain_code
gaps-code n [] t plain small h = ground (arith, h)
gaps-code n (c ∷ m) t plain small h =
    ground
      (arith, plain, small, gaps-code (n + 1) m t (ground (arith, plain)) (omega (arith, small)) h)

gaps-piece :
    (fm_key : List ℕ) (char1 c : ℕ) (u : List ℕ)
    → plain_char c ≡ true
    → gaps 0 u ≡ true
    → gaps 0 (piece fm_key char1 c ++ u) ≡ true
gaps-piece fm_key char1 c u char h = elim (Bool-cases (is_blank c)) [
  | inl e ↦ elim (Bool-cases (is_char_in_alphabet char1 (string_in fm_key))) [
    | inl f ↦
        let here : piece fm_key char1 c ≡ x_mark ∷ [] = unfold piece in rw (e, f) refl in
        rw here (gaps-code 0 [] u (unfold plain_code in refl) (omega arith) h)
    | inr f ↦ let here : piece fm_key char1 c ≡ [] = unfold piece in rw (e, f) refl in rw here h
  ]
  | inr e ↦
      let coded : encodable c ≡ true = unfold is_blank in ground (arith, char, e) in
      let (code, small) = code_of-IsPlain c coded in
      let here : piece fm_key char1 c ≡ code_of c ++ x_mark ∷ [] = unfold piece in rw e refl in
      rw (here, append_assoc (code_of c) (x_mark ∷ []) u)
        (gaps-code 0 (code_of c) u code (omega (arith, small)) h)
]

gaps-stream :
    (fm_key line : List ℕ) (char1 : ℕ)
    → plain_line line ≡ true
    → gaps 0 (stream fm_key char1 line) ≡ true
unfolding stream plain_line
gaps-stream fm_key [] char1 plain = unfold gaps in refl
gaps-stream fm_key (c ∷ line) char1 plain =
    let later = gaps-stream fm_key line (next_char1 fm_key char1 c) (ground (arith, plain)) in
    let char : plain_char c ≡ true = ground (arith, plain) in
    gaps-piece fm_key char1 c (stream fm_key (next_char1 fm_key char1 c) line) char later

no_nul : (fm_key : List ℕ) → is_char_in_alphabet 0 (string_in fm_key) ≡ false
unfolding is_char_in_alphabet string_in
no_nul [] = refl
no_nul (c ∷ fm_key) = ground (arith, no_nul fm_key)

-- For a key without a space and a tab whose 26 letters are found where they stand, `cipher_fd`
-- decrypts in full what `cipher_fe` has written for a line of characters with a code, spaces and
-- tabs: the line, with each blank behind a letter of the key as a space and the other blanks left
-- out, but for at most three characters at its end.
pub cipher_fd-cipher_fe :
    (behind : ℕ → List ℕ) (key : Option (List ℕ)) (line : List ℕ)
    → separates (construct_key key initial_key) ≡ true
    → letters_found (construct_key key initial_key) ≡ true
    → plain_line line ≡ true
    → (secret out missing : List ℕ) × (cipher_fe behind key line
        ≡ some (record { text = secret; success = true }))
      × (cipher_fd key secret ≡ some (record { text = out; success = true }))
      × (spaced (construct_key key initial_key) 0 line ≡ out ++ missing)
      × (length missing ≤ 3)
unfolding cipher_fd Read Ready buffer_of few marks
cipher_fd-cipher_fe behind key line apart legal plain =
    let fm_key = construct_key key initial_key in
    let s = stream fm_key 0 line in
    let clean = stream-symbols fm_key line 0 plain in
    let apart' = runs-stream 0 fm_key line 0 apart plain (omega arith) in
    let ready : Ready 0 0 [] s (spaced fm_key 0 line) = (
      clean,
      apart',
      gaps-stream fm_key line 0 plain,
      (λ h. absurd (cc (h))),
      decode-stream fm_key line 0 false (λ h. absurd (cc (h, no_nul fm_key))) plain,
    ) in
    let (out, missing, run, is, bound) =
      read_letters 0 0 fm_key [] s (spaced fm_key 0 line) legal (triples_ok-runs 0 s clean apart')
        refl ready in
    (letters fm_key s, out, missing, cipher_fe-line behind key line apart plain, run, is, bound)
