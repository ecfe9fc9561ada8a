-- ===== src/Cipher/Fractionated/Refused.antt =====
-- `cipher_fe` of hw1/src/hw1.c on a line with a character that has no code.
use cse320_projects.Common.{
  ℕ, ◌-◌, ◌^◌, ◌≡◌, refl, ap, ◌∙◌, Bool, true, false, not, ◌&&◌, Option, some, List, [], ◌∷◌, ◌++◌,
  arith, leb, ltb, ◌==◌, length, inl, inr, Bool-cases,
}
use cse320_projects.Cipher.Strings.{char_value}
use cse320_projects.Cipher.Polybius.{is_blank}
use cse320_projects.Cipher.Morse.{get_morse_table_index, construct_key, initial_key}
use cse320_projects.Cipher.Fractionated.{
  Filling, exit_failure, morsed_at, encode_round, prefixed, lead, resume, fe_loop, cipher_fe,
}
use cse320_projects.Cipher.Fractionated.Buffer.{symbols, buffer_of, holding}
use cse320_projects.Cipher.Fractionated.Triples.{letters, left}
use cse320_projects.Cipher.Fractionated.Encrypt.{
  code_of, encodable, stream, last_char1, plain_line, append_nil,
}
use cse320_projects.Cipher.Fractionated.Line.{
  fe_loop-line, separates, runs-stream, stream-symbols, triples_ok-runs,
}

-- No blank and no character with a code; `{` to `~` and DEL, which read past the table, are not
-- counted.
unfoldable pub unencodable : ℕ → Bool
unencodable c = not (is_blank c) && not (encodable c) && not (leb 123 c && ltb c 128) && ltb c 256

encode_round-unencodable :
    (behind : ℕ → List ℕ) (fm_key : List ℕ) (c : ℕ) (f : Filling)
    → unencodable c ≡ true
    → encode_round behind fm_key c f ≡ exit_failure []
unfolding encode_round
encode_round-unencodable behind fm_key c f h = elim (Bool-cases (leb 33 c && leb c 122)) [
  | inl e ↦
      let index : get_morse_table_index c ≡ c - 33 =
        unfold get_morse_table_index char_value in ground (arith, e) in
      let there : morsed_at behind (c - 33) ≡ code_of c =
        unfold morsed_at code_of in ground (arith, e) in
      let no_code : (length (code_of c) == 0) ≡ true =
        unfold unencodable encodable in ground (arith, e, h) in
      let positive : leb (2 ^ 31) (c - 33) ≡ false = ground (arith, e) in
      rw (index, positive, there, no_code) refl
  | inr e ↦
      let negative : leb (2 ^ 31) (get_morse_table_index c) ≡ true =
        unfold get_morse_table_index char_value unencodable in ground (arith, e, h) in
      rw negative refl
]

fe_loop-unencodable :
    (behind : ℕ → List ℕ) (fm_key rest : List ℕ) (c char1 : ℕ) (f : Filling)
    → unencodable c ≡ true
    → fe_loop behind fm_key (c ∷ rest) char1 f ≡ some (record { text = []; success = false })
unfolding fe_loop resume
fe_loop-unencodable behind fm_key rest c char1 f h =
    let no_blank : is_blank c ≡ false = unfold unencodable in ground (arith, h) in
    rw (no_blank, encode_round-unencodable behind fm_key c f h) refl

-- For a key that has neither a space nor a tab, `cipher_fe` ends with a failure at the first
-- character behind a line of characters with a code, spaces and tabs that is no blank, has no code
-- and is not one of `{` to DEL, and has written by then the letters of that line and nothing of
-- what follows.
pub cipher_fe-refused :
    (behind : ℕ → List ℕ) (key : Option (List ℕ)) (line rest : List ℕ) (c : ℕ)
    → separates (construct_key key initial_key) ≡ true
    → plain_line line ≡ true
    → unencodable c ≡ true
    → cipher_fe behind key (line ++ c ∷ rest)
      ≡ some (record {
        text =
            letters (construct_key key initial_key) (stream (construct_key key initial_key) 0 line);
        success = false;
      })
unfolding cipher_fe symbols buffer_of lead prefixed
cipher_fe-refused behind key line rest c apart plain no_code =
    let fm_key = construct_key key initial_key in
    let s = stream fm_key 0 line in
    let ok =
      triples_ok-runs 0 s (stream-symbols fm_key line 0 plain)
        (runs-stream 0 fm_key line 0 apart plain (omega arith)) in
    fe_loop-line behind fm_key line (c ∷ rest) [] 0 plain (omega arith) refl ok
    ∙ ap (lead (letters fm_key s)) (
        fe_loop-unencodable behind fm_key rest c (last_char1 fm_key 0 line) (holding (left s))
          no_code)
    ∙ ap some (ap (λ z. record { text = z; success = false }) (append_nil (letters fm_key s)))
