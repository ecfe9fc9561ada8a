-- ===== src/Cipher/Tests.antt =====
-- Runs of the ciphers of hw1/src/hw1.c.
use cse320_projects.Common.{
  ℕ, ◌+◌, ◌≡◌, refl, true, false, none, some, List, [], ◌∷◌, ◌++◌, arith, set, replicate, get_or,
  passes, length, ◌≤◌,
}
use cse320_projects.Cipher.Strings.{
  string_eql, string_eql_loop, buffer_size, buffer_size_loop, string_to_int, string_to_int_loop,
  char_value, has_repeated_char, repeats, is_char_in_alphabet, is_legal_in_alphabet,
}
use cse320_projects.Cipher.Constants.{codes}
use cse320_projects.Cipher.Arguments.{
  Validated, validargs, check_rest, validate, finish, read_arguments, read_argument, next_argument,
  take_key, take_row, take_col, check_key, mode_bits, cipher_bits, flag_p, flag_e, flag_d, flag_k,
  flag_r,
}
use cse320_projects.Cipher.Program.{Outcome, RoundTrip, validargs-Outcome, validargs-RoundTrip}
use cse320_projects.Cipher.Program.Main.{Chosen, validargs-Chosen}
use cse320_projects.Cipher.Polybius.{
  cipher_pe, cipher_pd, row_of, col_of, get_index_loop, is_blank, is_char_in_key,
}
use cse320_projects.Cipher.Polybius.Table.{Legal}
use cse320_projects.Cipher.Polybius.Cover.{is_text, cipher_pe-success}
use cse320_projects.Cipher.Polybius.Trip.{cipher_pd-cipher_pe}
use cse320_projects.Cipher.MorseTables.{morse_table}
use cse320_projects.Cipher.Morse.{
  construct_key, copy_letters, fm_key_loop, get_fm_key_index, initial_key,
}
use cse320_projects.Cipher.Fractionated.{string_in, cipher_fe, cipher_fd}
use cse320_projects.Cipher.Fractionated.Triples.{letters}
use cse320_projects.Cipher.Fractionated.Encrypt.{code_of, encodable, plain_line, stream}
use cse320_projects.Cipher.Fractionated.Line.{separates, cipher_fe-line}
use cse320_projects.Cipher.Morse.Lookup.{gives}
use cse320_projects.Cipher.Fractionated.Decode.{spaced}
use cse320_projects.Cipher.Fractionated.Read.{letters_found}
use cse320_projects.Cipher.Fractionated.Trip.{cipher_fd-cipher_fe}
use cse320_projects.Cipher.Fractionated.Refused.{unencodable, cipher_fe-refused}

abbrev bob : List ℕ
bob = 66 ∷ 111 ∷ 98 ∷ []

abbrev cipher_options : List (List ℕ)
cipher_options = flag_r ∷ (57 ∷ []) ∷ flag_k ∷ bob ∷ []

abbrev program : List ℕ
program = 104 ∷ 119 ∷ 49 ∷ []

abbrev arguments : List (List ℕ)
arguments = program ∷ flag_p ∷ flag_e ∷ cipher_options

-- 9 rows and 10 columns
abbrev parsed : Validated
parsed = record { mode = 154; key = some bob }

abbrev message : List ℕ
message = 72 ∷ 105 ∷ 32 ∷ 126 ∷ []

validargs_run : validargs [] arguments ≡ some parsed
unfolding validargs check_rest validate finish read_arguments read_argument next_argument take_key
    take_row take_col check_key mode_bits cipher_bits string_eql string_eql_loop buffer_size
    buffer_size_loop string_to_int string_to_int_loop char_value has_repeated_char repeats
    is_char_in_alphabet is_legal_in_alphabet codes
validargs_run = refl

validargs-Outcome_example : Outcome parsed
validargs-Outcome_example = validargs-Outcome [] arguments parsed validargs_run

cipher_pe_run : (cipher_pe (λ i. 0) (some bob) 154 message).success ≡ true
unfolding cipher_pe get_index_loop codes is_char_in_key set replicate
cipher_pe_run = refl

bob-Legal : Legal (some bob)
unfolding Legal repeats is_char_in_alphabet is_legal_in_alphabet codes
bob-Legal = (refl, refl)

cipher_pd-cipher_pe_example :
    (cipher_pd
      (λ i. 0)
      (λ i. 7)
      (some bob)
      (154 + 0x2000)
      (cipher_pe (λ i. 0) (some bob) 154 message).text).text
    ≡ message
cipher_pd-cipher_pe_example =
    cipher_pd-cipher_pe (λ i. 0) (λ i. 7) (some bob) 154 (154 + 0x2000) message bob-Legal
      (unfold col_of in omega arith) (unfold col_of in omega arith) (unfold row_of in refl)
      (unfold col_of in refl) cipher_pe_run

validargs-RoundTrip_example :
    RoundTrip
      (λ i. 0)
      (λ i. 7)
      message
      (validargs [] (program ∷ flag_p ∷ flag_d ∷ cipher_options))
      parsed
validargs-RoundTrip_example =
    validargs-RoundTrip (λ i. 0) (λ i. 7) [] program cipher_options parsed message validargs_run
      (λ e. cc (e)) cipher_pe_run

abbrev a_code : List ℕ
a_code = 46 ∷ 45 ∷ []

message-is_text : is_text message ≡ true
unfolding is_text is_char_in_alphabet codes is_blank
message-is_text = refl

cipher_pe-success_example : (cipher_pe (λ i. 0) (some bob) 154 message).success ≡ true
unfolding Legal
cipher_pe-success_example =
    cipher_pe-success (λ i. 0) bob 154 message bob-Legal.0 bob-Legal.1 message-is_text
      (unfold col_of in omega arith)

validargs-Chosen_example : Chosen 154
validargs-Chosen_example = validargs-Chosen [] arguments parsed validargs_run

abbrev fm_text : List ℕ
fm_text = 65 ∷ 66 ∷ 32 ∷ 67 ∷ []

abbrev no_more : ℕ → List ℕ
no_more i = []

fm_text-separates : separates (construct_key none initial_key) ≡ true
unfolding construct_key copy_letters is_char_in_alphabet string_in set get_or replicate codes
fm_text-separates = refl

fm_text-IsPlain : plain_line fm_text ≡ true
unfolding plain_line encodable code_of get_or morse_table
fm_text-IsPlain = refl

percent-unencodable : unencodable 37 ≡ true
unfolding unencodable encodable code_of get_or morse_table is_blank
percent-unencodable = refl

cipher_fe-line_example :
    cipher_fe no_more none fm_text
    ≡ some (record {
      text =
          letters
            (construct_key none initial_key)
            (stream (construct_key none initial_key) 0 fm_text);
      success = true;
    })
cipher_fe-line_example = cipher_fe-line no_more none fm_text fm_text-separates fm_text-IsPlain

cipher_fe-refused_example :
    cipher_fe no_more none (fm_text ++ 37 ∷ fm_text)
    ≡ some (record {
      text =
          letters
            (construct_key none initial_key)
            (stream (construct_key none initial_key) 0 fm_text);
      success = false;
    })
cipher_fe-refused_example =
    cipher_fe-refused no_more none fm_text fm_text 37 fm_text-separates fm_text-IsPlain
      percent-unencodable

alphabet-letters_found : letters_found (construct_key none initial_key) ≡ true
unfolding letters_found passes gives construct_key copy_letters get_fm_key_index fm_key_loop set
    get_or replicate codes
alphabet-letters_found = refl

cipher_fd-cipher_fe_example :
    (secret out missing : List ℕ) × (cipher_fe no_more none fm_text
      ≡ some (record { text = secret; success = true }))
    × (cipher_fd none secret ≡ some (record { text = out; success = true }))
    × (spaced (construct_key none initial_key) 0 fm_text ≡ out ++ missing)
    × (length missing ≤ 3)
cipher_fd-cipher_fe_example =
    cipher_fd-cipher_fe no_more none fm_text fm_text-separates alphabet-letters_found
      fm_text-IsPlain
