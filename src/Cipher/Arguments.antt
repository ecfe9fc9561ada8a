-- ===== src/Cipher/Arguments.antt =====
-- `validargs` of hw1/src/hw1.c. `argv` is the list of the arguments; the pointer behind the last one
-- is NULL, and reading a string there is a fault.
pub mod Accepted
pub mod Bits
use Prim.Native.Nat.{bit_and, bit_or}
use cse320_projects.Common.{
  ℕ, suc, ◌+◌, ◌*◌, ◌%◌, ◌^◌, Bool, true, false, not, ◌&&◌, ◌||◌, Option, none, some, List, [], ◌∷◌,
  ltb, ◌==◌, if◌then◌else◌, length,
}
use cse320_projects.Cipher.Strings.{
  string_eql, string_to_int, has_repeated_char, is_legal_in_alphabet,
}
use cse320_projects.Cipher.Constants.{polybius_alphabet, fm_alphabet}

-- "-h", "-p", "-f", "-e", "-d", "-k", "-r" and "-c"
abbrev pub flag : ℕ → List ℕ
flag letter = 45 ∷ letter ∷ []

abbrev pub flag_h : List ℕ
flag_h = flag 104

abbrev pub flag_p : List ℕ
flag_p = flag 112

abbrev pub flag_f : List ℕ
flag_f = flag 102

abbrev pub flag_e : List ℕ
flag_e = flag 101

abbrev pub flag_d : List ℕ
flag_d = flag 100

abbrev pub flag_k : List ℕ
flag_k = flag 107

abbrev pub flag_r : List ℕ
flag_r = flag 114

abbrev pub flag_c : List ℕ
flag_c = flag 99

-- The local variables of the loop, and the global `key`.
pub record Settings : Type 0 where
  pub key : Option (List ℕ)
  pub row : ℕ
  pub col : ℕ
  pub k_count : ℕ
  pub r_count : ℕ
  pub c_count : ℕ

abbrev pub defaults : Settings
defaults = record { key = none; row = 10; col = 10; k_count = 0; r_count = 0; c_count = 0 }

-- `reject` is a `return 0`.
pub data Parse : Type 0 where
  accept : Settings → Parse
  reject : Parse
  fault : Parse

infixl 5 ◌>>=◌
abbrev pub ◌>>=◌ : Parse → (Settings → Parse) → Parse
accept s >>= f = f s
reject >>= f = reject
fault >>= f = fault

-- "-k": the key must not repeat a character and stay in the alphabet of the cipher.
unfoldable pub check_key : List ℕ → List ℕ → List ℕ → Settings → Parse
check_key after arg1 value s =
    if has_repeated_char after value
    then reject
    else if string_eql arg1 flag_p && not (is_legal_in_alphabet value polybius_alphabet)
    then reject
    else if string_eql arg1 flag_f && not (is_legal_in_alphabet value fm_alphabet)
    then reject
    else accept (record s { key = some value })

unfoldable pub take_key : List ℕ → List ℕ → Option (List ℕ) → Settings → Parse
unfolding check_key
take_key after arg1 value s = if ltb 1 (s.k_count + 1) then reject else elim value [
  | none ↦ fault
  | some value ↦ check_key after arg1 value (record s { k_count = s.k_count + 1 })
]

-- "-r"
unfoldable pub take_row : List ℕ → Option (List ℕ) → Settings → Parse
take_row arg1 value s =
    if string_eql arg1 flag_f
    then reject
    else if ltb 1 (s.r_count + 1)
    then reject
    else elim value [
      | none ↦ fault
      | some value ↦
          if ltb (string_to_int value) 9 || ltb 15 (string_to_int value)
          then reject
          else accept (record s { r_count = s.r_count + 1; row = string_to_int value })
    ]

-- "-c"
unfoldable pub take_col : List ℕ → Option (List ℕ) → Settings → Parse
take_col arg1 value s =
    if string_eql arg1 flag_f
    then reject
    else if ltb 1 (s.c_count + 1)
    then reject
    else elim value [
      | none ↦ fault
      | some value ↦
          if ltb (string_to_int value) 9 || ltb 15 (string_to_int value)
          then reject
          else accept (record s { c_count = s.c_count + 1; col = string_to_int value })
    ]

-- One round of the loop: an argument, and the one behind it.
unfoldable pub read_argument : List ℕ → List ℕ → List ℕ → Option (List ℕ) → Settings → Parse
unfolding take_key take_row take_col
read_argument after arg1 arg value s = do
  s ← (if string_eql arg flag_k then take_key after arg1 value s else accept s)
  s ← (if string_eql arg flag_r then take_row arg1 value s else accept s)
  if string_eql arg flag_c then take_col arg1 value s else accept s

unfoldable pub next_argument : List (List ℕ) → Option (List ℕ)
next_argument [] = none
next_argument (arg ∷ rest) = some arg

unfoldable pub read_arguments : List ℕ → List ℕ → List (List ℕ) → Settings → Parse
read_arguments after arg1 [] s = accept s
read_arguments after arg1 (arg ∷ rest) s =
    read_argument after arg1 arg (next_argument rest) s >>= read_arguments after arg1 rest

-- The bits of the value returned.
unfoldable pub cipher_bits : List ℕ → ℕ → ℕ → ℕ
cipher_bits arg1 row col =
    if string_eql arg1 flag_f
    then bit_or 0 0x4000
    else if string_eql arg1 flag_p
    then bit_or (bit_or (bit_and (bit_and 0 0xBFFF) 0xFF00) (row * 16 % 2 ^ 16)) col
    else 0

unfoldable pub mode_bits : List ℕ → List ℕ → Settings → ℕ
unfolding cipher_bits
mode_bits arg1 arg2 s =
    if string_eql arg1 flag_h
    then 0x8000
    else if string_eql arg2 flag_e
    then bit_and (cipher_bits arg1 s.row s.col) 0xDFFF
    else if string_eql arg2 flag_d
    then bit_or (cipher_bits arg1 s.row s.col) 0x2000
    else cipher_bits arg1 s.row s.col

-- `mode` is the value returned, `key` the global; a call that runs into a fault gives none.
pub record Validated : Type 0 where
  pub mode : ℕ
  pub key : Option (List ℕ)

unfoldable pub finish : List ℕ → List ℕ → Parse → Option Validated
unfolding mode_bits
finish arg1 arg2 (accept s) = some (record { mode = mode_bits arg1 arg2 s; key = s.key })
finish arg1 arg2 reject = some (record { mode = 0; key = none })
finish arg1 arg2 fault = none

unfoldable pub refused : Option Validated
refused = some (record { mode = 0; key = none })

-- `argc` is more than 2 and at most 9.
unfoldable pub validate : List ℕ → List ℕ → List ℕ → List (List ℕ) → Option Validated
unfolding finish refused
validate after arg1 arg2 options =
    if not (string_eql arg1 flag_p) && not (string_eql arg1 flag_f)
    then refused
    else if not (string_eql arg2 flag_e) && not (string_eql arg2 flag_d)
    then refused
    else finish arg1 arg2 (read_arguments after arg1 options defaults)

-- "-h" has been ruled out.
unfoldable pub check_rest : List ℕ → List ℕ → List (List ℕ) → Option Validated
unfolding validate refused
check_rest after arg1 [] = refused
check_rest after arg1 (arg2 ∷ options) = validate after arg1 arg2 options

-- The key of a call that is refused is not used; it is left out.
unfoldable pub validargs : List ℕ → List (List ℕ) → Option Validated
unfolding check_rest refused
validargs after [] = refused
validargs after (name ∷ []) = refused
validargs after (name ∷ arg1 ∷ rest) =
    if string_eql arg1 flag_h
    then some (record { mode = 0x8000; key = none })
    else if ltb 9 (suc (suc (length rest)))
    then refused
    else check_rest after arg1 rest
