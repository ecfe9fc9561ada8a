-- ===== src/Cipher/Morse.antt =====
-- The parts of the fractionated Morse cipher of hw1/src/hw1.c that look things up:
-- `get_morse_table_index`, `get_frac_table_index`, `get_fm_key_index`, `does_contain_x`,
-- `get_index_in_morse_table`, `string_eql_p3`, and the alphabet `fm_key` that `cipher_fe` and
-- `cipher_fd` build. -1 is none; an index is a residue modulo 2 ^ 32.
pub mod Lookup
use cse320_projects.Common.{
  ℕ, zero, suc, ◌+◌, ◌-◌, ◌%◌, ◌^◌, Bool, true, false, not, ◌&&◌, Option, none, some, List, [], ◌∷◌,
  ltb, ◌==◌, if◌then◌else◌, set, get_or, replicate,
}
use cse320_projects.Cipher.Strings.{buffer_size, string_eql, string_eql_loop, char_value}
use cse320_projects.Cipher.Constants.{fm_alphabet}
use cse320_projects.Cipher.MorseTables.{x_mark, morse_table, fractionated_table}
use cse320_projects.Cipher.Polybius.{Filled, copy_key, copy_rest, clear_rest}

unfoldable pub get_morse_table_index : ℕ → ℕ
get_morse_table_index chr = (char_value chr + 2 ^ 32 - 33) % 2 ^ 32

unfoldable pub frac_loop : List ℕ → List (List ℕ) → ℕ → Option ℕ
frac_loop fm_buff [] i = none
frac_loop fm_buff (element ∷ table) i =
    let rest = frac_loop fm_buff table (i + 1) in
    if string_eql element fm_buff then some i else rest

unfoldable pub get_frac_table_index : List ℕ → Option ℕ
get_frac_table_index fm_buff = frac_loop fm_buff fractionated_table 0

-- An empty element is passed over.
unfoldable pub morse_loop : List ℕ → List (List ℕ) → ℕ → Option ℕ
morse_loop buff [] i = none
morse_loop buff ([] ∷ table) i = morse_loop buff table (i + 1)
morse_loop buff ((c ∷ element) ∷ table) i =
    let rest = morse_loop buff table (i + 1) in
    if string_eql (c ∷ element) buff then some i else rest

unfoldable pub get_index_in_morse_table : List ℕ → Option ℕ
get_index_in_morse_table morse_c_buff = morse_loop morse_c_buff morse_table 0

unfoldable pub does_contain_x : List ℕ → Bool
does_contain_x [] = false
does_contain_x (c ∷ buffer) = let rest = does_contain_x buffer in if c == x_mark then true else rest

unfoldable pub string_eql_p3 : List ℕ → List ℕ → Bool
string_eql_p3 s t = if not (buffer_size s == buffer_size t) then false else string_eql_loop s t

abbrev pub initial_key : List ℕ
initial_key = replicate 27 0

-- Without a key: 26 letters and '\0'.
unfoldable pub copy_letters : ℕ → ℕ → List ℕ → List ℕ
copy_letters zero i fm_key = fm_key
copy_letters (suc n) i fm_key = copy_letters n (i + 1) (
    if not (get_or fm_alphabet i 0 == 0)
    then set fm_key i (get_or fm_alphabet i 0)
    else set fm_key i 0)

unfoldable pub construct_key : Option (List ℕ) → List ℕ → List ℕ
construct_key none fm_key = copy_letters 27 0 fm_key
construct_key (some key) fm_key =
    let self = copy_rest key fm_alphabet (copy_key key (record { table = fm_key; i = 0 })) in
    clear_rest (27 - self.i) self.i self.table

-- The first `n` letters from index `i` on.
unfoldable pub fm_key_loop : ℕ → ℕ → ℕ → List ℕ → Option ℕ
fm_key_loop letter zero i fm_key = none
fm_key_loop letter (suc n) i fm_key =
    let rest = fm_key_loop letter n (i + 1) fm_key in
    if get_or fm_key i 0 == letter then some i else rest

unfoldable pub get_fm_key_index : ℕ → List ℕ → Option ℕ
get_fm_key_index letter fm_key = fm_key_loop letter 26 0 fm_key
