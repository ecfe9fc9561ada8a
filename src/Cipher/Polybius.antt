-- ===== src/Cipher/Polybius.antt =====
-- `cipher_pe` and `cipher_pd` of hw1/src/hw1.c, with `cal_Index`, `is_char_in_key`,
-- `get_index_in_table`, `int_to_char` and `char_to_Index`.
--
-- The table is the array `polybius_table` of 257 bytes; with at most 15 rows and columns and a key
-- without a repeated character no write goes past it. Without a key the loop that copies the
-- alphabet reads on behind its end: `beyond` gives the bytes that lie there, and `outside` those at
-- the indices past the table. The input is a list of bytes, up to EOF. A mode has at least one
-- column; by none the division faults.
pub mod Symbols
pub mod Table
pub mod Writes
pub mod Cover
pub mod Trip
use Prim.Native.Nat.{bit_and}
use cse320_projects.Common.{
  ℕ, zero, suc, ◌+◌, ◌-◌, ◌*◌, ◌/◌, ◌%◌, ◌^◌, Bool, true, false, not, ◌&&◌, ◌||◌, Option, none,
  some, List, [], ◌∷◌, ◌++◌, ltb, ◌==◌, if◌then◌else◌, get_or, set,
}
use cse320_projects.Cipher.Strings.{is_char_in_alphabet, char_value}
use cse320_projects.Cipher.Constants.{polybius_alphabet, initial_table}

unfoldable pub cal_Index : ℕ → ℕ → ℕ → ℕ
cal_Index row_i col_i col = (row_i * col + col_i) % 2 ^ 32

unfoldable pub is_char_in_key : List ℕ → ℕ → Bool
is_char_in_key [] chr = false
is_char_in_key (c ∷ key) chr = let rest = is_char_in_key key chr in if chr == c then true else rest

-- From index `i` on; the search ends at the first '\0'.
unfoldable pub get_index_loop : ℕ → List ℕ → ℕ → Option ℕ
get_index_loop chr [] i = none
get_index_loop chr (c ∷ table) i =
    let rest = get_index_loop chr table (i + 1) in
    if c == 0 then none else if chr == c then some i else rest

unfoldable pub get_index_in_table : ℕ → List ℕ → Option ℕ
get_index_in_table chr table = get_index_loop chr table 0

unfoldable pub int_to_char : ℕ → ℕ
int_to_char index =
    if index == 10
    then 65
    else if index == 11
    then 66
    else if index == 12
    then 67
    else if index == 13
    then 68
    else if index == 14
    then 69
    else if index == 15
    then 70
    else (index + 48) % 256

unfoldable pub char_to_Index : ℕ → ℕ
char_to_Index chr =
    if chr == 65
    then 10
    else if chr == 66
    then 11
    else if chr == 67
    then 12
    else if chr == 68
    then 13
    else if chr == 69
    then 14
    else if chr == 70
    then 15
    else (char_value chr + 2 ^ 32 - 48) % 2 ^ 32

-- The rows and columns in the mode.
unfoldable pub row_of : ℕ → ℕ
row_of mode = bit_and mode 0x00F0 / 16

unfoldable pub col_of : ℕ → ℕ
col_of mode = bit_and mode 0x000F

-- The table, with the index `i` behind what is written.
pub record Filled : Type 0 where
  pub table : List ℕ
  pub i : ℕ

unfoldable pub copy_key : List ℕ → Filled → Filled
copy_key [] self = self
copy_key (c ∷ key) self =
    copy_key key (record self { table = set self.table self.i c; i = self.i + 1 })

unfoldable pub copy_rest : List ℕ → List ℕ → Filled → Filled
copy_rest key [] self = self
copy_rest key (c ∷ alphabet) self = copy_rest key alphabet (
    if is_char_in_key key c
    then self
    else record self { table = set self.table self.i c; i = self.i + 1 })

-- `n` bytes from `k` on are cleared.
unfoldable pub clear_rest : ℕ → ℕ → List ℕ → List ℕ
clear_rest zero k table = table
clear_rest (suc n) k table = clear_rest n (k + 1) (set table k 0)

unfoldable pub keyed_table : List ℕ → ℕ → List ℕ → List ℕ
unfolding copy_key copy_rest clear_rest
keyed_table key total table =
    let self = copy_rest key polybius_alphabet (copy_key key (record { table = table; i = 0 })) in
    clear_rest (total - self.i) self.i self.table

-- The byte at index `i` of the alphabet: 94 characters, '\0', and what lies behind.
unfoldable pub alphabet_byte : (ℕ → ℕ) → ℕ → ℕ
alphabet_byte beyond i =
    if ltb i 94 then get_or polybius_alphabet i 0 else if i == 94 then 0 else beyond (i - 95)

unfoldable pub copy_alphabet : (ℕ → ℕ) → ℕ → ℕ → List ℕ → List ℕ
copy_alphabet beyond zero i table = table
copy_alphabet beyond (suc n) i table = copy_alphabet beyond n (i + 1) (
    if not (alphabet_byte beyond i == 0)
    then set table i (alphabet_byte beyond i)
    else set table i 0)

unfoldable pub construct_table : (ℕ → ℕ) → Option (List ℕ) → ℕ → List ℕ → List ℕ
unfolding keyed_table copy_alphabet
construct_table beyond (some key) total table = keyed_table key total table
construct_table beyond none total table = copy_alphabet beyond total 0 table

-- What is written to stdout, and whether the exit status is EXIT_SUCCESS.
pub record Output : Type 0 where
  pub text : List ℕ
  pub success : Bool

unfoldable pub emit : ℕ → Output → Output
emit c out = record out { text = c ∷ out.text }

-- '\t', ' ' and '\n'
unfoldable pub is_blank : ℕ → Bool
is_blank c = c == 9 || c == 32 || c == 10

unfoldable pub encrypt_loop : List ℕ → ℕ → List ℕ → Output
unfolding get_index_in_table int_to_char emit is_blank
encrypt_loop table col [] = record { text = []; success = true }
encrypt_loop table col (c ∷ input) =
    let rest = encrypt_loop table col input in
    if is_blank c then emit c rest else elim (get_index_in_table c table) [
      | none ↦ record { text = []; success = false }
      | some index ↦ emit (int_to_char (index / col)) (emit (int_to_char (index % col)) rest)
    ]

unfoldable pub cipher_pe : (ℕ → ℕ) → Option (List ℕ) → ℕ → List ℕ → Output
unfolding construct_table encrypt_loop row_of col_of
cipher_pe beyond key mode input =
    encrypt_loop (construct_table beyond key (row_of mode * col_of mode) initial_table)
      (col_of mode) input

-- The row that waits for its column is `encriped_r`, 0 when there is none; `encriped_c` is 0 at the
-- start of every round.
unfoldable pub next_row : ℕ → ℕ → ℕ
unfolding is_blank
next_row encriped_r c =
    if is_blank c
    then encriped_r
    else if encriped_r == 0
    then c
    else if c == 0
    then encriped_r
    else 0

-- What a round writes. A read past the table gives what lies there.
unfoldable pub decrypted : (ℕ → ℕ) → List ℕ → ℕ → ℕ → ℕ → List ℕ
unfolding cal_Index char_to_Index is_blank
decrypted outside table col encriped_r c =
    if is_blank c
    then c ∷ []
    else if encriped_r == 0 || c == 0
    then []
    else let index = cal_Index (char_to_Index encriped_r) (char_to_Index c) col in
      get_or table index (outside index) ∷ []

unfoldable pub decrypt_loop : (ℕ → ℕ) → List ℕ → ℕ → ℕ → List ℕ → List ℕ
unfolding next_row decrypted
decrypt_loop outside table col encriped_r [] = []
decrypt_loop outside table col encriped_r (c ∷ input) =
    decrypted outside table col encriped_r c
    ++ decrypt_loop outside table col (next_row encriped_r c) input

unfoldable pub cipher_pd : (ℕ → ℕ) → (ℕ → ℕ) → Option (List ℕ) → ℕ → List ℕ → Output
unfolding construct_table decrypt_loop row_of col_of
cipher_pd beyond outside key mode input = record {
  text =
      decrypt_loop outside (construct_table beyond key (row_of mode * col_of mode) initial_table)
        (col_of mode) 0 input;
  success = true;
}
