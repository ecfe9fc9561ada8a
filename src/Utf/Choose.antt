-- ===== src/Utf/Choose.antt =====
-- `check_bom` and `get_encoding_function` of hw2/src/utf.c, and the strings of hw2/src/args.c:
-- `determine_format`, `bom_to_string`, `array_size` and `join_string_array`.
--
-- A string is the list of its bytes, without the terminating '\0'. `memecpy` also copies to where
-- the stack pointer is; the bytes there are a second buffer. What else the compiled code keeps in
-- them is not followed: it is taken to need none of them. `malloc` gives the memory asked for.
pub mod Formats
pub mod Joined
use Prim.Native.Nat.{bit_and}
use cse320_projects.Common.{
  ℕ, zero, suc, ◌+◌, ◌-◌, ◌*◌, ◌%◌, ◌^◌, Bool, true, false, ◌&&◌, Option, none, some, List, [], ◌∷◌,
  ◌==◌, ltb, if◌then◌else◌, get_or, replicate, length,
}
use cse320_projects.Utf.{
  utf16le, utf16be, utf8, int_bytes, reverse_bytes, InFile, read_to_bigendian, store,
}

-- The functions that convert, by name.
pub data Conversion : Type 0 where
  utf8_to_utf16le : Conversion
  utf8_to_utf16be : Conversion
  utf16le_to_utf16be : Conversion
  utf16be_to_utf16le : Conversion
  utf16be_to_utf8 : Conversion
  utf16le_to_utf8 : Conversion
  transcribe_file : Conversion

-- A difference of two formats, of type `int`.
unfoldable pub translate : ℕ → ℕ → ℕ
translate a b = (a + 2 ^ 32 - b) % 2 ^ 32

unfoldable pub get_encoding_function : ℕ → ℕ → Option Conversion
unfolding translate
get_encoding_function encoding_from encoding_to =
    let d = translate encoding_from encoding_to in
    if d == translate utf8 utf16le
    then some utf8_to_utf16le
    else if d == translate utf8 utf16be
    then some utf8_to_utf16be
    else if d == translate utf16le utf16be
    then some utf16le_to_utf16be
    else if d == translate utf16be utf16le
    then some utf16be_to_utf16le
    else if d == translate utf16be utf8
    then some utf16be_to_utf8
    else if d == translate utf16le utf8
    then some utf16le_to_utf8
    else if d == 0
    then some transcribe_file
    else none

unfoldable pub int_of : List ℕ → ℕ
int_of bytes =
    get_or bytes 0 0
    + get_or bytes 1 0 * 256
    + get_or bytes 2 0 * 65536
    + get_or bytes 3 0 * 16777216

-- `encoding_from` and `bom_length`.
pub record Mark : Type 0 where
  pub encoding_from : ℕ
  pub bom_length : ℕ

unfoldable pub classify_bom : ℕ → Option Mark
unfolding int_of int_bytes reverse_bytes
classify_bom bom =
    let swapped = int_of (reverse_bytes (int_bytes bom) 2) % 2 ^ 16 in
    if bom == utf8
    then some (record { encoding_from = utf8; bom_length = 3 })
    else if swapped == utf16le
    then some (record { encoding_from = utf16le; bom_length = 2 })
    else if swapped == utf16be
    then some (record { encoding_from = utf16be; bom_length = 2 })
    else none

-- Three bytes are read into an `int` that is 0; none is an exit.
unfoldable pub check_bom : InFile → Option Mark
unfolding classify_bom read_to_bigendian store int_of
check_bom file =
    let read = read_to_bigendian file 3 in
    elim read.bytes_read [
      | none ↦ none
      | some n ↦
          if ltb n 3
          then none
          else classify_bom (int_of (store read.data_read 0 (0 ∷ 0 ∷ 0 ∷ 0 ∷ [])))
    ]

-- "UTF16LE", "UTF16BE" and "UTF8"
abbrev pub str_utf16le : List ℕ
str_utf16le = 85 ∷ 84 ∷ 70 ∷ 49 ∷ 54 ∷ 76 ∷ 69 ∷ []

abbrev pub str_utf16be : List ℕ
str_utf16be = 85 ∷ 84 ∷ 70 ∷ 49 ∷ 54 ∷ 66 ∷ 69 ∷ []

abbrev pub str_utf8 : List ℕ
str_utf8 = 85 ∷ 84 ∷ 70 ∷ 56 ∷ []

-- "UNKNOWN"
abbrev pub str_unknown : List ℕ
str_unknown = 85 ∷ 78 ∷ 75 ∷ 78 ∷ 79 ∷ 87 ∷ 78 ∷ []

-- `strcmp(s, t) == 0`
unfoldable pub strcmp_eq : List ℕ → List ℕ → Bool
strcmp_eq [] [] = true
strcmp_eq [] (b ∷ t) = false
strcmp_eq (a ∷ s) [] = false
strcmp_eq (a ∷ s) (b ∷ t) = (a == b) && strcmp_eq s t

unfoldable pub determine_format : List ℕ → ℕ
unfolding strcmp_eq
determine_format argument =
    if strcmp_eq argument str_utf16le
    then utf16le
    else if strcmp_eq argument str_utf16be
    then utf16be
    else if strcmp_eq argument str_utf8
    then utf8
    else 0

unfoldable pub bom_to_string : ℕ → List ℕ
bom_to_string bom =
    if bom == utf8
    then str_utf8
    else if bom == utf16be
    then str_utf16be
    else if bom == utf16le
    then str_utf16le
    else str_unknown

-- An `int` that is no sum any more is none.
unfoldable pub int_sum : ℕ → Option ℕ
int_sum n = if ltb n (2 ^ 31) then some n else none

unfoldable pub array_size_loop : List (List ℕ) → ℕ → Option ℕ
unfolding int_sum
array_size_loop [] sum = int_sum (sum + 1)
array_size_loop (s ∷ array) sum =
    let rest = array_size_loop array (sum + length s + 1) in
    if ltb (sum + length s + 1) (2 ^ 31) then rest else none

unfoldable pub array_size : List (List ℕ) → Option ℕ
unfolding array_size_loop
array_size array = array_size_loop array 1

-- `ret`, and the bytes from the stack pointer in `memecpy` on.
pub record Joining : Type 0 where
  pub ret : List ℕ
  pub stack : List ℕ

-- To index `dest` of `ret`.
unfoldable pub memecpy : ℕ → List ℕ → Joining → Joining
unfolding store
memecpy dest src self = record { ret = store src dest self.ret; stack = store src 0 self.stack }

-- The strings and spaces are copied to `ret` from index `len` on. `len` stays below `str_len`, which
-- is an `int`.
unfoldable pub join_loop : List (List ℕ) → ℕ → Joining → Joining
unfolding memecpy
join_loop [] len self = self
join_loop (s ∷ array) len self =
    join_loop array (len + length s + 1) (memecpy (len + length s) (32 ∷ []) (memecpy len s self))

unfoldable pub join_allocated : List (List ℕ) → List ℕ → Option ℕ → Option Joining
unfolding join_loop replicate
join_allocated array stack none = none
join_allocated array stack (some str_len) =
    some (join_loop array 0 (record { ret = replicate str_len 0; stack = stack }))

unfoldable pub join_string_array : List (List ℕ) → List ℕ → Option Joining
unfolding join_allocated array_size
join_string_array array stack = join_allocated array stack (array_size array)
