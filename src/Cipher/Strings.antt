-- ===== src/Cipher/Strings.antt =====
-- Strings of hw1/src/hw1.c: `buffer_size`, `string_eql`, `string_to_int`, `has_repeated_char`,
-- `is_char_in_alphabet` and `isLegal_in_alphabet`.
--
-- A string is the list of its bytes, without the terminating '\0'. An `int` is its residue modulo
-- 2 ^ 32; a `char` from 128 on is negative, as on x86.
pub mod Equal
use cse320_projects.Common.{
  ℕ, suc, ◌+◌, ◌-◌, ◌*◌, ◌%◌, ◌^◌, Bool, true, false, not, Option, none, some, List, [], ◌∷◌, ltb,
  ◌==◌, if◌then◌else◌,
}

unfoldable pub buffer_size_loop : List ℕ → ℕ → ℕ
buffer_size_loop [] count = count
buffer_size_loop (c ∷ s) count = buffer_size_loop s (count + 1)

unfoldable pub buffer_size : List ℕ → ℕ
buffer_size buffer = buffer_size_loop buffer 0

unfoldable pub string_eql_loop : List ℕ → List ℕ → Bool
string_eql_loop [] t = true
string_eql_loop (a ∷ s) [] = true
string_eql_loop (a ∷ s) (b ∷ t) = let rest = string_eql_loop s t in if a == b then rest else false

unfoldable pub string_eql : List ℕ → List ℕ → Bool
string_eql s t = if not (buffer_size s == buffer_size t) then false else string_eql_loop s t

-- The value of a `char` as an `int`.
unfoldable pub char_value : ℕ → ℕ
char_value c = if ltb c 128 then c else c + 2 ^ 32 - 256

unfoldable pub string_to_int_loop : List ℕ → ℕ → ℕ
string_to_int_loop [] ans = ans
string_to_int_loop (digit ∷ s) ans =
    string_to_int_loop s ((ans * 10 + (char_value digit + 2 ^ 32 - 48)) % 2 ^ 32)

unfoldable pub string_to_int : List ℕ → ℕ
string_to_int [] = 0
string_to_int (c ∷ s) =
    if c == 45 then (2 ^ 32 - string_to_int_loop s 0) % 2 ^ 32 else string_to_int_loop (c ∷ s) 0

unfoldable pub is_char_in_alphabet : ℕ → List ℕ → Bool
is_char_in_alphabet letter [] = false
is_char_in_alphabet letter (c ∷ alphabet) =
    let rest = is_char_in_alphabet letter alphabet in if letter == c then true else rest

unfoldable pub repeats : List ℕ → Bool
repeats [] = false
repeats (c ∷ s) = let rest = repeats s in if is_char_in_alphabet c s then true else rest

-- The first test reads the byte behind the first one, which for an empty string is the first byte
-- behind its end: the loop then goes through the string `after` that begins there.
unfoldable pub has_repeated_char : List ℕ → List ℕ → Bool
has_repeated_char after [] = repeats after
has_repeated_char after (c ∷ s) = repeats (c ∷ s)

unfoldable pub is_legal_in_alphabet : List ℕ → List ℕ → Bool
is_legal_in_alphabet [] alphabet = true
is_legal_in_alphabet (c ∷ key) alphabet =
    let rest = is_legal_in_alphabet key alphabet in
    if not (is_char_in_alphabet c alphabet) then false else rest
