-- ===== src/Utf.antt =====
-- The UTF converter of hw2: the types of hw2/include/utf.h, the bytes of a little-endian host, and
-- files.
--
-- `code_point_t` and `int` are numbers below 2 ^ 32, the halves of a `utf16_glyph_t` below 2 ^ 16, a
-- `utf8_glyph_t` is the list of its four bytes. A file that is read is the list of the bytes left in
-- it; when none is left `read` gives 0, or -1 if the file is broken there. What is written is a list.
pub mod Reverse
pub mod Utf8
pub mod Utf16
pub mod Convert
pub mod Choose
pub mod Pipeline
mod Tests
use cse320_projects.Common.{
  ℕ, zero, suc, ◌+◌, ◌-◌, ◌*◌, ◌/◌, ◌%◌, ◌^◌, Bool, Option, none, some, List, [], ◌∷◌, ltb,
  if◌then◌else◌, get_or, set, take, drop, length,
}

abbrev pub utf16le : ℕ
utf16le = 0xFFFE

abbrev pub utf16be : ℕ
utf16be = 0xFEFF

abbrev pub utf8 : ℕ
utf8 = 0xBFBBEF

pub record Utf16Glyph : Type 0 where
  pub upper_bytes : ℕ
  pub lower_bytes : ℕ

-- The bytes of a `uint16_t` and of an `int` in memory, and back.
unfoldable pub uint16_bytes : ℕ → List ℕ
uint16_bytes n = n % 256 ∷ n / 256 % 256 ∷ []

unfoldable pub int_bytes : ℕ → List ℕ
int_bytes n = n % 256 ∷ n / 256 % 256 ∷ n / 65536 % 256 ∷ n / 16777216 % 256 ∷ []

unfoldable pub uint16_of : List ℕ → ℕ
uint16_of bytes = get_or bytes 0 0 + get_or bytes 1 0 * 256

-- The loop of `reverse_bytes`: `i` comes down and `j` goes up until they meet.
unfoldable pub reverse_loop : ℕ → ℕ → List ℕ → List ℕ
reverse_loop zero j bytes = bytes
reverse_loop (suc i) j bytes =
    let rest =
      reverse_loop i (j + 1)
        (set (set bytes (suc i) (get_or bytes j 0)) j (get_or bytes (suc i) 0)) in
    if ltb j (suc i) then rest else bytes

unfoldable pub reverse_bytes : List ℕ → ℕ → List ℕ
unfolding reverse_loop
reverse_bytes bytes zero = bytes
reverse_bytes bytes (suc count) = reverse_loop count 0 bytes

-- `reverse_bytes(&x, 2)` for a `uint16_t`.
unfoldable pub reverse_uint16 : ℕ → ℕ
unfolding reverse_bytes uint16_bytes uint16_of
reverse_uint16 n = uint16_of (reverse_bytes (uint16_bytes n) 2)

pub record InFile : Type 0 where
  pub bytes : List ℕ
  pub broken : Bool

-- The value returned by `read`, -1 as none, with the bytes read and the file behind them.
pub record Read : Type 0 where
  pub bytes_read : Option ℕ
  pub data_read : List ℕ
  pub rest : InFile

unfoldable pub read_to_bigendian : InFile → ℕ → Read
unfolding take drop
read_to_bigendian file count = elim file.bytes [
  | [] ↦ record { bytes_read = if file.broken then none else some 0; data_read = []; rest = file }
  | x ∷ xs ↦ record {
    bytes_read = some (length (take count (x ∷ xs)));
    data_read = take count (x ∷ xs);
    rest = record file { bytes = drop count (x ∷ xs) };
  }
]

-- The bytes read overwrite the buffer from index `i` on.
unfoldable pub store : List ℕ → ℕ → List ℕ → List ℕ
store [] i buffer = buffer
store (x ∷ xs) i buffer = store xs (i + 1) (set buffer i x)

-- The two bytes read are those of a `uint16_t`; a short read leaves the other one.
unfoldable pub store_uint16 : List ℕ → ℕ → ℕ
unfolding store uint16_bytes uint16_of
store_uint16 xs n = uint16_of (store xs 0 (uint16_bytes n))

-- What a conversion wrote, and the value it returned.
pub record Converted : Type 0 where
  pub written : List ℕ
  pub ret : Option ℕ
