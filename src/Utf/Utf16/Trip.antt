-- ===== src/Utf/Utf16/Trip.antt =====
-- The units of UTF-16 by the standard, and the encoders of hw2.
use native.Mathlib.Decide.{dec_lt}
use Prim.Native.Nat.{bit_and, bit_or}
use cse320_projects.Common.{
  ℕ, ◌+◌, ◌-◌, ◌*◌, ◌/◌, ◌%◌, ◌^◌, ◌≤◌, ◌<◌, ◌≡◌, ◌∙◌, ap, ◌&&◌, List, [], ◌∷◌, leb, ltb,
  if◌then◌else◌, get_or, set, arith, ◌⊎◌, take,
}
use cse320_projects.Common.Bits.{bit_and_low10, zero-bit_or, bit_or_field10}
use cse320_projects.Utf.{uint16_bytes, uint16_of, reverse_uint16, reverse_bytes, reverse_loop}
use cse320_projects.Utf.Utf16.{
  is_upper_surrogate_pair, is_code_point_surrogate, utf16_glyph_to_code_point,
  code_point_to_utf16le_glyph, code_point_to_utf16be_glyph, glyph_bytes,
}

-- The units that the standard gives to a code point.
unfoldable pub utf16_units : ℕ → List ℕ
utf16_units c =
    if ltb c 0x10000
    then c ∷ []
    else (0xD800 + (c - 0x10000) / 1024) ∷ (0xDC00 + (c - 0x10000) % 1024) ∷ []

unfoldable pub little_endian : List ℕ → List ℕ
little_endian [] = []
little_endian (u ∷ us) = u % 256 ∷ u / 256 ∷ little_endian us

unfoldable pub big_endian : List ℕ → List ℕ
big_endian [] = []
big_endian (u ∷ us) = u / 256 ∷ u % 256 ∷ big_endian us

pub reverse_uint16_lem : (n : ℕ) → n < 2 ^ 16 → reverse_uint16 n ≡ n % 256 * 256 + n / 256
unfolding reverse_uint16 reverse_bytes reverse_loop uint16_bytes uint16_of get_or set
reverse_uint16_lem n h = ground (arith, h)

-- What is written for a code point.
pub code_point_to_utf16le_glyph-bytes :
    (c : ℕ)
    → c < 0x110000
    → glyph_bytes
        (code_point_to_utf16le_glyph c).glyph
        (code_point_to_utf16le_glyph c).size_of_glyph
      ≡ little_endian (utf16_units c)
unfolding glyph_bytes code_point_to_utf16le_glyph is_code_point_surrogate utf16_units little_endian
    uint16_bytes take
code_point_to_utf16le_glyph-bytes c h = elim (dec_lt c 0x10000) [
  | yes small ↦ ground (arith, zero-bit_or c)
  | no big ↦ ground (arith, bit_and_low10 (c - 0x10000))
]

pub code_point_to_utf16be_glyph-bytes :
    (c : ℕ)
    → c < 0x110000
    → glyph_bytes
        (code_point_to_utf16be_glyph c).glyph
        (code_point_to_utf16be_glyph c).size_of_glyph
      ≡ big_endian (utf16_units c)
unfolding glyph_bytes code_point_to_utf16be_glyph is_code_point_surrogate utf16_units big_endian
    uint16_bytes take
code_point_to_utf16be_glyph-bytes c h = elim (dec_lt c 0x10000) [
  | yes small ↦ ground (arith, zero-bit_or c, reverse_uint16_lem c (omega arith))
  | no big ↦ ground (
    arith,
    bit_and_low10 (c - 0x10000),
    reverse_uint16_lem (0xD800 + (c - 0x10000) / 1024) (omega arith),
    reverse_uint16_lem (0xDC00 + (c - 0x10000) % 1024) (omega arith),
  )
]

-- The two halves of a pair, put together.
pair_fields :
    (q r : ℕ)
    → q < 1024
    → r < 1024
    → bit_or
        (((q + 0xD800) % 2 ^ 16 - 0xD800) * 2 ^ 10)
        (bit_and (((r + 0xDC00) % 2 ^ 16 + 2 ^ 32 - 0xDC00) % 2 ^ 32) 0x3FF)
      ≡ q * 1024 + r
pair_fields q r hq hr =
    let up : ((q + 0xD800) % 2 ^ 16 - 0xD800) * 2 ^ 10 ≡ q * 1024 = omega arith in
    let low : bit_and (((r + 0xDC00) % 2 ^ 16 + 2 ^ 32 - 0xDC00) % 2 ^ 32) 0x3FF ≡ r =
      bit_and_low10 (((r + 0xDC00) % 2 ^ 16 + 2 ^ 32 - 0xDC00) % 2 ^ 32) ∙ omega arith in
    ap (λ x. bit_or x (bit_and (((r + 0xDC00) % 2 ^ 16 + 2 ^ 32 - 0xDC00) % 2 ^ 32) 0x3FF)) up
    ∙ ap (λ x. bit_or (q * 1024) x) low
    ∙ bit_or_field10 q r hr

-- `utf16_glyph_to_code_point` takes the glyph of every code point that is no surrogate back to it,
-- except those from 0x10000 to 0x103FF, which become 0xD800, and those from 0x10FC00 on, which
-- become 0xDBFF.
pub utf16_glyph_to_code_point-code_point_to_utf16le_glyph :
    (c : ℕ)
    → c < 0x110000
    → (c < 0xD800) ⊎ (0xE000 ≤ c)
    → utf16_glyph_to_code_point (code_point_to_utf16le_glyph c).glyph
      ≡ (if leb 0x10000 c && ltb c 0x10400 then 0xD800 else if leb 0x10FC00 c then 0xDBFF else c)
unfolding utf16_glyph_to_code_point code_point_to_utf16le_glyph is_upper_surrogate_pair
    is_code_point_surrogate
utf16_glyph_to_code_point-code_point_to_utf16le_glyph c h scalar = elim (dec_lt c 0x10000) [
  | yes small ↦ ground (arith, zero-bit_or c, scalar)
  | no big ↦ ground (
    arith,
    bit_and_low10 (c - 0x10000),
    pair_fields ((c - 0x10000) / 1024) ((c - 0x10000) % 1024) (omega arith) (omega arith),
  )
]
