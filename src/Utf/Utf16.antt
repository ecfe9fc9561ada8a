-- ===== src/Utf/Utf16.antt =====
-- UTF-16 glyphs: hw2/src/utf.c, and the encoders of hw2/src/utf16le.c and hw2/src/utf16be.c on a
-- little-endian host. The zero bytes that `memeset` also writes at the stack pointer are left out, as
-- in Utf/Utf8.
pub mod Trip
use Prim.Native.Nat.{bit_and, bit_or}
use cse320_projects.Common.{
  ℕ, suc, ◌+◌, ◌-◌, ◌*◌, ◌/◌, ◌%◌, ◌^◌, Bool, not, ◌&&◌, List, [], ◌∷◌, ◌++◌, ltb, leb,
  if◌then◌else◌, take,
}
use cse320_projects.Utf.{Utf16Glyph, uint16_bytes, reverse_uint16}

unfoldable pub is_upper_surrogate_pair : Utf16Glyph → Bool
is_upper_surrogate_pair glyph = ltb 0xD800 glyph.upper_bytes && ltb glyph.upper_bytes 0xDBFF

unfoldable pub is_lower_surrogate_pair : Utf16Glyph → Bool
is_lower_surrogate_pair glyph = ltb 0xDC00 glyph.lower_bytes && ltb glyph.lower_bytes 0xDFFF

unfoldable pub is_code_point_surrogate : ℕ → Bool
is_code_point_surrogate code_point = leb 0x10000 code_point

-- The differences are of type `int`, and the value of type `code_point_t`.
unfoldable pub utf16_glyph_to_code_point : Utf16Glyph → ℕ
unfolding is_upper_surrogate_pair
utf16_glyph_to_code_point glyph =
    if not (is_upper_surrogate_pair glyph)
    then glyph.upper_bytes
    else (bit_or ((glyph.upper_bytes - 0xD800) * 2 ^ 10)
          (bit_and ((glyph.lower_bytes + 2 ^ 32 - 0xDC00) % 2 ^ 32) 0x3FF)
        + 0x10000)
      % 2 ^ 32

-- A glyph and the number of its bytes that are written.
pub record Sized : Type 0 where
  pub glyph : Utf16Glyph
  pub size_of_glyph : ℕ

unfoldable pub code_point_to_utf16le_glyph : ℕ → Sized
unfolding is_code_point_surrogate
code_point_to_utf16le_glyph code_point =
    if is_code_point_surrogate code_point
    then record {
      glyph = record {
        upper_bytes = ((code_point - 0x10000) / 2 ^ 10 + 0xD800) % 2 ^ 16;
        lower_bytes = (bit_and (code_point - 0x10000) 0x3FF + 0xDC00) % 2 ^ 16;
      };
      size_of_glyph = 4;
    }
    else record {
      glyph = record { upper_bytes = bit_or 0 code_point % 2 ^ 16; lower_bytes = 0 };
      size_of_glyph = 2;
    }

unfoldable pub code_point_to_utf16be_glyph : ℕ → Sized
unfolding is_code_point_surrogate
code_point_to_utf16be_glyph code_point =
    if is_code_point_surrogate code_point
    then record {
      glyph = record {
        upper_bytes = reverse_uint16 (((code_point - 0x10000) / 2 ^ 10 + 0xD800) % 2 ^ 16);
        lower_bytes = reverse_uint16 ((bit_and (code_point - 0x10000) 0x3FF + 0xDC00) % 2 ^ 16);
      };
      size_of_glyph = 4;
    }
    else record {
      glyph = record {
        upper_bytes = reverse_uint16 (bit_or 0 code_point % 2 ^ 16);
        lower_bytes = 0;
      };
      size_of_glyph = 2;
    }

-- The first bytes of a glyph in memory, as `write` takes them.
unfoldable pub glyph_bytes : Utf16Glyph → ℕ → List ℕ
unfolding uint16_bytes take
glyph_bytes glyph n = take n (uint16_bytes glyph.upper_bytes ++ uint16_bytes glyph.lower_bytes)
