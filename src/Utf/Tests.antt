-- ===== src/Utf/Tests.antt =====
-- The theorems about hw2 at small texts: "a", U+00E9, U+20AC and U+1F600.
use cse320_projects.Common.{
  ℕ, ◌+◌, ◌≡◌, ◌&&◌, refl, inr, true, false, some, List, [], ◌∷◌, ◌++◌, leb, ltb, if◌then◌else◌,
  get_or, arith, take, drop,
}
use cse320_projects.Utf.{Utf16Glyph, Converted, reverse_bytes}
use cse320_projects.Utf.Utf8.{code_point_to_utf8_glyph, remaining_utf8_bytes}
use cse320_projects.Utf.Utf8.Trip.{utf8_bytes, decode_glyph, code_point_to_utf8_glyph-decode_glyph}
use cse320_projects.Utf.Utf16.{utf16_glyph_to_code_point, code_point_to_utf16le_glyph}
use cse320_projects.Utf.Utf16.Trip.{
  utf16_units, little_endian, big_endian, utf16_glyph_to_code_point-code_point_to_utf16le_glyph,
}
use cse320_projects.Utf.Convert.{
  from_utf8_to_utf16le, from_utf8_to_utf16be, from_utf16le_to_utf16be, from_utf16be_to_utf16le,
}
use cse320_projects.Utf.Convert.FromUtf8.{text, all_below_limit, from_utf8_to_utf16le-text}
use cse320_projects.Utf.Convert.FromUtf16.{
  marks, from_utf16le_to_utf16be-units, from_utf16be_to_utf16le-marks,
}
use cse320_projects.Utf.Pipeline.{from_utf16le_to_utf16be-from_utf8_to_utf16le}
use cse320_projects.Utf.Choose.{
  Mark, check_bom, get_encoding_function, determine_format, utf8_to_utf16le, str_utf16le,
}
use cse320_projects.Utf.Choose.Formats.{eight, le, mark, check_bom-get_encoding_function}

abbrev sample : List ℕ
sample = 0x61 ∷ 0xE9 ∷ 0x20AC ∷ 0x1F600 ∷ []

abbrev uncleared : List ℕ
uncleared = 9 ∷ 9 ∷ 9 ∷ 9 ∷ []

abbrev no_pair : Utf16Glyph
no_pair = record { upper_bytes = 7; lower_bytes = 7 }

sample_bytes :
    text utf8_bytes sample
    ≡ 0x61 ∷ 0xC3 ∷ 0xA9 ∷ 0xE2 ∷ 0x82 ∷ 0xAC ∷ 0xF0 ∷ 0x9F ∷ 0x98 ∷ 0x80 ∷ []
unfolding text utf8_bytes
sample_bytes = refl

code_point_to_utf8_glyph-decode_glyph_example :
    (glyph : List ℕ) × (size : ℕ) × (code_point_to_utf8_glyph uncleared 0x20AC ≡ some (glyph, size))
    × (take size glyph ≡ utf8_bytes 0x20AC)
    × (remaining_utf8_bytes (get_or glyph 0 0) + 1 ≡ size)
    × (decode_glyph glyph ≡ some 0x20AC)
code_point_to_utf8_glyph-decode_glyph_example =
    code_point_to_utf8_glyph-decode_glyph uncleared 0x20AC refl (omega arith)

utf16_glyph_to_code_point-code_point_to_utf16le_glyph_example :
    utf16_glyph_to_code_point (code_point_to_utf16le_glyph 0x1F600).glyph ≡ (
      if leb 0x10000 0x1F600 && ltb 0x1F600 0x10400
      then 0xD800
      else if leb 0x10FC00 0x1F600
      then 0xDBFF
      else 0x1F600)
utf16_glyph_to_code_point-code_point_to_utf16le_glyph_example =
    utf16_glyph_to_code_point-code_point_to_utf16le_glyph 0x1F600 (omega arith) (inr (omega arith))

sample_small : all_below_limit sample ≡ true
unfolding all_below_limit
sample_small = refl

from_utf8_to_utf16le-text_example :
    from_utf8_to_utf16le uncleared (record { bytes = text utf8_bytes sample; broken = false })
    ≡ some (record {
      written = 0xFF ∷ 0xFE ∷ text (λ c. little_endian (utf16_units c)) sample;
      ret = some 0;
    })
from_utf8_to_utf16le-text_example =
    from_utf8_to_utf16le-text uncleared sample false refl sample_small

from_utf16le_to_utf16be-units_example :
    from_utf16le_to_utf16be no_pair
      (record { bytes = little_endian (0xD83D ∷ 0xDE00 ∷ []); broken = false })
    ≡ some (record { written = 0xFE ∷ 0xFF ∷ big_endian (0xD83D ∷ 0xDE00 ∷ []); ret = some 0 })
from_utf16le_to_utf16be-units_example =
    from_utf16le_to_utf16be-units no_pair (0xD83D ∷ 0xDE00 ∷ []) false
      (unfold cse320_projects.Utf.Utf16.is_lower_surrogate_pair in refl)
      (unfold cse320_projects.Utf.Convert.FromUtf16.all_units in refl)

from_utf16be_to_utf16le-marks_example :
    from_utf16be_to_utf16le [] no_pair (record { bytes = big_endian (0x61 ∷ []); broken = false })
    ≡ some (record { written = 0x00 ∷ 0xFF ∷ marks (0x61 ∷ []); ret = some 0 })
from_utf16be_to_utf16le-marks_example =
    from_utf16be_to_utf16le-marks [] no_pair (0x61 ∷ []) false
      (unfold cse320_projects.Utf.Utf16.is_lower_surrogate_pair in refl)

from_utf16le_to_utf16be-from_utf8_to_utf16le_example :
    (le : Converted) × (from_utf8_to_utf16le uncleared
        (record { bytes = text utf8_bytes sample; broken = false })
      ≡ some le)
    × (from_utf16le_to_utf16be no_pair (record { bytes = drop 2 le.written; broken = false })
        ≡ from_utf8_to_utf16be uncleared
            (record { bytes = text utf8_bytes sample; broken = false }))
from_utf16le_to_utf16be-from_utf8_to_utf16le_example =
    from_utf16le_to_utf16be-from_utf8_to_utf16le uncleared sample no_pair refl sample_small
      (unfold cse320_projects.Utf.Utf16.is_lower_surrogate_pair in refl)

check_bom-get_encoding_function_example :
    (m : Mark) × (check_bom (record { bytes = mark eight ++ 0x61 ∷ []; broken = false }) ≡ some m)
    × (m.bom_length ≡ 3)
    × (get_encoding_function m.encoding_from (determine_format str_utf16le) ≡ some utf8_to_utf16le)
check_bom-get_encoding_function_example =
    check_bom-get_encoding_function eight le 0x61 [] false (omega arith)

abbrev arguments : List (List ℕ)
arguments = (97 ∷ 98 ∷ []) ∷ [] ∷ (99 ∷ []) ∷ []

abbrev stack_bytes : List ℕ
stack_bytes = 1 ∷ 2 ∷ 3 ∷ 4 ∷ []
