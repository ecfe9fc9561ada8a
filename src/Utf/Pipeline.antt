-- ===== src/Utf/Pipeline.antt =====
-- The conversions of hw2 one after the other.
use cse320_projects.Common.{
  ℕ, ◌/◌, ◌%◌, ◌≡◌, refl, sym, ◌∙◌, ap, true, false, some, List, [], ◌∷◌, ◌++◌, length, arith, drop,
}
use cse320_projects.Utf.{Utf16Glyph, Converted}
use cse320_projects.Utf.Utf8.Trip.{utf8_bytes}
use cse320_projects.Utf.Utf16.{is_lower_surrogate_pair}
use cse320_projects.Utf.Utf16.Trip.{utf16_units, little_endian, big_endian}
use cse320_projects.Utf.Convert.{
  from_utf8_to_utf16le, from_utf8_to_utf16be, from_utf16le_to_utf16be,
}
use cse320_projects.Utf.Convert.FromUtf8.{
  text, all_below_limit, from_utf8_to_utf16le-text, from_utf8_to_utf16be-text,
}
use cse320_projects.Utf.Convert.FromUtf16.{all_units, from_utf16le_to_utf16be-units}

little_endian-append :
    (us vs : List ℕ) → little_endian (us ++ vs) ≡ little_endian us ++ little_endian vs
unfolding little_endian
little_endian-append [] vs = refl
little_endian-append (u ∷ us) vs = ap (λ xs. u % 256 ∷ u / 256 ∷ xs) (little_endian-append us vs)

big_endian-append : (us vs : List ℕ) → big_endian (us ++ vs) ≡ big_endian us ++ big_endian vs
unfolding big_endian
big_endian-append [] vs = refl
big_endian-append (u ∷ us) vs = ap (λ xs. u / 256 ∷ u % 256 ∷ xs) (big_endian-append us vs)

little_endian-text :
    (cs : List ℕ)
    → text (λ c. little_endian (utf16_units c)) cs ≡ little_endian (text utf16_units cs)
unfolding text
little_endian-text [] = unfold little_endian in refl
little_endian-text (c ∷ cs) =
    ap (λ xs. little_endian (utf16_units c) ++ xs) (little_endian-text cs)
    ∙ sym (little_endian-append (utf16_units c) (text utf16_units cs))

big_endian-text :
    (cs : List ℕ) → text (λ c. big_endian (utf16_units c)) cs ≡ big_endian (text utf16_units cs)
unfolding text
big_endian-text [] = unfold big_endian in refl
big_endian-text (c ∷ cs) =
    ap (λ xs. big_endian (utf16_units c) ++ xs) (big_endian-text cs)
    ∙ sym (big_endian-append (utf16_units c) (text utf16_units cs))

all_units-text : (cs : List ℕ) → all_below_limit cs ≡ true → all_units (text utf16_units cs) ≡ true
unfolding text all_below_limit all_units utf16_units
all_units-text [] small = refl
all_units-text (c ∷ cs) small = ground (arith, small, all_units-text cs (ground (arith, small)))

-- For a text of code points below 0x110000, what `from_utf16le_to_utf16be` makes of the output of
-- `from_utf8_to_utf16le` behind its mark is what `from_utf8_to_utf16be` makes of the text itself,
-- if the uncleared half that is taken for a surrogate is none.
pub from_utf16le_to_utf16be-from_utf8_to_utf16le :
    (garbage cs : List ℕ) (glyph : Utf16Glyph)
    → length garbage ≡ 4
    → all_below_limit cs ≡ true
    → is_lower_surrogate_pair glyph ≡ false
    → (le : Converted) × (from_utf8_to_utf16le garbage
          (record { bytes = text utf8_bytes cs; broken = false })
        ≡ some le)
      × (from_utf16le_to_utf16be glyph (record { bytes = drop 2 le.written; broken = false })
          ≡ from_utf8_to_utf16be garbage (record { bytes = text utf8_bytes cs; broken = false }))
unfolding drop
from_utf16le_to_utf16be-from_utf8_to_utf16le garbage cs glyph four_long small unpaired = (
  _,
  from_utf8_to_utf16le-text garbage cs false four_long small,
  rw (little_endian-text cs) (
      from_utf16le_to_utf16be-units glyph (text utf16_units cs) false unpaired
        (all_units-text cs small)
      ∙ rw (← big_endian-text cs)
          (sym (from_utf8_to_utf16be-text garbage cs false four_long small))),
)
