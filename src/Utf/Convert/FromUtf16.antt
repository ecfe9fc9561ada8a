-- ===== src/Utf/Convert/FromUtf16.antt =====
-- The conversions between the byte orders of UTF-16, hw2/src/utf16le.c and hw2/src/utf16be.c, on the
-- bytes of a list of units.
use cse320_projects.Common.{
  ℕ, zero, suc, ◌+◌, ◌*◌, ◌/◌, ◌%◌, ◌≤◌, ◌<◌, ◌≡◌, refl, ◌∙◌, ap, Bool, true, false, none, some,
  List, [], ◌∷◌, ltb, if◌then◌else◌, get_or, set, length, arith, take, drop,
}
use cse320_projects.Utf.{
  Utf16Glyph, int_bytes, uint16_bytes, uint16_of, reverse_bytes, reverse_loop, read_to_bigendian,
  store, store_uint16,
}
use cse320_projects.Utf.Utf16.{is_lower_surrogate_pair, glyph_bytes}
use cse320_projects.Utf.Utf16.Trip.{little_endian, big_endian, reverse_uint16_lem}
use cse320_projects.Utf.Convert.{
  write_to_bigendian, stop, bom_bytes, read_upper, utf16le_loop, from_utf16le_to_utf16be,
  utf16be_loop, from_utf16be_to_utf16le,
}

unfoldable pub all_units : List ℕ → Bool
all_units [] = true
all_units (u ∷ us) = let rest = all_units us in if ltb u 0x10000 then rest else false

read_upper-bytes :
    (u : ℕ) (buf : Utf16Glyph)
    → u < 0x10000
    → read_upper (u % 256 ∷ u / 256 ∷ []) buf ≡ record buf { upper_bytes = u % 256 * 256 + u / 256 }
unfolding read_upper store_uint16 store uint16_bytes uint16_of get_or set
read_upper-bytes u buf h = ground (arith, reverse_uint16_lem u h)

-- The half that is tested is not the one that was read.
lower_kept :
    (u : ℕ) (buf : Utf16Glyph)
    → is_lower_surrogate_pair buf ≡ false
    → is_lower_surrogate_pair (record buf { upper_bytes = u % 256 * 256 + u / 256 }) ≡ false
unfolding is_lower_surrogate_pair
lower_kept u buf unpaired = unpaired

le_end :
    (n : ℕ) (buf : Utf16Glyph) (broken : Bool)
    → utf16le_loop (suc n) (record { bytes = []; broken = broken }) buf
      ≡ some (record { written = []; ret = if broken then none else some 0 })
unfolding utf16le_loop read_to_bigendian stop
le_end n buf true = refl
le_end n buf false = refl

le_round :
    (n u : ℕ) (us : List ℕ) (buf : Utf16Glyph) (broken : Bool)
    → u < 0x10000
    → is_lower_surrogate_pair buf ≡ false
    → utf16le_loop (suc n) (record { bytes = little_endian (u ∷ us); broken = broken }) buf
      ≡ write_to_bigendian (u / 256 ∷ u % 256 ∷ []) (
          utf16le_loop n
            (record { bytes = little_endian us; broken = broken })
            (record buf { upper_bytes = u % 256 * 256 + u / 256 }))
unfolding utf16le_loop read_to_bigendian take drop little_endian glyph_bytes uint16_bytes
le_round n u us buf broken h unpaired =
    ground (arith, unpaired, read_upper-bytes u buf h, lower_kept u buf unpaired)

length-little_endian : (us : List ℕ) → length us ≤ length (little_endian us)
unfolding little_endian
length-little_endian [] = omega arith
length-little_endian (u ∷ us) = omega (arith, length-little_endian us)

le_text :
    (n : ℕ) (us : List ℕ) (buf : Utf16Glyph) (broken : Bool)
    → all_units us ≡ true
    → length us < n
    → is_lower_surrogate_pair buf ≡ false
    → utf16le_loop n (record { bytes = little_endian us; broken = broken }) buf
      ≡ some (record { written = big_endian us; ret = if broken then none else some 0 })
unfolding all_units big_endian
le_text zero us buf broken small fuel unpaired = absurd (omega arith)
le_text (suc n) [] buf broken small fuel unpaired = unfold little_endian in le_end n buf broken
le_text (suc n) (u ∷ us) buf broken small fuel unpaired =
    let h : u < 0x10000 = ground (arith, small) in
    let rest =
      le_text n us (record buf { upper_bytes = u % 256 * 256 + u / 256 }) broken
        (ground (arith, small)) (omega arith) (lower_kept u buf unpaired) in
    le_round n u us buf broken h unpaired
    ∙ ap (write_to_bigendian (u / 256 ∷ u % 256 ∷ [])) rest
    ∙ (unfold write_to_bigendian in refl)

pub from_utf16le_to_utf16be-units :
    (garbage : Utf16Glyph) (us : List ℕ) (broken : Bool)
    → is_lower_surrogate_pair garbage ≡ false
    → all_units us ≡ true
    → from_utf16le_to_utf16be garbage (record { bytes = little_endian us; broken = broken })
      ≡ some
          (record { written = 0xFE ∷ 0xFF ∷ big_endian us; ret = if broken then none else some 0 })
unfolding from_utf16le_to_utf16be write_to_bigendian bom_bytes int_bytes reverse_bytes reverse_loop
    take get_or set
from_utf16le_to_utf16be-units garbage us broken unpaired small =
    rw
      (le_text (suc (length (little_endian us))) us garbage broken small
        (omega (arith, length-little_endian us)) unpaired)
      refl

-- Four bytes of the mark for each unit that is read.
unfoldable pub marks : List ℕ → List ℕ
marks [] = []
marks (u ∷ us) = 0x00 ∷ 0xFF ∷ 0xFE ∷ 0x00 ∷ marks us

be_end :
    (bom : List ℕ) (n : ℕ) (buf : Utf16Glyph) (broken : Bool)
    → utf16be_loop bom (suc n) (record { bytes = []; broken = broken }) buf
      ≡ some (record { written = []; ret = if broken then none else some 0 })
unfolding utf16be_loop read_to_bigendian stop
be_end bom n buf true = refl
be_end bom n buf false = refl

be_round :
    (behind : List ℕ) (n u v : ℕ) (bytes : List ℕ) (buf : Utf16Glyph) (broken : Bool)
    → is_lower_surrogate_pair buf ≡ false
    → (buf' : Utf16Glyph) × (is_lower_surrogate_pair buf' ≡ false)
      × (utf16be_loop
            (0x00 ∷ 0xFF ∷ 0xFE ∷ 0x00 ∷ behind)
            (suc n)
            (record { bytes = u ∷ v ∷ bytes; broken = broken })
            buf
          ≡ write_to_bigendian (0x00 ∷ 0xFF ∷ 0xFE ∷ 0x00 ∷ []) (
              utf16be_loop
                (0x00 ∷ 0xFF ∷ 0xFE ∷ 0x00 ∷ behind)
                n
                (record { bytes = bytes; broken = broken })
                buf'))
unfolding utf16be_loop read_to_bigendian take drop
be_round behind n u v bytes buf broken unpaired =
    let buf' = read_upper (u ∷ v ∷ []) buf in
    let unpaired' : is_lower_surrogate_pair buf' ≡ false =
      unfold is_lower_surrogate_pair read_upper in unpaired in
    (buf', unpaired', ground (arith, unpaired'))

be_marks :
    (behind : List ℕ) (n : ℕ) (us : List ℕ) (buf : Utf16Glyph) (broken : Bool)
    → length us < n
    → is_lower_surrogate_pair buf ≡ false
    → utf16be_loop
        (0x00 ∷ 0xFF ∷ 0xFE ∷ 0x00 ∷ behind)
        n
        (record { bytes = big_endian us; broken = broken })
        buf
      ≡ some (record { written = marks us; ret = if broken then none else some 0 })
unfolding marks big_endian
be_marks behind zero us buf broken fuel unpaired = absurd (omega arith)
be_marks behind (suc n) [] buf broken fuel unpaired = be_end _ n buf broken
be_marks behind (suc n) (u ∷ us) buf broken fuel unpaired =
    let (buf', unpaired', round) =
      be_round behind n (u / 256) (u % 256) (big_endian us) buf broken unpaired in
    round
    ∙ ap (write_to_bigendian (0x00 ∷ 0xFF ∷ 0xFE ∷ 0x00 ∷ []))
        (be_marks behind n us buf' broken (omega arith) unpaired')
    ∙ (unfold write_to_bigendian in refl)

length-big_endian : (us : List ℕ) → length us ≤ length (big_endian us)
unfolding big_endian
length-big_endian [] = omega arith
length-big_endian (u ∷ us) = omega (arith, length-big_endian us)

-- `from_utf16be_to_utf16le` writes nothing of what it reads: the output is the bytes 00 FF, and the
-- bytes 00 FF FE 00 for every unit of the input, if the uncleared half that is taken for a
-- surrogate is none.
pub from_utf16be_to_utf16le-marks :
    (behind : List ℕ) (garbage : Utf16Glyph) (us : List ℕ) (broken : Bool)
    → is_lower_surrogate_pair garbage ≡ false
    → from_utf16be_to_utf16le behind garbage (record { bytes = big_endian us; broken = broken })
      ≡ some (record { written = 0x00 ∷ 0xFF ∷ marks us; ret = if broken then none else some 0 })
unfolding from_utf16be_to_utf16le write_to_bigendian int_bytes reverse_bytes reverse_loop take
    get_or set
from_utf16be_to_utf16le-marks behind garbage us broken unpaired =
    rw
      (be_marks behind (suc (length (big_endian us))) us garbage broken
        (omega (arith, length-big_endian us)) unpaired)
      refl
