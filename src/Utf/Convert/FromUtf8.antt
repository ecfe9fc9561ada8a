-- ===== src/Utf/Convert/FromUtf8.antt =====
-- The conversions from UTF-8 of hw2/src/utf8.c, on the bytes of a list of code points.
use cse320_projects.Common.{
  ℕ, zero, suc, ◌+◌, ◌≤◌, ◌<◌, ◌≡◌, refl, ◌∙◌, ap, Bool, true, false, Option, none, some, List, [],
  ◌∷◌, ◌++◌, ltb, if◌then◌else◌, get_or, set, length, arith, length-append, take, drop,
}
use cse320_projects.Utf.{
  int_bytes, reverse_bytes, reverse_loop, InFile, read_to_bigendian, store, Converted,
}
use cse320_projects.Utf.Utf8.{remaining_utf8_bytes, get_utf8_decoding_function}
use cse320_projects.Utf.Utf8.Trip.{
  utf8_bytes, Range, one, two, three, four, Range-of, decode_glyph, decode_glyph-bytes,
}
use cse320_projects.Utf.Utf16.{
  Sized, code_point_to_utf16le_glyph, code_point_to_utf16be_glyph, glyph_bytes,
}
use cse320_projects.Utf.Utf16.Trip.{
  utf16_units, little_endian, big_endian, code_point_to_utf16le_glyph-bytes,
  code_point_to_utf16be_glyph-bytes,
}
use cse320_projects.Utf.Convert.{
  write_to_bigendian, stop, fetched, fetch, fetch_more, utf8_round, from_utf8_loop, bom_bytes,
  from_utf8_to_utf16le, from_utf8_to_utf16be,
}

-- The encodings of a list of code points, one after the other.
unfoldable pub text : (ℕ → List ℕ) → List ℕ → List ℕ
text encoding [] = []
text encoding (c ∷ cs) = encoding c ++ text encoding cs

unfoldable pub all_below_limit : List ℕ → Bool
all_below_limit [] = true
all_below_limit (c ∷ cs) = let rest = all_below_limit cs in if ltb c 0x110000 then rest else false

-- A round reads the glyph into the front of the buffer.
fetch-bytes :
    (b0 b1 b2 b3 c : ℕ) (rest : List ℕ) (broken : Bool)
    → Range c
    → (tail : List ℕ) × (length (utf8_bytes c ++ tail) ≡ 4)
      × (fetch (record { bytes = utf8_bytes c ++ rest; broken = broken }) (b0 ∷ b1 ∷ b2 ∷ b3 ∷ [])
          ≡ fetched
              (utf8_bytes c ++ tail)
              (remaining_utf8_bytes (get_or (utf8_bytes c ++ tail) 0 0))
              (record { bytes = rest; broken = broken }))
unfolding fetch fetch_more read_to_bigendian store take drop utf8_bytes remaining_utf8_bytes get_or
    set
fetch-bytes b0 b1 b2 b3 c rest broken (one a) = (b1 ∷ b2 ∷ b3 ∷ [], ground arith, ground arith)
fetch-bytes b0 b1 b2 b3 c rest broken (two a b) = (b2 ∷ b3 ∷ [], ground arith, ground arith)
fetch-bytes b0 b1 b2 b3 c rest broken (three a b) = (b3 ∷ [], ground arith, ground arith)
fetch-bytes b0 b1 b2 b3 c rest broken (four a b) = ([], ground arith, ground arith)

four_bytes_of :
    (buf : List ℕ)
    → length buf ≡ 4
    → (b0 : ℕ) × (b1 : ℕ) × (b2 : ℕ) × (b3 : ℕ) × (buf ≡ b0 ∷ b1 ∷ b2 ∷ b3 ∷ [])
four_bytes_of [] e = absurd (omega arith)
four_bytes_of (a ∷ []) e = absurd (omega arith)
four_bytes_of (a ∷ b ∷ []) e = absurd (omega arith)
four_bytes_of (a ∷ b ∷ c ∷ []) e = absurd (omega arith)
four_bytes_of (a ∷ b ∷ c ∷ d ∷ []) e = (a, b, c, d, refl)
four_bytes_of (a ∷ b ∷ c ∷ d ∷ x ∷ xs) e = absurd (omega arith)

chosen :
    (encode : ℕ → Sized) (out : Option Converted) (c : ℕ) (buf : List ℕ) (o : Option (List ℕ → ℕ))
    → ◌≡◌ {A = Option ℕ} (elim o [ none ↦ none | some decode ↦ some (decode buf) ]) (some c)
    → ◌≡◌ {A = Option Converted}
        (elim o [
          | none ↦ none
          | some decode ↦
              write_to_bigendian
                (glyph_bytes (encode (decode buf)).glyph (encode (decode buf)).size_of_glyph)
                out
        ])
        (write_to_bigendian (glyph_bytes (encode c).glyph (encode c).size_of_glyph) out)
chosen encode out c buf none h = absurd (cc (h))
chosen encode out c buf (some decode) h = let same : decode buf ≡ c = cc (h) in rw same refl

-- A round that fetches a glyph writes what the encoder makes of it.
utf8_round-decoded :
    (encode : ℕ → Sized) (later : InFile → List ℕ → Option Converted) (c : ℕ) (rest : InFile)
    (buf : List ℕ)
    → decode_glyph buf ≡ some c
    → utf8_round encode later (fetched buf (remaining_utf8_bytes (get_or buf 0 0)) rest)
      ≡ write_to_bigendian (glyph_bytes (encode c).glyph (encode c).size_of_glyph) (later rest buf)
unfolding utf8_round decode_glyph
utf8_round-decoded encode later c rest buf decoded =
    chosen encode (later rest buf) c buf
      (get_utf8_decoding_function (remaining_utf8_bytes (get_or buf 0 0) + 1)) decoded

loop_round :
    (encode : ℕ → Sized) (n c : ℕ) (infile rest : InFile) (buf buf' : List ℕ)
    → fetch infile buf ≡ fetched buf' (remaining_utf8_bytes (get_or buf' 0 0)) rest
    → decode_glyph buf' ≡ some c
    → from_utf8_loop encode (suc n) infile buf
      ≡ write_to_bigendian
          (glyph_bytes (encode c).glyph (encode c).size_of_glyph)
          (from_utf8_loop encode n rest buf')
unfolding from_utf8_loop
loop_round encode n c infile rest buf buf' round decoded =
    ap (utf8_round encode (λ rest buf. from_utf8_loop encode n rest buf)) round
    ∙ utf8_round-decoded encode (λ rest buf. from_utf8_loop encode n rest buf) c rest buf' decoded

-- What a conversion of such a text writes and returns.
pub converted : (ℕ → List ℕ) → List ℕ → Bool → Option Converted
converted encoding cs broken =
    some (record { written = text encoding cs; ret = if broken then none else some 0 })

loop_end :
    (encode : ℕ → Sized) (n : ℕ) (buf : List ℕ) (broken : Bool)
    → from_utf8_loop encode (suc n) (record { bytes = []; broken = broken }) buf
      ≡ some (record { written = []; ret = if broken then none else some 0 })
unfolding from_utf8_loop fetch read_to_bigendian stop
loop_end encode n buf true = refl
loop_end encode n buf false = refl

loop_more :
    (encode : ℕ → Sized) (encoding : ℕ → List ℕ) (n c : ℕ) (cs buf : List ℕ) (broken : Bool)
    → Range c
    → length buf ≡ 4
    → glyph_bytes (encode c).glyph (encode c).size_of_glyph ≡ encoding c
    → ((buf' : List ℕ)
        → length buf' ≡ 4
        → from_utf8_loop encode n (record { bytes = text utf8_bytes cs; broken = broken }) buf'
          ≡ converted encoding cs broken)
    → from_utf8_loop encode
        (suc n)
        (record { bytes = text utf8_bytes (c ∷ cs); broken = broken })
        buf
      ≡ converted encoding (c ∷ cs) broken
unfolding text converted write_to_bigendian
loop_more encode encoding n c cs buf broken range four_long agrees rest =
    let (b0, b1, b2, b3, e) = four_bytes_of buf four_long in
    let (tail, four_long', round) = fetch-bytes b0 b1 b2 b3 c (text utf8_bytes cs) broken range in
    rw e (
      loop_round encode n c _ _ _ _ round (decode_glyph-bytes c tail range)
      ∙ rw (rest (utf8_bytes c ++ tail) four_long', agrees) refl)

from_utf8_loop-text :
    (encode : ℕ → Sized) (encoding : ℕ → List ℕ)
    → ((c : ℕ) → c < 0x110000 → glyph_bytes (encode c).glyph (encode c).size_of_glyph ≡ encoding c)
    → (n : ℕ) (cs buf : List ℕ) (broken : Bool) → all_below_limit cs ≡ true
    → length cs < n
    → length buf ≡ 4
    → from_utf8_loop encode n (record { bytes = text utf8_bytes cs; broken = broken }) buf
      ≡ converted encoding cs broken
unfolding text all_below_limit converted
from_utf8_loop-text encode encoding agrees zero cs buf broken small fuel four_long =
    absurd (omega arith)
from_utf8_loop-text encode encoding agrees (suc n) [] buf broken small fuel four_long =
    loop_end encode n buf broken
from_utf8_loop-text encode encoding agrees (suc n) (c ∷ cs) buf broken small fuel four_long =
    let below : c < 0x110000 = ground (arith, small) in
    loop_more encode encoding n c cs buf broken (Range-of c (omega arith)) four_long
      (agrees c below)
      (λ buf' four_long'.
        from_utf8_loop-text encode encoding agrees n cs buf' broken (ground (arith, small))
          (omega arith) four_long')

-- Every code point takes a byte, so that the fuel is enough.
length-text : (cs : List ℕ) → all_below_limit cs ≡ true → length cs ≤ length (text utf8_bytes cs)
unfolding text all_below_limit utf8_bytes
length-text [] small = omega arith
length-text (c ∷ cs) small = ground (
  arith,
  small,
  length-append (utf8_bytes c) (text utf8_bytes cs),
  length-text cs (ground (arith, small)),
)

-- `from_utf8_to_utf16le` of a file that is a text of code points below 0x110000 in UTF-8 ends, and
-- writes the mark and the same text in little-endian UTF-16; it returns 0, or -1 if the file cannot
-- be read to its end.
pub from_utf8_to_utf16le-text :
    (garbage cs : List ℕ) (broken : Bool)
    → length garbage ≡ 4
    → all_below_limit cs ≡ true
    → from_utf8_to_utf16le garbage (record { bytes = text utf8_bytes cs; broken = broken })
      ≡ some (record {
        written = 0xFF ∷ 0xFE ∷ text (λ c. little_endian (utf16_units c)) cs;
        ret = if broken then none else some 0;
      })
unfolding from_utf8_to_utf16le write_to_bigendian bom_bytes int_bytes reverse_bytes reverse_loop
    take get_or set converted
from_utf8_to_utf16le-text garbage cs broken four_long small =
    rw
      (from_utf8_loop-text code_point_to_utf16le_glyph (λ c. little_endian (utf16_units c))
        code_point_to_utf16le_glyph-bytes (suc (length (text utf8_bytes cs))) cs garbage broken
        small (omega (arith, length-text cs small)) four_long)
      refl

pub from_utf8_to_utf16be-text :
    (garbage cs : List ℕ) (broken : Bool)
    → length garbage ≡ 4
    → all_below_limit cs ≡ true
    → from_utf8_to_utf16be garbage (record { bytes = text utf8_bytes cs; broken = broken })
      ≡ some (record {
        written = 0xFE ∷ 0xFF ∷ text (λ c. big_endian (utf16_units c)) cs;
        ret = if broken then none else some 0;
      })
unfolding from_utf8_to_utf16be write_to_bigendian bom_bytes int_bytes reverse_bytes reverse_loop
    take get_or set converted
from_utf8_to_utf16be-text garbage cs broken four_long small =
    rw
      (from_utf8_loop-text code_point_to_utf16be_glyph (λ c. big_endian (utf16_units c))
        code_point_to_utf16be_glyph-bytes (suc (length (text utf8_bytes cs))) cs garbage broken
        small (omega (arith, length-text cs small)) four_long)
      refl
