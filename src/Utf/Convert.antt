-- ===== src/Utf/Convert.antt =====
-- The conversion loops of hw2/src/utf8.c, hw2/src/utf16le.c and hw2/src/utf16be.c, and the choice of
-- one in hw2/src/utf.c.
--
-- A loop takes at least one byte in each round: fuel is the number of bytes in the file, and out of
-- fuel, or through a NULL function, there is no result. Buffers that are not cleared are arguments.
pub mod FromUtf8
pub mod FromUtf16
use cse320_projects.Common.{
  ℕ, zero, suc, ◌+◌, ◌-◌, ◌*◌, ◌/◌, ◌%◌, ◌^◌, Bool, true, false, not, ◌&&◌, Option, none, some,
  List, [], ◌∷◌, ◌++◌, ◌==◌, ltb, if◌then◌else◌, get_or, length, take,
}
use cse320_projects.Utf.{
  utf16le, utf16be, utf8, Utf16Glyph, int_bytes, reverse_bytes, reverse_uint16, InFile,
  read_to_bigendian, store, store_uint16, Converted,
}
use cse320_projects.Utf.Utf8.{remaining_utf8_bytes, get_utf8_decoding_function}
use cse320_projects.Utf.Utf16.{
  Sized, is_lower_surrogate_pair, code_point_to_utf16le_glyph, code_point_to_utf16be_glyph,
  glyph_bytes,
}

-- What is written before the rest.
unfoldable pub write_to_bigendian : List ℕ → Option Converted → Option Converted
write_to_bigendian xs none = none
write_to_bigendian xs (some out) = some (record out { written = xs ++ out.written })

unfoldable pub stop : Option ℕ → Option Converted
stop ret = some (record { written = []; ret = ret })

-- A glyph of UTF-8 in the buffer, with the number of its bytes behind the first; or the end.
pub data Fetch : Type 0 where
  fetched : List ℕ → ℕ → InFile → Fetch
  ended : Option ℕ → Fetch

unfoldable pub fetch_more : InFile → List ℕ → Fetch
unfolding read_to_bigendian store remaining_utf8_bytes
fetch_more infile utf8_buf =
    let remaining_bytes = remaining_utf8_bytes (get_or utf8_buf 0 0) in
    let more = read_to_bigendian infile remaining_bytes in
    if remaining_bytes == 0 then fetched utf8_buf 0 infile else elim more.bytes_read [
      | none ↦ ended none
      | some _ ↦ fetched (store more.data_read 1 utf8_buf) remaining_bytes more.rest
    ]

unfoldable pub fetch : InFile → List ℕ → Fetch
unfolding fetch_more read_to_bigendian store
fetch infile utf8_buf =
    let one = read_to_bigendian infile 1 in
    elim one.bytes_read [
      | none ↦ ended none
      | some zero ↦ ended (some 0)
      | some (suc _) ↦ fetch_more one.rest (store one.data_read 0 utf8_buf)
    ]

-- The rest of a round, with the rounds after it.
unfoldable pub utf8_round :
    (ℕ → Sized) → (InFile → List ℕ → Option Converted) → Fetch → Option Converted
unfolding get_utf8_decoding_function glyph_bytes write_to_bigendian stop
utf8_round encode later (ended ret) = stop ret
utf8_round encode later (fetched buf remaining_bytes rest) =
    elim (get_utf8_decoding_function (remaining_bytes + 1)) [
      | none ↦ none
      | some decode ↦
          let sized = encode (decode buf) in
          write_to_bigendian (glyph_bytes sized.glyph sized.size_of_glyph) (later rest buf)
    ]

-- The loop that the conversions from UTF-8 share, but for the encoder.
unfoldable pub from_utf8_loop : (ℕ → Sized) → ℕ → InFile → List ℕ → Option Converted
unfolding fetch utf8_round
from_utf8_loop encode zero infile utf8_buf = none
from_utf8_loop encode (suc n) infile utf8_buf =
    utf8_round encode (λ rest buf. from_utf8_loop encode n rest buf) (fetch infile utf8_buf)

-- The first two bytes of a byte order mark, on a little-endian host.
unfoldable pub bom_bytes : ℕ → ℕ → List ℕ
unfolding int_bytes reverse_bytes take
bom_bytes bom count = take 2 (reverse_bytes (int_bytes bom) count)

unfoldable pub from_utf8_to_utf16le : List ℕ → InFile → Option Converted
unfolding from_utf8_loop bom_bytes write_to_bigendian
from_utf8_to_utf16le garbage infile =
    write_to_bigendian (bom_bytes utf16le 2)
      (from_utf8_loop code_point_to_utf16le_glyph (suc (length infile.bytes)) infile garbage)

unfoldable pub from_utf8_to_utf16be : List ℕ → InFile → Option Converted
unfolding from_utf8_loop bom_bytes write_to_bigendian
from_utf8_to_utf16be garbage infile =
    write_to_bigendian (bom_bytes utf16be 2)
      (from_utf8_loop code_point_to_utf16be_glyph (suc (length infile.bytes)) infile garbage)

-- The lower half of a pair; none if the read fails.
unfoldable pub read_lower : InFile → Utf16Glyph → Option (Utf16Glyph × InFile)
read_lower infile buf =
    let low = read_to_bigendian infile 2 in
    elim low.bytes_read [
      | none ↦ none
      | some _ ↦ some (
        record buf { lower_bytes = reverse_uint16 (store_uint16 low.data_read buf.lower_bytes) },
        low.rest,
      )
    ]

-- `read` into `upper_bytes`, and `reverse_bytes`.
unfoldable pub read_upper : List ℕ → Utf16Glyph → Utf16Glyph
read_upper read buf = record buf {
  upper_bytes = reverse_uint16 (store_uint16 read buf.upper_bytes);
}

unfoldable pub utf16le_loop : ℕ → InFile → Utf16Glyph → Option Converted
utf16le_loop zero infile buf = none
utf16le_loop (suc n) infile buf =
    let up = read_to_bigendian infile 2 in
    elim up.bytes_read [
      | none ↦ stop none
      | some zero ↦ stop (some 0)
      | some (suc _) ↦ elim (is_lower_surrogate_pair (read_upper up.data_read buf)) [
        | true ↦ elim (read_lower up.rest (read_upper up.data_read buf)) [
          | none ↦ stop none
          | some (buf', rest) ↦ write_to_bigendian (glyph_bytes buf' 4) (utf16le_loop n rest buf')
        ]
        | false ↦
            write_to_bigendian (glyph_bytes (read_upper up.data_read buf) 2)
              (utf16le_loop n up.rest (read_upper up.data_read buf))
      ]
    ]

unfoldable pub from_utf16le_to_utf16be : Utf16Glyph → InFile → Option Converted
unfolding utf16le_loop bom_bytes write_to_bigendian
from_utf16le_to_utf16be garbage infile =
    write_to_bigendian (bom_bytes utf16be 2)
      (utf16le_loop (suc (length infile.bytes)) infile garbage)

-- Here `bytes_read` is the result of a comparison, and the four bytes of `bom`, with `behind` behind
-- them in memory, are written for every glyph.
unfoldable pub utf16be_loop : List ℕ → ℕ → InFile → Utf16Glyph → Option Converted
utf16be_loop bom zero infile buf = none
utf16be_loop bom (suc n) infile buf =
    let up = read_to_bigendian infile 2 in
    let low = read_to_bigendian up.rest 2 in
    let buf' = read_upper up.data_read buf in
    elim up.bytes_read [
      | none ↦ stop none
      | some zero ↦ stop (some 0)
      | some (suc _) ↦ elim (is_lower_surrogate_pair buf') [
        | true ↦ elim low.bytes_read [
          | some (suc _) ↦ stop (some 1)
          | _ ↦ write_to_bigendian (take 6 bom) (
              utf16be_loop bom n low.rest
                (record buf' { lower_bytes = reverse_uint16 buf'.lower_bytes }))
        ]
        | false ↦ write_to_bigendian (take 4 bom) (utf16be_loop bom n up.rest buf')
      ]
    ]

unfoldable pub from_utf16be_to_utf16le : List ℕ → Utf16Glyph → InFile → Option Converted
unfolding utf16be_loop write_to_bigendian int_bytes reverse_bytes take
from_utf16be_to_utf16le behind garbage infile =
    let bom = reverse_bytes (int_bytes utf16le) 3 in
    write_to_bigendian (take 2 bom)
      (utf16be_loop (bom ++ behind) (suc (length infile.bytes)) infile garbage)
