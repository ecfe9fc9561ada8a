-- ===== src/Utf/Utf8.antt =====
-- The encoders and decoders of hw2/src/utf8.c.
--
-- A `utf8_glyph_t` that is not cleared before it is written keeps what was there: `garbage`. Where
-- `memeset` clears one, it also writes as many zero bytes at the stack pointer: that is left out
-- here, and the compiled code is taken to keep nothing it needs in those bytes.
pub mod Trip
use Prim.Native.Nat.{bit_and, bit_or}
use cse320_projects.Common.{
  ℕ, zero, suc, ◌+◌, ◌*◌, ◌/◌, ◌%◌, ◌^◌, Bool, Option, none, some, List, [], ◌∷◌, leb, ◌==◌,
  if◌then◌else◌, get_or, set,
}

-- The bit fields of a `utf8_byte_t`.
abbrev pub top_two_remaining : ℕ → ℕ
top_two_remaining b = b % 64

abbrev pub top_three_remaining : ℕ → ℕ
top_three_remaining b = b % 32

abbrev pub top_three_bits : ℕ → ℕ
top_three_bits b = b / 32

abbrev pub top_four_remaining : ℕ → ℕ
top_four_remaining b = b % 16

abbrev pub top_four_bits : ℕ → ℕ
top_four_bits b = b / 16

abbrev pub top_five_remaining : ℕ → ℕ
top_five_remaining b = b % 8

abbrev pub top_five_bits : ℕ → ℕ
top_five_bits b = b / 8

-- `memeset(&ret, 0, sizeof ret)`
abbrev pub cleared : List ℕ
cleared = 0 ∷ 0 ∷ 0 ∷ 0 ∷ []

-- `bytes[i].byte |= buf`, with `buf` of eight bits
unfoldable pub or_byte : List ℕ → ℕ → ℕ → List ℕ
or_byte bytes i buf = set bytes i (bit_or (get_or bytes i 0) (buf % 2 ^ 8))

unfoldable pub utf8_one_byte_encode : List ℕ → ℕ → List ℕ
utf8_one_byte_encode garbage code_point = set garbage 0 (code_point % 2 ^ 8)

unfoldable pub utf8_two_byte_encode : ℕ → List ℕ
unfolding or_byte
utf8_two_byte_encode code_point =
    let low = or_byte cleared 1 (bit_or 0x80 (bit_and code_point 0x3F)) in
    or_byte low 0 (bit_or 0xC0 (bit_and (code_point / 2 ^ 6) 0x1F))

-- The loop over the continued bytes, from index `i` down to 1, and the code point left.
unfoldable pub continued_loop : ℕ → ℕ → List ℕ → List ℕ × ℕ
continued_loop zero code_point bytes = (bytes, code_point)
continued_loop (suc i) code_point bytes =
    continued_loop i (code_point / 2 ^ 6)
      (or_byte bytes (suc i) (bit_or 0x80 (bit_and code_point 0x3F)))

unfoldable pub utf8_three_byte_encode : ℕ → List ℕ
unfolding continued_loop or_byte
utf8_three_byte_encode code_point =
    let (bytes, left) = continued_loop 2 code_point cleared in
    or_byte bytes 0 (bit_or 0xE0 (bit_and left 0x0F))

unfoldable pub utf8_four_byte_encode : ℕ → List ℕ
unfolding continued_loop or_byte
utf8_four_byte_encode code_point =
    let (bytes, left) = continued_loop 3 code_point cleared in
    or_byte bytes 0 (bit_or 0xF0 (bit_and left 0x07))

unfoldable pub utf8_glyph_size_of_code_point : ℕ → ℕ
utf8_glyph_size_of_code_point code_point =
    if leb code_point 0x7F
    then 1
    else if leb code_point 0x7FF
    then 2
    else if leb code_point 0xFFFF
    then 3
    else 4

unfoldable pub get_utf8_encoding_function : ℕ → Option (List ℕ → ℕ → List ℕ)
get_utf8_encoding_function size =
    if size == 1
    then some utf8_one_byte_encode
    else if size == 2
    then some (λ garbage. utf8_two_byte_encode)
    else if size == 3
    then some (λ garbage. utf8_three_byte_encode)
    else if size == 4
    then some (λ garbage. utf8_four_byte_encode)
    else none

-- The glyph and its size; none is a call of NULL.
unfoldable pub code_point_to_utf8_glyph : List ℕ → ℕ → Option (List ℕ × ℕ)
unfolding utf8_glyph_size_of_code_point get_utf8_encoding_function
code_point_to_utf8_glyph garbage code_point =
    elim (get_utf8_encoding_function (utf8_glyph_size_of_code_point code_point)) [
      | none ↦ none
      | some encode ↦ some (encode garbage code_point, utf8_glyph_size_of_code_point code_point)
    ]

unfoldable pub remaining_utf8_bytes : ℕ → ℕ
remaining_utf8_bytes first_byte =
    if top_five_bits first_byte == 0x1E
    then 3
    else if top_four_bits first_byte == 0xE
    then 2
    else if top_three_bits first_byte == 0x6
    then 1
    else 0

unfoldable pub utf8_one_byte_decode : List ℕ → ℕ
utf8_one_byte_decode glyph = get_or glyph 0 0

unfoldable pub utf8_two_byte_decode : List ℕ → ℕ
utf8_two_byte_decode glyph =
    bit_or (bit_or 0 (top_three_remaining (get_or glyph 0 0) * 2 ^ 6))
      (top_two_remaining (get_or glyph 1 0))

unfoldable pub utf8_three_byte_decode : List ℕ → ℕ
utf8_three_byte_decode glyph =
    bit_or
      (bit_or (bit_or 0 (top_four_remaining (get_or glyph 0 0) * 2 ^ 12))
        (top_two_remaining (get_or glyph 1 0) * 2 ^ 6))
      (top_two_remaining (get_or glyph 2 0))

unfoldable pub utf8_four_byte_decode : List ℕ → ℕ
utf8_four_byte_decode glyph =
    bit_or
      (bit_or
        (bit_or (bit_or 0 (top_five_remaining (get_or glyph 0 0) * 2 ^ 18))
          (top_two_remaining (get_or glyph 1 0) * 2 ^ 12))
        (top_two_remaining (get_or glyph 2 0) * 2 ^ 6))
      (top_two_remaining (get_or glyph 3 0))

unfoldable pub get_utf8_decoding_function : ℕ → Option (List ℕ → ℕ)
get_utf8_decoding_function size =
    if size == 1
    then some utf8_one_byte_decode
    else if size == 2
    then some utf8_two_byte_decode
    else if size == 3
    then some utf8_three_byte_decode
    else if size == 4
    then some utf8_four_byte_decode
    else none
