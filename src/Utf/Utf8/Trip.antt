-- ===== src/Utf/Utf8/Trip.antt =====
-- The bytes of UTF-8 by the standard, and the encoders and decoders of hw2/src/utf8.c.
use native.Mathlib.Decide.{dec_lt}
use Prim.Native.Nat.{bit_and, bit_or}
use cse320_projects.Common.{
  ℕ, ◌+◌, ◌*◌, ◌/◌, ◌%◌, ◌^◌, ◌≤◌, ◌<◌, ◌≡◌, refl, ◌∙◌, ap, true, Option, none, some, List, [], ◌∷◌,
  ◌++◌, leb, ◌==◌, if◌then◌else◌, get_or, set, length, arith, passes, passes_at, take,
}
use cse320_projects.Common.Bits.{
  bit_and_low3, bit_and_low4, bit_and_low5, bit_and_low6, zero-bit_or, bit_or_field6,
  bit_or_field12, bit_or_field18,
}
use cse320_projects.Utf.Utf8.{
  or_byte, utf8_one_byte_encode, utf8_two_byte_encode, continued_loop, utf8_three_byte_encode,
  utf8_four_byte_encode, utf8_glyph_size_of_code_point, get_utf8_encoding_function,
  code_point_to_utf8_glyph, remaining_utf8_bytes, utf8_one_byte_decode, utf8_two_byte_decode,
  utf8_three_byte_decode, utf8_four_byte_decode, get_utf8_decoding_function,
}

-- The number of bytes that the standard gives to a code point, and the bytes.
unfoldable pub utf8_bytes : ℕ → List ℕ
utf8_bytes c =
    if leb c 0x7F
    then c ∷ []
    else if leb c 0x7FF
    then (0xC0 + c / 64) ∷ (0x80 + c % 64) ∷ []
    else if leb c 0xFFFF
    then (0xE0 + c / 4096) ∷ (0x80 + c / 64 % 64) ∷ (0x80 + c % 64) ∷ []
    else (0xF0 + c / 262144) ∷ (0x80 + c / 4096 % 64) ∷ (0x80 + c / 64 % 64) ∷ (0x80 + c % 64) ∷ []

-- A marker and the bits below it.
marked_table : passes (λ x. bit_or 0x80 x == (0x80 + x)) 64 ≡ true
unfolding passes
marked_table = refl

marked_two : passes (λ x. bit_or 0xC0 x == (0xC0 + x)) 32 ≡ true
unfolding passes
marked_two = refl

marked_three : passes (λ x. bit_or 0xE0 x == (0xE0 + x)) 16 ≡ true
unfolding passes
marked_three = refl

marked_four : passes (λ x. bit_or 0xF0 x == (0xF0 + x)) 8 ≡ true
unfolding passes
marked_four = refl

continued_byte : (c : ℕ) → bit_or 0 (bit_or 0x80 (bit_and c 0x3F) % 2 ^ 8) ≡ 0x80 + c % 64
continued_byte c = ground (
  arith,
  passes_at _ 64 marked_table (c % 64) (omega arith),
  bit_and_low6 c,
  zero-bit_or (bit_or 0x80 (c % 64) % 256),
)

lead_two : (x : ℕ) → bit_or 0 (bit_or 0xC0 (bit_and x 0x1F) % 2 ^ 8) ≡ 0xC0 + x % 32
lead_two x = ground (
  arith,
  passes_at _ 32 marked_two (x % 32) (omega arith),
  bit_and_low5 x,
  zero-bit_or (bit_or 0xC0 (x % 32) % 256),
)

lead_three : (x : ℕ) → bit_or 0 (bit_or 0xE0 (bit_and x 0x0F) % 2 ^ 8) ≡ 0xE0 + x % 16
lead_three x = ground (
  arith,
  passes_at _ 16 marked_three (x % 16) (omega arith),
  bit_and_low4 x,
  zero-bit_or (bit_or 0xE0 (x % 16) % 256),
)

lead_four : (x : ℕ) → bit_or 0 (bit_or 0xF0 (bit_and x 0x07) % 2 ^ 8) ≡ 0xF0 + x % 8
lead_four x = ground (
  arith,
  passes_at _ 8 marked_four (x % 8) (omega arith),
  bit_and_low3 x,
  zero-bit_or (bit_or 0xF0 (x % 8) % 256),
)

two_bytes :
    (c : ℕ) → c < 0x800 → utf8_two_byte_encode c ≡ (0xC0 + c / 64) ∷ (0x80 + c % 64) ∷ 0 ∷ 0 ∷ []
unfolding utf8_two_byte_encode or_byte get_or set
two_bytes c h = ground (arith, continued_byte c, lead_two (c / 64))

three_bytes :
    (c : ℕ)
    → c < 0x10000
    → utf8_three_byte_encode c ≡ (0xE0 + c / 4096) ∷ (0x80 + c / 64 % 64) ∷ (0x80 + c % 64) ∷ 0 ∷ []
unfolding utf8_three_byte_encode or_byte continued_loop get_or set
three_bytes c h =
    ground (arith, continued_byte c, continued_byte (c / 64), lead_three (c / 64 / 64))

four_bytes :
    (c : ℕ)
    → c < 0x200000
    → utf8_four_byte_encode c
      ≡ (0xF0 + c / 262144) ∷ (0x80 + c / 4096 % 64) ∷ (0x80 + c / 64 % 64) ∷ (0x80 + c % 64) ∷ []
unfolding utf8_four_byte_encode or_byte continued_loop get_or set
four_bytes c h = ground (
  arith,
  continued_byte c,
  continued_byte (c / 64),
  continued_byte (c / 64 / 64),
  lead_four (c / 64 / 64 / 64),
)

-- The ranges of code points, by the size of the glyph.
pub data Range (c : ℕ) : Type 0 where
  one : c < 0x80 → Range c
  two : 0x80 ≤ c → c < 0x800 → Range c
  three : 0x800 ≤ c → c < 0x10000 → Range c
  four : 0x10000 ≤ c → c < 0x200000 → Range c

pub Range-of : (c : ℕ) → c < 0x200000 → Range c
Range-of c h = elim (dec_lt c 0x80) [
  | yes a ↦ one a
  | no a ↦ elim (dec_lt c 0x800) [
    | yes b ↦ two (omega arith) b
    | no b ↦ elim (dec_lt c 0x10000) [ yes d ↦ three (omega arith) d | no d ↦ four (omega arith) h ]
  ]
]

-- A glyph with the function that its first byte chooses.
unfoldable pub decode_glyph : List ℕ → Option ℕ
decode_glyph buf = elim (get_utf8_decoding_function (remaining_utf8_bytes (get_or buf 0 0) + 1)) [
  | none ↦ none
  | some decode ↦ some (decode buf)
]

pub remaining_utf8_bytes-bytes :
    (c : ℕ) (tail : List ℕ)
    → Range c
    → remaining_utf8_bytes (get_or (utf8_bytes c ++ tail) 0 0) + 1 ≡ length (utf8_bytes c)
unfolding remaining_utf8_bytes utf8_bytes get_or
remaining_utf8_bytes-bytes c tail (one a) = ground arith
remaining_utf8_bytes-bytes c tail (two a b) = ground arith
remaining_utf8_bytes-bytes c tail (three a b) = ground arith
remaining_utf8_bytes-bytes c tail (four a b) = ground arith

two_fields :
    (c : ℕ)
    → c < 0x800
    → bit_or (bit_or 0 ((0xC0 + c / 64) % 32 * 2 ^ 6)) ((0x80 + c % 64) % 64) ≡ c
two_fields c h = ground (
  arith,
  zero-bit_or ((0xC0 + c / 64) % 32 * 64),
  bit_or_field6 ((0xC0 + c / 64) % 32) ((0x80 + c % 64) % 64) (omega arith),
)

-- Fields put together from the top.
three_parts :
    (a b c : ℕ)
    → b < 64
    → c < 64
    → bit_or (bit_or (bit_or 0 (a * 2 ^ 12)) (b * 2 ^ 6)) c ≡ a * 4096 + b * 64 + c
three_parts a b c hb hc =
    let top : bit_or (bit_or 0 (a * 4096)) (b * 64) ≡ (a * 64 + b) * 64 =
      ground (arith, zero-bit_or (a * 4096), bit_or_field12 a (b * 64) (omega arith)) in
    ap (λ x. bit_or x c) top ∙ omega (arith, bit_or_field6 (a * 64 + b) c hc)

four_parts :
    (a b c d : ℕ)
    → b < 64
    → c < 64
    → d < 64
    → bit_or (bit_or (bit_or (bit_or 0 (a * 2 ^ 18)) (b * 2 ^ 12)) (c * 2 ^ 6)) d
      ≡ a * 262144 + b * 4096 + c * 64 + d
four_parts a b c d hb hc hd =
    let top : bit_or (bit_or 0 (a * 262144)) (b * 4096) ≡ (a * 64 + b) * 4096 =
      ground (arith, zero-bit_or (a * 262144), bit_or_field18 a (b * 4096) (omega arith)) in
    let middle : bit_or ((a * 64 + b) * 4096) (c * 64) ≡ (a * 4096 + b * 64 + c) * 64 =
      omega (arith, bit_or_field12 (a * 64 + b) (c * 64) (omega arith)) in
    ap (λ x. bit_or (bit_or x (c * 64)) d) top
    ∙ ap (λ x. bit_or x d) middle
    ∙ omega (arith, bit_or_field6 (a * 4096 + b * 64 + c) d hd)

pub decode_glyph-bytes :
    (c : ℕ) (tail : List ℕ) → Range c → decode_glyph (utf8_bytes c ++ tail) ≡ some c
unfolding decode_glyph remaining_utf8_bytes utf8_bytes get_or get_utf8_decoding_function
    utf8_one_byte_decode utf8_two_byte_decode utf8_three_byte_decode utf8_four_byte_decode
decode_glyph-bytes c tail (one a) = ground arith
decode_glyph-bytes c tail (two a b) = ground (arith, two_fields c b)
decode_glyph-bytes c tail (three a b) = ground (
  arith,
  three_parts ((0xE0 + c / 4096) % 16) ((0x80 + c / 64 % 64) % 64) ((0x80 + c % 64) % 64)
      (omega arith) (omega arith),
)
decode_glyph-bytes c tail (four a b) = ground (
  arith,
  four_parts ((0xF0 + c / 262144) % 8) ((0x80 + c / 4096 % 64) % 64) ((0x80 + c / 64 % 64) % 64)
      ((0x80 + c % 64) % 64) (omega arith) (omega arith) (omega arith),
)

pub take-append : (xs ys : List ℕ) → take (length xs) (xs ++ ys) ≡ xs
unfolding take
take-append [] ys = refl
take-append (x ∷ xs) ys = ap (λ zs. x ∷ zs) (take-append xs ys)

-- The encoder gives the bytes of the standard, with something behind them.
encoded :
    (garbage : List ℕ) (c : ℕ)
    → length garbage ≡ 4
    → Range c
    → (tail : List ℕ) × (code_point_to_utf8_glyph garbage c
        ≡ some (utf8_bytes c ++ tail, length (utf8_bytes c)))
unfolding code_point_to_utf8_glyph utf8_glyph_size_of_code_point get_utf8_encoding_function
    utf8_bytes utf8_one_byte_encode set
encoded [] c four_long (one a) = absurd (omega arith)
encoded (g ∷ garbage) c four_long (one a) = (garbage, ground arith)
encoded garbage c four_long (two a b) = (0 ∷ 0 ∷ [], ground (arith, two_bytes c b))
encoded garbage c four_long (three a b) = (0 ∷ [], ground (arith, three_bytes c b))
encoded garbage c four_long (four a b) = ([], ground (arith, four_bytes c b))

-- For every code point below 2 ^ 21 `code_point_to_utf8_glyph` gives a glyph whose first bytes, as
-- many as its size says, are those of UTF-8, whose first byte tells `remaining_utf8_bytes` that
-- size, and which the decoder of that size takes back to the code point.
pub code_point_to_utf8_glyph-decode_glyph :
    (garbage : List ℕ) (c : ℕ)
    → length garbage ≡ 4
    → c < 0x200000
    → (glyph : List ℕ) × (size : ℕ) × (code_point_to_utf8_glyph garbage c ≡ some (glyph, size))
      × (take size glyph ≡ utf8_bytes c)
      × (remaining_utf8_bytes (get_or glyph 0 0) + 1 ≡ size)
      × (decode_glyph glyph ≡ some c)
code_point_to_utf8_glyph-decode_glyph garbage c four_long h =
    let range = Range-of c h in
    let (tail, e) = encoded garbage c four_long range in
    (
      utf8_bytes c ++ tail,
      length (utf8_bytes c),
      e,
      take-append (utf8_bytes c) tail,
      remaining_utf8_bytes-bytes c tail range,
      decode_glyph-bytes c tail range,
    )
