-- ===== src/Utf/Choose/Formats.antt =====
-- Formats, their marks and names in hw2.
use cse320_projects.Common.{
  ℕ, ◌<◌, ◌≡◌, ◌↔◌, Bool-cases, inl, inr, refl, Bool, true, some, List, [], ◌∷◌, ◌++◌, get_or, set,
  length, arith, take, drop,
}
use cse320_projects.Utf.{
  utf16le, utf16be, utf8, int_bytes, reverse_bytes, reverse_loop, read_to_bigendian, store,
}
use cse320_projects.Utf.Choose.{
  Conversion, utf8_to_utf16le, utf8_to_utf16be, utf16le_to_utf16be, utf16be_to_utf16le,
  utf16be_to_utf8, utf16le_to_utf8, transcribe_file, translate, get_encoding_function, int_of, Mark,
  classify_bom, check_bom, str_utf16le, str_utf16be, str_utf8, strcmp_eq, determine_format,
  bom_to_string,
}

-- The three formats, their marks as bytes, and their names.
pub data Format : Type 0 where
  le : Format
  be : Format
  eight : Format

abbrev pub code : Format → ℕ
code le = utf16le
code be = utf16be
code eight = utf8

abbrev pub mark : Format → List ℕ
mark le = 0xFF ∷ 0xFE ∷ []
mark be = 0xFE ∷ 0xFF ∷ []
mark eight = 0xEF ∷ 0xBB ∷ 0xBF ∷ []

abbrev pub name : Format → List ℕ
name le = str_utf16le
name be = str_utf16be
name eight = str_utf8

abbrev pub conversion : Format → Format → Conversion
conversion le le = transcribe_file
conversion le be = utf16le_to_utf16be
conversion le eight = utf16le_to_utf8
conversion be le = utf16be_to_utf16le
conversion be be = transcribe_file
conversion be eight = utf16be_to_utf8
conversion eight le = utf8_to_utf16le
conversion eight be = utf8_to_utf16be
conversion eight eight = transcribe_file

pub get_encoding_function-conversion :
    (f g : Format) → get_encoding_function (code f) (code g) ≡ some (conversion f g)
unfolding get_encoding_function translate
get_encoding_function-conversion le le = refl
get_encoding_function-conversion le be = refl
get_encoding_function-conversion le eight = refl
get_encoding_function-conversion be le = refl
get_encoding_function-conversion be be = refl
get_encoding_function-conversion be eight = refl
get_encoding_function-conversion eight le = refl
get_encoding_function-conversion eight be = refl
get_encoding_function-conversion eight eight = refl

-- A file of at least three bytes.
pub check_bom-mark :
    (f : Format) (a : ℕ) (rest : List ℕ) (broken : Bool)
    → a < 256
    → check_bom (record { bytes = mark f ++ a ∷ rest; broken = broken })
      ≡ some (record { encoding_from = code f; bom_length = length (mark f) })
unfolding check_bom classify_bom read_to_bigendian store int_of int_bytes reverse_bytes reverse_loop
    take drop get_or set
check_bom-mark le a rest broken h = ground arith
check_bom-mark be a rest broken h = ground arith
check_bom-mark eight a rest broken h = ground arith

strcmp_eq_sound : (s t : List ℕ) → strcmp_eq s t ≡ true → s ≡ t
unfolding strcmp_eq
strcmp_eq_sound [] [] h = refl
strcmp_eq_sound [] (b ∷ t) h = absurd (cc (h))
strcmp_eq_sound (a ∷ s) [] h = absurd (cc (h))
strcmp_eq_sound (a ∷ s) (b ∷ t) h =
    let same : a ≡ b = ground (arith, h) in
    let rest : s ≡ t = strcmp_eq_sound s t (ground (arith, h)) in rw (same, rest) refl

-- The name that a format was determined from.
first_name :
    (f : Format) (s : List ℕ) → strcmp_eq s str_utf16le ≡ true → utf16le ≡ code f → s ≡ name f
first_name le s x e = strcmp_eq_sound s str_utf16le x
first_name be s x e = absurd (omega arith)
first_name eight s x e = absurd (omega arith)

second_name :
    (f : Format) (s : List ℕ) → strcmp_eq s str_utf16be ≡ true → utf16be ≡ code f → s ≡ name f
second_name le s x e = absurd (omega arith)
second_name be s x e = strcmp_eq_sound s str_utf16be x
second_name eight s x e = absurd (omega arith)

third_name : (f : Format) (s : List ℕ) → strcmp_eq s str_utf8 ≡ true → utf8 ≡ code f → s ≡ name f
third_name le s x e = absurd (omega arith)
third_name be s x e = absurd (omega arith)
third_name eight s x e = strcmp_eq_sound s str_utf8 x

no_name : (f : Format) (s : List ℕ) → 0 ≡ code f → s ≡ name f
no_name le s e = absurd (omega arith)
no_name be s e = absurd (omega arith)
no_name eight s e = absurd (omega arith)

named : (f : Format) (s : List ℕ) → determine_format s ≡ code f → s ≡ name f
unfolding determine_format
named f s h = elim (Bool-cases (strcmp_eq s str_utf16le)) [
  | inl x ↦ first_name f s x (ground (arith, h, x))
  | inr x ↦ elim (Bool-cases (strcmp_eq s str_utf16be)) [
    | inl y ↦ second_name f s y (ground (arith, h, x, y))
    | inr y ↦ elim (Bool-cases (strcmp_eq s str_utf8)) [
      | inl z ↦ third_name f s z (ground (arith, h, x, y, z))
      | inr z ↦ no_name f s (ground (arith, h, x, y, z))
    ]
  ]
]

pub determine_format-bom_to_string :
    (f : Format) → determine_format (bom_to_string (code f)) ≡ code f
unfolding determine_format bom_to_string strcmp_eq
determine_format-bom_to_string le = refl
determine_format-bom_to_string be = refl
determine_format-bom_to_string eight = refl

name_found : (f : Format) → determine_format (name f) ≡ code f
unfolding determine_format strcmp_eq
name_found le = refl
name_found be = refl
name_found eight = refl

pub determine_format-name :
    (f : Format) (s : List ℕ)
    → (determine_format (bom_to_string (code f)) ≡ code f)
      × ((determine_format s ≡ code f) ↔ (s ≡ name f))
determine_format-name f s =
    (determine_format-bom_to_string f, (named f s, λ e. rw e (name_found f)))

-- For a file that begins with the mark of one of the three formats and one byte more, `check_bom`
-- finds a mark of that length, and with the name of a format as the argument of -e,
-- `get_encoding_function` chooses the conversion from the one format to the other.
pub check_bom-get_encoding_function :
    (f g : Format) (a : ℕ) (rest : List ℕ) (broken : Bool)
    → a < 256
    → (m : Mark) × (check_bom (record { bytes = mark f ++ a ∷ rest; broken = broken }) ≡ some m)
      × (m.bom_length ≡ length (mark f))
      × (get_encoding_function m.encoding_from (determine_format (name g)) ≡ some (conversion f g))
check_bom-get_encoding_function f g a rest broken h = (
  record { encoding_from = code f; bom_length = length (mark f) },
  check_bom-mark f a rest broken h,
  refl,
  rw (name_found g) (get_encoding_function-conversion f g),
)
