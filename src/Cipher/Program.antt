-- ===== src/Cipher/Program.antt =====
-- `validargs` of hw1/src/hw1.c, and the runs of `main` on the Polybius cipher.
pub mod Main
use mathlib.Core.Path.{subst}
use cse320_projects.Common.{
  ℕ, suc, ◌+◌, ◌*◌, ◌≤◌, ◌<◌, ◌≡◌, ◌≢◌, refl, sym, ◌∙◌, ◌⊎◌, inl, inr, Bool-cases, true, false, not,
  ◌&&◌, ◌||◌, Option, none, some, List, [], ◌∷◌, arith, ltb, length,
}
use cse320_projects.Cipher.Strings.{string_eql, string_eql_loop, buffer_size, buffer_size_loop}
use cse320_projects.Cipher.Strings.Equal.{string_eql_iff}
use cse320_projects.Cipher.Constants.{polybius_alphabet, fm_alphabet}
use cse320_projects.Cipher.Arguments.{
  Settings, defaults, Parse, accept, reject, fault, read_arguments, mode_bits, cipher_bits,
  Validated, finish, refused, validate, check_rest, validargs, flag_h, flag_p, flag_f, flag_e,
  flag_d,
}
use cse320_projects.Cipher.Arguments.Accepted.{
  KeyIn, Sound, SoundParse, alphabet_of, defaults-Sound, read_arguments-Sound,
}
use cse320_projects.Cipher.Arguments.Bits.{mode_bits-encrypt, mode_bits-decrypt}
use cse320_projects.Cipher.Polybius.{cipher_pe, cipher_pd}
use cse320_projects.Cipher.Polybius.Table.{Legal}
use cse320_projects.Cipher.Polybius.Trip.{cipher_pd-cipher_pe}

-- What `validargs` may return: a refusal, the help, or the cipher with its direction, key and sizes.
pub data Outcome (v : Validated) : Type 0 where
  refusal : v.mode ≡ 0 → Outcome v
  help : v.mode ≡ 0x8000 → Outcome v
  polybius :
      (d row col : ℕ)
      → d < 2
      → 9 ≤ row
      → row ≤ 15
      → 9 ≤ col
      → col ≤ 15
      → v.mode ≡ d * 0x2000 + row * 16 + col
      → KeyIn polybius_alphabet v.key
      → Outcome v
  morse : (d : ℕ) → d < 2 → v.mode ≡ 0x4000 + d * 0x2000 → KeyIn fm_alphabet v.key → Outcome v

pub Outcome-of : (w v : Validated) → Outcome w → some w ≡ some v → Outcome v
Outcome-of w v h e = let same : w ≡ v = cc (e) in subst Outcome same h

module _ (s : Settings) where
  pub polybius-Outcome :
      (arg2 : List ℕ)
      → (arg2 ≡ flag_e) ⊎ (arg2 ≡ flag_d)
      → Sound polybius_alphabet s
      → Outcome (record { mode = mode_bits flag_p arg2 s; key = s.key })
  polybius-Outcome arg2 (inl q) sound =
      let hr : s.row < 16 = omega (arith, sound.row_max) in
      let hc : s.col < 16 = omega (arith, sound.col_max) in
      rw q (
        polybius 0 s.row s.col (omega arith) sound.row_min sound.row_max sound.col_min sound.col_max
          (omega (arith, (mode_bits-encrypt s hr hc).2)) sound.key)
  polybius-Outcome arg2 (inr q) sound =
      let hr : s.row < 16 = omega (arith, sound.row_max) in
      let hc : s.col < 16 = omega (arith, sound.col_max) in
      rw q (
        polybius 1 s.row s.col (omega arith) sound.row_min sound.row_max sound.col_min sound.col_max
          (omega (arith, (mode_bits-decrypt s hr hc).2)) sound.key)

  pub morse-Outcome :
      (arg2 : List ℕ)
      → (arg2 ≡ flag_e) ⊎ (arg2 ≡ flag_d)
      → Sound fm_alphabet s
      → Outcome (record { mode = mode_bits flag_f arg2 s; key = s.key })
  unfolding mode_bits cipher_bits string_eql string_eql_loop buffer_size buffer_size_loop
  morse-Outcome arg2 (inl q) sound = rw q (morse 0 (omega arith) refl sound.key)
  morse-Outcome arg2 (inr q) sound = rw q (morse 1 (omega arith) refl sound.key)

  pub accept-Outcome :
      (arg1 arg2 : List ℕ)
      → (arg1 ≡ flag_p) ⊎ (arg1 ≡ flag_f)
      → (arg2 ≡ flag_e) ⊎ (arg2 ≡ flag_d)
      → Sound (alphabet_of arg1) s
      → Outcome (record { mode = mode_bits arg1 arg2 s; key = s.key })
  unfolding alphabet_of string_eql string_eql_loop buffer_size buffer_size_loop
  accept-Outcome arg1 arg2 (inl p) direction sound =
      rw p (polybius-Outcome arg2 direction (subst (λ a. Sound (alphabet_of a) s) p sound))
  accept-Outcome arg1 arg2 (inr p) direction sound =
      rw p (morse-Outcome arg2 direction (subst (λ a. Sound (alphabet_of a) s) p sound))

pub finish-Outcome :
    (after arg1 arg2 : List ℕ) (p : Parse) (v : Validated)
    → (arg1 ≡ flag_p) ⊎ (arg1 ≡ flag_f)
    → (arg2 ≡ flag_e) ⊎ (arg2 ≡ flag_d)
    → SoundParse after arg1 p
    → finish arg1 arg2 p ≡ some v
    → Outcome v
unfolding finish SoundParse
finish-Outcome after arg1 arg2 fault v cipher direction sound e = absurd (cc (e))
finish-Outcome after arg1 arg2 reject v cipher direction sound e = Outcome-of _ v (refusal refl) e
finish-Outcome after arg1 arg2 (accept s) v cipher direction sound e =
    Outcome-of _ v (accept-Outcome s arg1 arg2 cipher direction sound) e

pub refused-Outcome : (v : Validated) → refused ≡ some v → Outcome v
unfolding refused
refused-Outcome v e = Outcome-of _ v (refusal refl) e

-- A test that lets pass one of two strings.
pub one_of :
    (s t u : List ℕ) → (not (string_eql s t) && not (string_eql s u)) ≡ false → (s ≡ t) ⊎ (s ≡ u)
one_of s t u h = elim (Bool-cases (string_eql s t)) [
  | inl e ↦ inl ((string_eql_iff s t).0 e)
  | inr e ↦ inr ((string_eql_iff s u).0 (ground (arith, e, h)))
]

pub passed-cipher :
    (s : List ℕ) → (s ≡ flag_p) ⊎ (s ≡ flag_f) → (string_eql s flag_p || string_eql s flag_f) ≡ true
passed-cipher s (inl e) = ground (arith, (string_eql_iff s flag_p).1 e)
passed-cipher s (inr e) = ground (arith, (string_eql_iff s flag_f).1 e)

pub validate-Outcome :
    (after arg1 arg2 : List ℕ) (options : List (List ℕ)) (v : Validated)
    → validate after arg1 arg2 options ≡ some v
    → Outcome v
unfolding validate refused
validate-Outcome after arg1 arg2 options v e =
    elim (Bool-cases (not (string_eql arg1 flag_p) && not (string_eql arg1 flag_f))) [
      | inl bad ↦ refused-Outcome v (ground (arith, e, bad))
      | inr ok1 ↦ elim (Bool-cases (not (string_eql arg2 flag_e) && not (string_eql arg2 flag_d))) [
        | inl bad ↦ refused-Outcome v (ground (arith, e, ok1, bad))
        | inr ok2 ↦
            let cipher = one_of arg1 flag_p flag_f ok1 in
            finish-Outcome after arg1 arg2 _ v cipher (one_of arg2 flag_e flag_d ok2)
              (read_arguments-Sound after arg1 (passed-cipher arg1 cipher) options defaults
                (defaults-Sound _))
              (ground (arith, e, ok1, ok2))
      ]
    ]

pub rest-Outcome :
    (after arg1 : List ℕ) (rest : List (List ℕ)) (v : Validated)
    → check_rest after arg1 rest ≡ some v
    → Outcome v
unfolding check_rest refused
rest-Outcome after arg1 [] v e = Outcome-of _ v (refusal refl) e
rest-Outcome after arg1 (arg2 ∷ options) v e = validate-Outcome after arg1 arg2 options v e

-- Whatever the arguments, if `validargs` returns it refuses, asks for the help, or gives the bits
-- of a cipher, with 9 to 15 rows and columns and a key that repeats no character and stays in the
-- alphabet.
pub validargs-Outcome :
    (after : List ℕ) (argv : List (List ℕ)) (v : Validated)
    → validargs after argv ≡ some v
    → Outcome v
unfolding validargs refused
validargs-Outcome after [] v e = Outcome-of _ v (refusal refl) e
validargs-Outcome after (name ∷ []) v e = Outcome-of _ v (refusal refl) e
validargs-Outcome after (name ∷ arg1 ∷ rest) v e = elim (Bool-cases (string_eql arg1 flag_h)) [
  | inl asked ↦
      Outcome-of (record { mode = 0x8000; key = none }) v (help refl) (ground (arith, e, asked))
  | inr other ↦ elim (Bool-cases (ltb 9 (suc (suc (length rest))))) [
    | inl many ↦ refused-Outcome v (ground (arith, e, other, many))
    | inr few ↦ rest-Outcome after arg1 rest v (ground (arith, e, other, few))
  ]
]

-- What "-d" in place of "-e" gives for the same options: the bit for decryption as well, the same
-- sizes and the same key, with which `cipher_pd` gives the input again.
abbrev pub RoundTrip : (ℕ → ℕ) → (ℕ → ℕ) → List ℕ → Option Validated → Validated → Type 0
RoundTrip beyond outside input again v =
    (v' : Validated) × (again ≡ some v')
    × (v'.mode ≡ v.mode + 0x2000)
    × (v'.key ≡ v.key)
    × ((cipher_pd beyond outside v'.key v'.mode (cipher_pe beyond v.key v.mode input).text).text
        ≡ input)

pub KeyIn-Legal : (key : Option (List ℕ)) → KeyIn polybius_alphabet key → Legal key
unfolding KeyIn Legal
KeyIn-Legal none h = h
KeyIn-Legal (some key) h = h

module _ (beyond outside : ℕ → ℕ) (input : List ℕ) where
  pub settings-trip :
      (s : Settings)
      → Sound polybius_alphabet s
      → (cipher_pe beyond s.key (mode_bits flag_p flag_e s) input).success ≡ true
      → (cipher_pd beyond outside s.key
          (mode_bits flag_p flag_d s)
          (cipher_pe beyond s.key (mode_bits flag_p flag_e s) input).text).text
        ≡ input
  settings-trip s sound success =
      let (row, col, _) =
        mode_bits-encrypt s (omega (arith, sound.row_max)) (omega (arith, sound.col_max)) in
      let (row', col', _) =
        mode_bits-decrypt s (omega (arith, sound.row_max)) (omega (arith, sound.col_max)) in
      cipher_pd-cipher_pe beyond outside s.key _ _ input (KeyIn-Legal s.key sound.key)
        (omega (arith, col, sound.col_min)) (omega (arith, col, sound.col_max)) (row' ∙ sym row)
        (col' ∙ sym col) success

  settings-mode :
      (s : Settings)
      → Sound polybius_alphabet s
      → mode_bits flag_p flag_d s ≡ mode_bits flag_p flag_e s + 0x2000
  settings-mode s sound =
      let hr : s.row < 16 = omega (arith, sound.row_max) in
      let hc : s.col < 16 = omega (arith, sound.col_max) in
      omega (arith, (mode_bits-encrypt s hr hc).2, (mode_bits-decrypt s hr hc).2)

  pub finish-trip :
      (after : List ℕ) (p : Parse) (v : Validated)
      → SoundParse after flag_p p
      → finish flag_p flag_e p ≡ some v
      → v.mode ≢ 0
      → (cipher_pe beyond v.key v.mode input).success ≡ true
      → RoundTrip beyond outside input (finish flag_p flag_d p) v
  unfolding finish SoundParse alphabet_of string_eql string_eql_loop buffer_size buffer_size_loop
  finish-trip after fault v sound e ran success = absurd (cc (e))
  finish-trip after reject v sound e ran success = absurd (ran (cc (e)))
  finish-trip after (accept s) v sound e ran success =
      let w : Validated = record { mode = mode_bits flag_p flag_e s; key = s.key } in
      let same : w ≡ v = cc (e) in
      subst
        (λ v.
          (cipher_pe beyond v.key v.mode input).success ≡ true
          → RoundTrip beyond outside input (finish flag_p flag_d (accept s)) v)
        same (λ success. (_, refl, settings-mode s sound, refl, settings-trip s sound success))
        success

-- With at most nine arguments in all, "-p -e" and "-p -d" get as far as the options.
pub validargs-options :
    (after name : List ℕ) (options : List (List ℕ))
    → ltb 9 (suc (suc (suc (length options)))) ≡ false
    → (validargs after (name ∷ flag_p ∷ flag_e ∷ options)
        ≡ finish flag_p flag_e (read_arguments after flag_p options defaults))
      × (validargs after (name ∷ flag_p ∷ flag_d ∷ options)
          ≡ finish flag_p flag_d (read_arguments after flag_p options defaults))
unfolding validargs check_rest validate string_eql string_eql_loop buffer_size buffer_size_loop
validargs-options after name options few = (ground (arith, few), ground (arith, few))

pub validargs-many :
    (after name arg2 : List ℕ) (options : List (List ℕ)) (v : Validated)
    → ltb 9 (suc (suc (suc (length options)))) ≡ true
    → validargs after (name ∷ flag_p ∷ arg2 ∷ options) ≡ some v
    → v.mode ≡ 0
unfolding validargs refused string_eql buffer_size buffer_size_loop string_eql_loop
validargs-many after name arg2 options v many e = ground (arith, many, e)

-- For arguments with which the Polybius cipher encrypts a text in full, the same arguments with -d
-- in place of -e give the same key and the same mode with the bit 0x2000 for decryption added, and
-- with these `cipher_pd` decrypts the encrypted text to the text again.
pub validargs-RoundTrip :
    (beyond outside : ℕ → ℕ) (after name : List ℕ) (options : List (List ℕ)) (v : Validated)
    (input : List ℕ)
    → validargs after (name ∷ flag_p ∷ flag_e ∷ options) ≡ some v
    → v.mode ≢ 0
    → (cipher_pe beyond v.key v.mode input).success ≡ true
    → RoundTrip beyond outside input (validargs after (name ∷ flag_p ∷ flag_d ∷ options)) v
validargs-RoundTrip beyond outside after name options v input e ran success =
    elim (Bool-cases (ltb 9 (suc (suc (suc (length options)))))) [
      | inl many ↦ absurd (ran (validargs-many after name flag_e options v many e))
      | inr few ↦
          let (as_e, as_d) = validargs-options after name options few in
          rw as_d (
            finish-trip beyond outside input after _ v
              (read_arguments-Sound after flag_p (passed-cipher flag_p (inl refl)) options defaults
                (defaults-Sound _))
              (sym as_e ∙ e) ran success)
    ]
