-- ===== src/Cipher/Arguments/Accepted.antt =====
-- What the arguments hold that `validargs` of hw1/src/hw1.c accepts.
use cse320_projects.Common.{
  ℕ, ◌+◌, ◌≤◌, ◌≡◌, refl, Bool, true, false, not, ◌&&◌, Option, none, some, List, [], ◌∷◌, arith,
  ltb, if◌then◌else◌, ◌||◌,
}
use cse320_projects.Cipher.Strings.{
  has_repeated_char, repeats, is_legal_in_alphabet, string_eql, string_to_int,
}
use cse320_projects.Cipher.Constants.{polybius_alphabet, fm_alphabet}
use cse320_projects.Cipher.Arguments.{
  Settings, defaults, Parse, accept, reject, fault, ◌>>=◌, check_key, take_key, take_row, take_col,
  read_argument, read_arguments, next_argument, flag_p, flag_f, flag_k, flag_r, flag_c,
}

-- No key, or one that repeats no character and stays in the alphabet.
unfoldable pub KeyIn : List ℕ → Option (List ℕ) → Type 0
KeyIn alphabet none = Unit {0}
KeyIn alphabet (some key) = (repeats key ≡ false) × (is_legal_in_alphabet key alphabet ≡ true)

pub record Sound (alphabet : List ℕ) (s : Settings) : Type 0 where
  pub key : KeyIn alphabet s.key
  pub row_min : 9 ≤ s.row
  pub row_max : s.row ≤ 15
  pub col_min : 9 ≤ s.col
  pub col_max : s.col ≤ 15

pub defaults-Sound : (alphabet : List ℕ) → Sound alphabet defaults
unfolding KeyIn
defaults-Sound alphabet = record {
  key = tt;
  row_min = omega arith;
  row_max = omega arith;
  col_min = omega arith;
  col_max = omega arith;
}

pub repeats-has_repeated_char :
    (after key : List ℕ) → has_repeated_char after key ≡ false → repeats key ≡ false
unfolding has_repeated_char repeats
repeats-has_repeated_char after [] e = refl
repeats-has_repeated_char after (c ∷ key) e = e

unfoldable pub alphabet_of : List ℕ → List ℕ
alphabet_of arg1 = if string_eql arg1 flag_p then polybius_alphabet else fm_alphabet

module _ (after arg1 : List ℕ) where
  -- What a step accepts is sound.
  unfoldable pub SoundParse : Parse → Type 0
  SoundParse (accept s) = Sound (alphabet_of arg1) s
  SoundParse reject = Unit {0}
  SoundParse fault = Unit {0}

  pub guard-Sound :
      (b : Bool) (p : Parse) → (b ≡ false → SoundParse p) → SoundParse (if b then reject else p)
  unfolding SoundParse
  guard-Sound true p h = tt
  guard-Sound false p h = h refl

  pub bind-Sound :
      (p : Parse) (f : Settings → Parse)
      → SoundParse p
      → ((s : Settings) → Sound (alphabet_of arg1) s → SoundParse (f s))
      → SoundParse (p >>= f)
  unfolding SoundParse
  bind-Sound (accept s) f sound h = h s sound
  bind-Sound reject f sound h = tt
  bind-Sound fault f sound h = tt

  pub when-Sound :
      (b : Bool) (p : Parse) (s : Settings)
      → SoundParse p
      → Sound (alphabet_of arg1) s
      → SoundParse (if b then p else accept s)
  unfolding SoundParse
  when-Sound true p s h sound = h
  when-Sound false p s h sound = sound

  pub take_row-Sound :
      (value : Option (List ℕ)) (s : Settings)
      → Sound (alphabet_of arg1) s
      → SoundParse (take_row arg1 value s)
  unfolding take_row SoundParse
  take_row-Sound none s sound =
      guard-Sound (string_eql arg1 flag_f) _
        (λ _. guard-Sound (ltb 1 (s.r_count + 1)) fault (λ _. tt))
  take_row-Sound (some value) s sound =
      let v : ℕ = string_to_int value in
      let taken : Parse = accept (record s { r_count = s.r_count + 1; row = v }) in
      let bad : Bool = ltb v 9 || ltb 15 v in
      guard-Sound (string_eql arg1 flag_f) _ (λ _.
        guard-Sound (ltb 1 (s.r_count + 1)) (if bad then reject else taken) (λ _.
          guard-Sound bad taken (λ within. record {
            key = sound.key;
            row_min = ground (arith, within);
            row_max = ground (arith, within);
            col_min = sound.col_min;
            col_max = sound.col_max;
          })))

  pub take_col-Sound :
      (value : Option (List ℕ)) (s : Settings)
      → Sound (alphabet_of arg1) s
      → SoundParse (take_col arg1 value s)
  unfolding take_col SoundParse
  take_col-Sound none s sound =
      guard-Sound (string_eql arg1 flag_f) _
        (λ _. guard-Sound (ltb 1 (s.c_count + 1)) fault (λ _. tt))
  take_col-Sound (some value) s sound =
      let v : ℕ = string_to_int value in
      let taken : Parse = accept (record s { c_count = s.c_count + 1; col = v }) in
      let bad : Bool = ltb v 9 || ltb 15 v in
      guard-Sound (string_eql arg1 flag_f) _ (λ _.
        guard-Sound (ltb 1 (s.c_count + 1)) (if bad then reject else taken) (λ _.
          guard-Sound bad taken (λ within. record {
            key = sound.key;
            row_min = sound.row_min;
            row_max = sound.row_max;
            col_min = ground (arith, within);
            col_max = ground (arith, within);
          })))

  module _ (cipher : (string_eql arg1 flag_p || string_eql arg1 flag_f) ≡ true) where
    pub legal_of :
        (value : List ℕ)
        → (string_eql arg1 flag_p && not (is_legal_in_alphabet value polybius_alphabet)) ≡ false
        → (string_eql arg1 flag_f && not (is_legal_in_alphabet value fm_alphabet)) ≡ false
        → is_legal_in_alphabet value (alphabet_of arg1) ≡ true
    unfolding alphabet_of
    legal_of value polybius fm = ground (arith, cipher, polybius, fm)

    pub take_key-Sound :
        (value : Option (List ℕ)) (s : Settings)
        → Sound (alphabet_of arg1) s
        → SoundParse (take_key after arg1 value s)
    unfolding take_key SoundParse check_key KeyIn
    take_key-Sound none s sound = guard-Sound (ltb 1 (s.k_count + 1)) fault (λ _. tt)
    take_key-Sound (some value) s sound =
        let taken : Parse = accept (record s { k_count = s.k_count + 1; key = some value }) in
        let not_polybius : Bool =
          string_eql arg1 flag_p && not (is_legal_in_alphabet value polybius_alphabet) in
        let not_fm : Bool =
          string_eql arg1 flag_f && not (is_legal_in_alphabet value fm_alphabet) in
        guard-Sound (ltb 1 (s.k_count + 1)) _ (λ _.
          guard-Sound (has_repeated_char after value)
            (if not_polybius then reject else if not_fm then reject else taken)
            (λ distinct. guard-Sound not_polybius (if not_fm then reject else taken) (λ p.
              guard-Sound not_fm taken (λ f. record {
                key = (repeats-has_repeated_char after value distinct, legal_of value p f);
                row_min = sound.row_min;
                row_max = sound.row_max;
                col_min = sound.col_min;
                col_max = sound.col_max;
              }))))

    pub read_argument-Sound :
        (arg : List ℕ) (value : Option (List ℕ)) (s : Settings)
        → Sound (alphabet_of arg1) s
        → SoundParse (read_argument after arg1 arg value s)
    unfolding read_argument
    read_argument-Sound arg value s sound =
        let col_part : Settings → Parse =
          λ s. if string_eql arg flag_c then take_col arg1 value s else accept s in
        let row_part : Settings → Parse =
          λ s. if string_eql arg flag_r then take_row arg1 value s else accept s in
        let key_part : Parse =
          if string_eql arg flag_k then take_key after arg1 value s else accept s in
        bind-Sound key_part (λ s. row_part s >>= col_part)
          (when-Sound (string_eql arg flag_k) _ s (take_key-Sound value s sound) sound)
          (λ s sound.
            bind-Sound (row_part s) col_part
              (when-Sound (string_eql arg flag_r) _ s (take_row-Sound value s sound) sound)
              (λ s sound.
                when-Sound (string_eql arg flag_c) _ s (take_col-Sound value s sound) sound))

    pub read_arguments-Sound :
        (args : List (List ℕ)) (s : Settings)
        → Sound (alphabet_of arg1) s
        → SoundParse (read_arguments after arg1 args s)
    unfolding read_arguments SoundParse
    read_arguments-Sound [] s sound = sound
    read_arguments-Sound (arg ∷ args) s sound =
        bind-Sound _ _ (read_argument-Sound arg (next_argument args) s sound)
          (read_arguments-Sound args)
