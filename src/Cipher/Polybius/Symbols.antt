-- ===== src/Cipher/Polybius/Symbols.antt =====
-- The symbols of hw1/src/hw1.c for rows and columns, and the search of the table.
use native.Mathlib.Nat.{div-add-mod', mod-eq_of_lt}
use native.Mathlib.Decide.{ℕ_discrete}
use cse320_projects.Common.{
  ℕ, zero, suc, ◌+◌, ◌/◌, ◌%◌, ◌<◌, ◌≡◌, sym, false, some, List, [], ◌∷◌, arith, ◌==◌, get_or,
}
use cse320_projects.Cipher.Strings.{char_value}
use cse320_projects.Cipher.Polybius.{
  cal_Index, get_index_loop, int_to_char, char_to_Index, is_blank,
}

pub char_to_Index-int_to_char : (n : ℕ) → n < 16 → char_to_Index (int_to_char n) ≡ n
unfolding char_to_Index int_to_char char_value
char_to_Index-int_to_char n h = ground arith

-- A symbol is no blank and no '\0'.
pub int_to_char-visible :
    (n : ℕ) → n < 16 → (is_blank (int_to_char n) ≡ false) × ((int_to_char n == 0) ≡ false)
unfolding int_to_char is_blank
int_to_char-visible n h = ground arith

pub cal_Index-divmod : (i col : ℕ) → 0 < col → i < 256 → cal_Index (i / col) (i % col) col ≡ i
unfolding cal_Index
cal_Index-divmod i col h w = rw (div-add-mod' i col) (mod-eq_of_lt (omega arith))

-- What the search finds stands in the table before every '\0'.
pub get_index_loop-found :
    (chr : ℕ) (table : List ℕ) (i j z : ℕ)
    → get_index_loop chr table i ≡ some j
    → get_or table z 1 ≡ 0
    → (k : ℕ) × (j ≡ i + k) × (k < z) × ((d : ℕ) → get_or table k d ≡ chr)
unfolding get_index_loop get_or
get_index_loop-found chr [] i j z found end = absurd (cc found)
get_index_loop-found chr (c ∷ table) i j zero found end = absurd (ground arith)
get_index_loop-found chr (c ∷ table) i j (suc z) found end = elim (ℕ_discrete chr c) [
  | yes p ↦ (0, ground arith, omega arith, λ d. sym p)
  | no p ↦
      let found' : get_index_loop chr table (i + 1) ≡ some j = ground arith in
      let (k, e, below, at) = get_index_loop-found chr table (i + 1) j z found' end in
      (suc k, omega arith, omega arith, at)
]
