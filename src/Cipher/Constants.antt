-- ===== src/Cipher/Constants.antt =====
-- The alphabets of hw1/src/const.c, as ASCII codes.
use cse320_projects.Common.{ℕ, zero, suc, List, [], ◌∷◌, replicate}

-- `n` consecutive codes from `a` on
unfoldable pub codes : ℕ → ℕ → List ℕ
codes a zero = []
codes a (suc n) = a ∷ codes (suc a) n

-- '!' to '~'
abbrev pub polybius_alphabet : List ℕ
polybius_alphabet = codes 33 94

-- 'A' to 'Z'
abbrev pub fm_alphabet : List ℕ
fm_alphabet = codes 65 26

abbrev pub initial_table : List ℕ
initial_table = replicate 257 0
