-- ===== src/Cipher/MorseTables.antt =====
-- The tables of the fractionated Morse cipher of hw1/src/const.c, as lists of ASCII codes.
use cse320_projects.Common.{ℕ, List, [], ◌∷◌}

abbrev pub dash : ℕ
dash = 45

abbrev pub dot : ℕ
dot = 46

abbrev pub x_mark : ℕ
x_mark = 120

-- From '!' to 'z', the empty string where a character has no code.
unfoldable pub morse_table : List (List ℕ)
morse_table =
    (dash ∷ dot ∷ dash ∷ dot ∷ dash ∷ dash ∷ [])
    ∷ (dot ∷ dash ∷ dot ∷ dot ∷ dash ∷ dot ∷ [])
    ∷ []
    ∷ []
    ∷ []
    ∷ []
    ∷ (dot ∷ dash ∷ dash ∷ dash ∷ dash ∷ dot ∷ [])
    ∷ (dash ∷ dot ∷ dash ∷ dash ∷ dot ∷ [])
    ∷ (dash ∷ dot ∷ dash ∷ dash ∷ dot ∷ dash ∷ [])
    ∷ []
    ∷ []
    ∷ (dash ∷ dash ∷ dot ∷ dot ∷ dash ∷ dash ∷ [])
    ∷ (dash ∷ dot ∷ dot ∷ dot ∷ dot ∷ dash ∷ [])
    ∷ (dot ∷ dash ∷ dot ∷ dash ∷ dot ∷ dash ∷ [])
    ∷ []
    ∷ (dash ∷ dash ∷ dash ∷ dash ∷ dash ∷ [])
    ∷ (dot ∷ dash ∷ dash ∷ dash ∷ dash ∷ [])
    ∷ (dot ∷ dot ∷ dash ∷ dash ∷ dash ∷ [])
    ∷ (dot ∷ dot ∷ dot ∷ dash ∷ dash ∷ [])
    ∷ (dot ∷ dot ∷ dot ∷ dot ∷ dash ∷ [])
    ∷ (dot ∷ dot ∷ dot ∷ dot ∷ dot ∷ [])
    ∷ (dash ∷ dot ∷ dot ∷ dot ∷ dot ∷ [])
    ∷ (dash ∷ dash ∷ dot ∷ dot ∷ dot ∷ [])
    ∷ (dash ∷ dash ∷ dash ∷ dot ∷ dot ∷ [])
    ∷ (dash ∷ dash ∷ dash ∷ dash ∷ dot ∷ [])
    ∷ (dash ∷ dash ∷ dash ∷ dot ∷ dot ∷ dot ∷ [])
    ∷ (dash ∷ dot ∷ dash ∷ dot ∷ dash ∷ dot ∷ [])
    ∷ []
    ∷ (dash ∷ dot ∷ dot ∷ dot ∷ dash ∷ [])
    ∷ []
    ∷ (dot ∷ dot ∷ dash ∷ dash ∷ dot ∷ dot ∷ [])
    ∷ (dot ∷ dash ∷ dash ∷ dot ∷ dash ∷ dot ∷ [])
    ∷ (dot ∷ dash ∷ [])
    ∷ (dash ∷ dot ∷ dot ∷ dot ∷ [])
    ∷ (dash ∷ dot ∷ dash ∷ dot ∷ [])
    ∷ (dash ∷ dot ∷ dot ∷ [])
    ∷ (dot ∷ [])
    ∷ (dot ∷ dot ∷ dash ∷ dot ∷ [])
    ∷ (dash ∷ dash ∷ dot ∷ [])
    ∷ (dot ∷ dot ∷ dot ∷ dot ∷ [])
    ∷ (dot ∷ dot ∷ [])
    ∷ (dot ∷ dash ∷ dash ∷ dash ∷ [])
    ∷ (dash ∷ dot ∷ dash ∷ [])
    ∷ (dot ∷ dash ∷ dot ∷ dot ∷ [])
    ∷ (dash ∷ dash ∷ [])
    ∷ (dash ∷ dot ∷ [])
    ∷ (dash ∷ dash ∷ dash ∷ [])
    ∷ (dot ∷ dash ∷ dash ∷ dot ∷ [])
    ∷ (dash ∷ dash ∷ dot ∷ dash ∷ [])
    ∷ (dot ∷ dash ∷ dot ∷ [])
    ∷ (dot ∷ dot ∷ dot ∷ [])
    ∷ (dash ∷ [])
    ∷ (dot ∷ dot ∷ dash ∷ [])
    ∷ (dot ∷ dot ∷ dot ∷ dash ∷ [])
    ∷ (dot ∷ dash ∷ dash ∷ [])
    ∷ (dash ∷ dot ∷ dot ∷ dash ∷ [])
    ∷ (dash ∷ dot ∷ dash ∷ dash ∷ [])
    ∷ (dash ∷ dash ∷ dot ∷ dot ∷ [])
    ∷ []
    ∷ []
    ∷ []
    ∷ []
    ∷ []
    ∷ []
    ∷ []
    ∷ []
    ∷ []
    ∷ []
    ∷ []
    ∷ []
    ∷ []
    ∷ []
    ∷ []
    ∷ []
    ∷ []
    ∷ []
    ∷ []
    ∷ []
    ∷ []
    ∷ []
    ∷ []
    ∷ []
    ∷ []
    ∷ []
    ∷ []
    ∷ []
    ∷ []
    ∷ []
    ∷ []
    ∷ []
    ∷ []

unfoldable pub fractionated_table : List (List ℕ)
fractionated_table =
    (dot ∷ dot ∷ dot ∷ [])
    ∷ (dot ∷ dot ∷ dash ∷ [])
    ∷ (dot ∷ dot ∷ x_mark ∷ [])
    ∷ (dot ∷ dash ∷ dot ∷ [])
    ∷ (dot ∷ dash ∷ dash ∷ [])
    ∷ (dot ∷ dash ∷ x_mark ∷ [])
    ∷ (dot ∷ x_mark ∷ dot ∷ [])
    ∷ (dot ∷ x_mark ∷ dash ∷ [])
    ∷ (dot ∷ x_mark ∷ x_mark ∷ [])
    ∷ (dash ∷ dot ∷ dot ∷ [])
    ∷ (dash ∷ dot ∷ dash ∷ [])
    ∷ (dash ∷ dot ∷ x_mark ∷ [])
    ∷ (dash ∷ dash ∷ dot ∷ [])
    ∷ (dash ∷ dash ∷ dash ∷ [])
    ∷ (dash ∷ dash ∷ x_mark ∷ [])
    ∷ (dash ∷ x_mark ∷ dot ∷ [])
    ∷ (dash ∷ x_mark ∷ dash ∷ [])
    ∷ (dash ∷ x_mark ∷ x_mark ∷ [])
    ∷ (x_mark ∷ dot ∷ dot ∷ [])
    ∷ (x_mark ∷ dot ∷ dash ∷ [])
    ∷ (x_mark ∷ dot ∷ x_mark ∷ [])
    ∷ (x_mark ∷ dash ∷ dot ∷ [])
    ∷ (x_mark ∷ dash ∷ dash ∷ [])
    ∷ (x_mark ∷ dash ∷ x_mark ∷ [])
    ∷ (x_mark ∷ x_mark ∷ dot ∷ [])
    ∷ (x_mark ∷ x_mark ∷ dash ∷ [])
    ∷ []
