-- ===== src/Cipher/Arguments/Bits.antt =====
-- The bits that `validargs` of hw1/src/hw1.c returns, and `main` and the ciphers take apart.
use Prim.Native.Nat.{bit_and, bit_or}
use cse320_projects.Common.{
  passes, passes_at, ℕ, ◌+◌, ◌*◌, ◌%◌, ◌^◌, ◌<◌, ◌≡◌, refl, Bool, true, ◌&&◌, arith, ◌==◌,
  if◌then◌else◌,
}
use cse320_projects.Cipher.Strings.{string_eql, string_eql_loop, buffer_size, buffer_size_loop}
use cse320_projects.Cipher.Arguments.{Settings, mode_bits, flag_p, flag_e, flag_d}
use cse320_projects.Cipher.Polybius.{row_of, col_of}

pub polybius_mode : ℕ → ℕ → ℕ → ℕ
polybius_mode d row col =
    let bits = bit_or (bit_or (bit_and (bit_and 0 0xBFFF) 0xFF00) (row * 16 % 2 ^ 16)) col in
    if d == 0 then bit_and bits 0xDFFF else bit_or bits 0x2000

pub mode_ok : ℕ → ℕ → ℕ → Bool
unfolding polybius_mode row_of col_of
mode_ok d row col =
    (polybius_mode d row col == (d * 0x2000 + row * 16 + col))
    && (row_of (polybius_mode d row col) == row)
    && (col_of (polybius_mode d row col) == col)

pub mode_table : passes (λ d. passes (λ row. passes (mode_ok d row) 16) 16) 2 ≡ true
unfolding passes mode_ok
mode_table = refl

pub mode_of : (d row col : ℕ) → d < 2 → row < 16 → col < 16 → mode_ok d row col ≡ true
mode_of d row col hd hr hc =
    passes_at _ 16 (passes_at _ 16 (passes_at _ 2 mode_table d hd) row hr) col hc

-- With "-p", "-e" or "-d", and up to 15 rows and columns.
pub mode_bits-encrypt :
    (s : Settings)
    → s.row < 16
    → s.col < 16
    → (row_of (mode_bits flag_p flag_e s) ≡ s.row)
      × (col_of (mode_bits flag_p flag_e s) ≡ s.col)
      × (mode_bits flag_p flag_e s ≡ s.row * 16 + s.col)
unfolding mode_bits string_eql string_eql_loop buffer_size buffer_size_loop mode_ok polybius_mode
mode_bits-encrypt s hr hc = ground (arith, mode_of 0 s.row s.col (omega arith) hr hc)

pub mode_bits-decrypt :
    (s : Settings)
    → s.row < 16
    → s.col < 16
    → (row_of (mode_bits flag_p flag_d s) ≡ s.row)
      × (col_of (mode_bits flag_p flag_d s) ≡ s.col)
      × (mode_bits flag_p flag_d s ≡ 0x2000 + s.row * 16 + s.col)
unfolding mode_bits string_eql string_eql_loop buffer_size buffer_size_loop mode_ok polybius_mode
mode_bits-decrypt s hr hc = ground (arith, mode_of 1 s.row s.col (omega arith) hr hc)
