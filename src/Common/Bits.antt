-- ===== src/Common/Bits.antt =====
-- Bitwise `and` and `or` of native numbers: masks of low digits, and fields that do not overlap.
use Prim.Native.Nat.{min, max, bit_and, bit_or, bitwise, digits, bit_and-bitwise, bit_or-bitwise}
use cse320_projects.Common.{ℕ, zero, suc, ◌+◌, ◌*◌, ◌/◌, ◌%◌, ◌≤◌, ◌<◌, ◌≡◌, refl, ap, arith}

-- An operation on digits that treats an empty first number like one more digit 0.
module _ (z : ℕ → ℕ) (f : ℕ → ℕ → ℕ) (ends : (b : ℕ) → z b ≡ z (b / 2) * 2 + f 0 (b % 2)) where
  -- The count of digits to go does not matter, once it is large enough.
  digits_count : (n m a b : ℕ) → a ≤ n → a ≤ m → digits z f n a b ≡ digits z f m a b
  digits_count zero zero a b h g = refl
  digits_count zero (suc m) zero b h g = refl
  digits_count (suc n) zero zero b h g = refl
  digits_count (suc n) (suc m) zero b h g = refl
  digits_count zero m (suc a) b h g = absurd (omega arith)
  digits_count (suc n) zero (suc a) b h g = absurd (omega arith)
  digits_count (suc n) (suc m) (suc a) b h g =
      let rest = digits_count n m (suc a / 2) (b / 2) (omega arith) (omega arith) in
      ap (λ d. d * 2 + f (suc a % 2) (b % 2)) rest

  bitwise_halves : (a b : ℕ) → bitwise z f a b ≡ bitwise z f (a / 2) (b / 2) * 2 + f (a % 2) (b % 2)
  bitwise_halves zero b = ends b
  bitwise_halves (suc a) b =
      let rest = digits_count a (suc a / 2) (suc a / 2) (b / 2) (omega arith) (omega arith) in
      ap (λ d. d * 2 + f (suc a % 2) (b % 2)) rest

bit_and_halves : (a b : ℕ) → bit_and a b ≡ bit_and (a / 2) (b / 2) * 2 + min (a % 2) (b % 2)
bit_and_halves a b = omega (
  arith,
  bit_and-bitwise a b,
  bit_and-bitwise (a / 2) (b / 2),
  bitwise_halves (λ b. 0) min (λ b. omega arith) a b,
)

bit_or_halves : (a b : ℕ) → bit_or a b ≡ bit_or (a / 2) (b / 2) * 2 + max (a % 2) (b % 2)
bit_or_halves a b = omega (
  arith,
  bit_or-bitwise a b,
  bit_or-bitwise (a / 2) (b / 2),
  bitwise_halves (λ b. b) max (λ b. omega arith) a b,
)

-- A number shifted to the left, digit by digit.
shifted : ℕ → ℕ → ℕ
shifted zero a = a
shifted (suc k) a = 2 * shifted k a

pub zero-bit_or : (b : ℕ) → bit_or 0 b ≡ b
zero-bit_or b = bit_or-bitwise 0 b

bit_or-zero_below : (n a : ℕ) → a ≤ n → bit_or a 0 ≡ a
bit_or-zero_below n zero h = refl
bit_or-zero_below zero (suc a) h = absurd (omega arith)
bit_or-zero_below (suc n) (suc a) h =
    omega (arith, bit_or_halves (suc a) 0, bit_or-zero_below n (suc a / 2) (omega arith))

pub bit_or-zero : (a : ℕ) → bit_or a 0 ≡ a
bit_or-zero a = bit_or-zero_below a a (omega arith)

-- A field of `k` digits is free below a shift by `k`.
bit_or-shifted : (k a b : ℕ) → b < shifted k 1 → bit_or (shifted k a) b ≡ shifted k a + b
unfolding shifted
bit_or-shifted zero a zero h = let base : bit_or a 0 ≡ a + 0 = omega (arith, bit_or-zero a) in base
bit_or-shifted zero a (suc b) h = let h' : suc b < 1 = h in absurd (omega arith)
bit_or-shifted (suc k) a b h =
    let h' : b < 2 * shifted k 1 = h in
    let half : 2 * shifted k a / 2 ≡ shifted k a = omega arith in
    omega (
      arith,
      bit_or_halves (2 * shifted k a) b,
      bit_or-shifted k a (b / 2) (omega arith),
      ap (λ x. bit_or x (b / 2)) half,
    )

bit_and-zero_below : (n a : ℕ) → a ≤ n → bit_and a 0 ≡ 0
bit_and-zero_below n zero h = refl
bit_and-zero_below zero (suc a) h = absurd (omega arith)
bit_and-zero_below (suc n) (suc a) h =
    omega (arith, bit_and_halves (suc a) 0, bit_and-zero_below n (suc a / 2) (omega arith))

-- The masks of the lowest digits.
pub bit_and_low3 : (a : ℕ) → bit_and a 0x7 ≡ a % 8
bit_and_low3 a =
    let q = a / 2 / 2 / 2 in
    omega (
      arith,
      bit_and_halves a 7,
      bit_and_halves (a / 2) 3,
      bit_and_halves (a / 2 / 2) 1,
      bit_and-zero_below q q (omega arith),
    )

pub bit_and_low4 : (a : ℕ) → bit_and a 0xF ≡ a % 16
bit_and_low4 a = omega (arith, bit_and_halves a 0xF, bit_and_low3 (a / 2))

pub bit_and_low5 : (a : ℕ) → bit_and a 0x1F ≡ a % 32
bit_and_low5 a = omega (arith, bit_and_halves a 0x1F, bit_and_low4 (a / 2))

pub bit_and_low6 : (a : ℕ) → bit_and a 0x3F ≡ a % 64
bit_and_low6 a = omega (arith, bit_and_halves a 0x3F, bit_and_low5 (a / 2))

pub bit_and_low10 : (a : ℕ) → bit_and a 0x3FF ≡ a % 1024
bit_and_low10 a = omega (
  arith,
  bit_and_halves a 0x3FF,
  bit_and_halves (a / 2) 0x1FF,
  bit_and_halves (a / 2 / 2) 0xFF,
  bit_and_halves (a / 2 / 2 / 2) 0x7F,
  bit_and_low6 (a / 2 / 2 / 2 / 2),
)

six : (a : ℕ) → a * 64 ≡ shifted 6 a
unfolding shifted
six a = omega arith

ten : (a : ℕ) → a * 1024 ≡ shifted 10 a
unfolding shifted
ten a = omega arith

twelve : (a : ℕ) → a * 4096 ≡ shifted 12 a
unfolding shifted
twelve a = omega arith

eighteen : (a : ℕ) → a * 262144 ≡ shifted 18 a
unfolding shifted
eighteen a = omega arith

-- A field below a shift by 6, 10, 12 or 18 digits.
pub bit_or_field6 : (a b : ℕ) → b < 64 → bit_or (a * 64) b ≡ a * 64 + b
unfolding shifted
bit_or_field6 a b h = omega (arith, bit_or-shifted 6 a b h, ap (λ x. bit_or x b) (six a))

pub bit_or_field10 : (a b : ℕ) → b < 1024 → bit_or (a * 1024) b ≡ a * 1024 + b
unfolding shifted
bit_or_field10 a b h = omega (arith, bit_or-shifted 10 a b h, ap (λ x. bit_or x b) (ten a))

pub bit_or_field12 : (a b : ℕ) → b < 4096 → bit_or (a * 4096) b ≡ a * 4096 + b
unfolding shifted
bit_or_field12 a b h = omega (arith, bit_or-shifted 12 a b h, ap (λ x. bit_or x b) (twelve a))

pub bit_or_field18 : (a b : ℕ) → b < 262144 → bit_or (a * 262144) b ≡ a * 262144 + b
unfolding shifted
bit_or_field18 a b h = omega (arith, bit_or-shifted 18 a b h, ap (λ x. bit_or x b) (eighteen a))
