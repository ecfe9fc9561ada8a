-- ===== src/Common/Modular.antt =====
-- Positions that wrap round the end of an array, as `(index + i) % capacity` does.
use native.Mathlib.Decide.{dec_lt}
use native.Mathlib.Nat.{mod-eq_of_lt, mod-eq-sub-mod}
use cse320_projects.Common.{
  ℕ, ◌+◌, ◌-◌, ◌%◌, ◌≤◌, ◌<◌, ◌≡◌, sym, ◌∙◌, ◌⊎◌, inl, inr, arith, leb, if◌then◌else◌,
}

-- A sum of two numbers below `n` wraps at most once.
pub mod_cases : (a n : ℕ) → a < n + n → ((a < n) × (a % n ≡ a)) ⊎ ((n ≤ a) × (a % n ≡ a - n))
mod_cases a n h = elim (dec_lt a n) [
  | yes p ↦ inl (p, mod-eq_of_lt p)
  | no p ↦ inr (omega arith, mod-eq-sub-mod (omega arith) ∙ mod-eq_of_lt (omega arith))
]

-- The round of the probe at which slot `j` is reached from slot `index`.
pub offset : ℕ → ℕ → ℕ → ℕ
offset index n j = if leb index j then j - index else j + n - index

module _ (index n : ℕ) (within : index < n) where
  pub offset-lt : (j : ℕ) → j < n → offset index n j < n
  unfolding offset
  offset-lt j h = ground arith

  pub mod-offset : (j : ℕ) → j < n → (index + offset index n j) % n ≡ j
  unfolding offset
  mod-offset j h =
      ground (arith, mod_cases (index + offset index n j) n (omega (arith, offset-lt j h)))

  pub offset-mod : (i : ℕ) → i < n → offset index n ((index + i) % n) ≡ i
  unfolding offset
  offset-mod i h = ground (arith, mod_cases (index + i) n (omega arith))

  -- Two slots are not reached in one round.
  pub offset_injective : (i j : ℕ) → i < n → j < n → offset index n i ≡ offset index n j → i ≡ j
  offset_injective i j hi hj e = sym (mod-offset i hi) ∙ (rw e (mod-offset j hj))
