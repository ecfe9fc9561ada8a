-- ===== src/Cipher/Program/Main.antt =====
-- `main` of hw1/src/main.c: which cipher it runs for the value of `validargs`.
use native.Mathlib.Decide.{ℕ_discrete}
use Prim.Native.Nat.{bit_and}
use cse320_projects.Common.{
  ℕ, zero, suc, ◌+◌, ◌*◌, ◌≤◌, ◌<◌, ◌≡◌, refl, Bool, true, false, not, ◌&&◌, some, List, [], ◌∷◌,
  ◌++◌, arith, ◌==◌, if◌then◌else◌, passes, passes_at,
}
use cse320_projects.Cipher.Arguments.{Validated, validargs}
use cse320_projects.Cipher.Program.{Outcome, refusal, help, polybius, morse, validargs-Outcome}

pub data CipherCall : Type 0 where
  pe : CipherCall
  pd : CipherCall
  fe : CipherCall
  fd : CipherCall

-- `usage` ends the program with the exit status; otherwise the ciphers are called in order.
pub data MainRun : Type 0 where
  usage : ℕ → MainRun
  calls : List CipherCall → MainRun

unfoldable pub when : Bool → CipherCall → List CipherCall
when true call = call ∷ []
when false call = []

unfoldable pub main : ℕ → MainRun
unfolding when
main mode =
    if not (bit_and mode 0x8000 == 0)
    then usage 0
    else if mode == 0
    then usage 1
    else calls (
        when (bit_and mode 0xE000 == 0x0000) pe
        ++ when (bit_and mode 0xE000 == 0x2000) pd
        ++ when (bit_and mode 0xE000 == 0x4000) fe
        ++ when (bit_and mode 0xE000 == 0x6000) fd)

-- What `main` does with the value that `validargs` gave.
pub data Chosen (mode : ℕ) : Type 0 where
  declined : mode ≡ 0 → main mode ≡ usage 1 → Chosen mode
  helped : mode ≡ 0x8000 → main mode ≡ usage 0 → Chosen mode
  polybius_encrypt : mode < 0x2000 → main mode ≡ calls (pe ∷ []) → Chosen mode
  polybius_decrypt : 0x2000 ≤ mode → mode < 0x4000 → main mode ≡ calls (pd ∷ []) → Chosen mode
  morse_encrypt : mode ≡ 0x4000 → main mode ≡ calls (fe ∷ []) → Chosen mode
  morse_decrypt : mode ≡ 0x6000 → main mode ≡ calls (fd ∷ []) → Chosen mode

-- The two bits that `main` reads, for every mode of the Polybius cipher.
pub bits_ok : ℕ → ℕ → ℕ → Bool
bits_ok d row col =
    (bit_and (d * 0x2000 + (row * 16 + col)) 0x8000 == 0)
    && (bit_and (d * 0x2000 + (row * 16 + col)) 0xE000 == (d * 0x2000))

pub bits_table : passes (λ d. passes (λ row. passes (bits_ok d row) 16) 16) 2 ≡ true
unfolding passes bits_ok
bits_table = refl

pub main-pe :
    (mode : ℕ)
    → (bit_and mode 0x8000 == 0) ≡ true
    → bit_and mode 0xE000 ≡ 0
    → 0 < mode
    → main mode ≡ calls (pe ∷ [])
unfolding main when
main-pe mode low bits some_bits = ground (arith, low, bits)

pub main-pd :
    (mode : ℕ)
    → (bit_and mode 0x8000 == 0) ≡ true
    → bit_and mode 0xE000 ≡ 0x2000
    → 0 < mode
    → main mode ≡ calls (pd ∷ [])
unfolding main when
main-pd mode low bits some_bits = ground (arith, low, bits)

pub polybius-Chosen :
    (d row col : ℕ) → d < 2 → 9 ≤ row → row ≤ 15 → col ≤ 15 → Chosen (d * 0x2000 + (row * 16 + col))
polybius-Chosen d row col hd min hr hc =
    let mode : ℕ = d * 0x2000 + (row * 16 + col) in
    let ok : bits_ok d row col ≡ true =
      passes_at _ 16 (passes_at _ 16 (passes_at _ 2 bits_table d hd) row (omega arith)) col
        (omega arith) in
    let low : (bit_and mode 0x8000 == 0) ≡ true = unfold bits_ok in ground (arith, ok) in
    let bits : bit_and mode 0xE000 ≡ d * 0x2000 = unfold bits_ok in ground (arith, ok) in
    elim (ℕ_discrete d 0) [
      | yes e ↦
          polybius_encrypt (omega arith) (main-pe mode low (omega (arith, bits)) (omega arith))
      | no e ↦
          polybius_decrypt (omega arith) (omega arith)
            (main-pd mode low (omega (arith, bits)) (omega arith))
    ]

pub Outcome-Chosen : (v : Validated) → Outcome v → Chosen v.mode
Outcome-Chosen v (refusal e) = rw e (declined refl (unfold main in refl))
Outcome-Chosen v (help e) = rw e (helped refl (unfold main in refl))
Outcome-Chosen v (polybius d row col hd r9 r15 c9 c15 e key) =
    let same : v.mode ≡ d * 0x2000 + (row * 16 + col) = omega (arith, e) in
    rw same (polybius-Chosen d row col hd r9 r15 c15)
Outcome-Chosen v (morse zero hd e key) = rw e (morse_encrypt refl (unfold main when in refl))
Outcome-Chosen v (morse (suc zero) hd e key) = rw e (morse_decrypt refl (unfold main when in refl))
Outcome-Chosen v (morse (suc (suc d)) hd e key) = absurd (omega arith)

-- For every value that `validargs` returns, `main` prints the usage for 0 (as a failure) and 0x8000
-- (as a success), and otherwise calls exactly one cipher: `cipher_pe` below 0x2000, `cipher_pd`
-- from there to 0x4000, `cipher_fe` for 0x4000 and `cipher_fd` for 0x6000.
pub validargs-Chosen :
    (after : List ℕ) (argv : List (List ℕ)) (v : Validated)
    → validargs after argv ≡ some v
    → Chosen v.mode
validargs-Chosen after argv v e = Outcome-Chosen v (validargs-Outcome after argv v e)
