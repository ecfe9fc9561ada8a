-- ===== src/Cipher/Polybius/Table.antt =====
-- Where the Polybius table that hw1/src/hw1.c builds ends.
use native.Mathlib.Decide.{ℕ_discrete}
use cse320_projects.Common.{
  ◌≢◌, inl, inr, Bool-cases, ℕ, zero, suc, ◌+◌, ◌-◌, ◌≤◌, ◌<◌, ◌≡◌, refl, ap, Bool, true, false,
  not, Option, none, some, List, [], ◌∷◌, arith, ◌==◌, if◌then◌else◌, get_or, set, replicate,
  length,
}
use cse320_projects.Cipher.Strings.{is_char_in_alphabet, repeats, is_legal_in_alphabet}
use cse320_projects.Cipher.Constants.{codes, polybius_alphabet, initial_table}
use cse320_projects.Cipher.Polybius.{
  Filled, is_char_in_key, copy_key, copy_rest, clear_rest, keyed_table, alphabet_byte,
  copy_alphabet, construct_table,
}

-- The characters that `copy_rest` copies, counted.
unfoldable pub rest_size : List ℕ → List ℕ → ℕ
rest_size key [] = 0
rest_size key (c ∷ alphabet) =
    let rest = rest_size key alphabet in if is_char_in_key key c then rest else suc rest

pub rest_size-nil : (alphabet : List ℕ) → rest_size [] alphabet ≡ length alphabet
unfolding rest_size is_char_in_key
rest_size-nil [] = refl
rest_size-nil (c ∷ alphabet) = ap suc (rest_size-nil alphabet)

pub codes-below : (k a n : ℕ) → k < a → is_char_in_alphabet k (codes a n) ≡ false
unfolding codes is_char_in_alphabet
codes-below k a zero h = refl
codes-below k a (suc n) h = ground (arith, codes-below k (suc a) n (omega arith))

pub is_char_in_key-alphabet : (c : ℕ) (s : List ℕ) → is_char_in_key s c ≡ is_char_in_alphabet c s
unfolding is_char_in_key is_char_in_alphabet
is_char_in_key-alphabet c [] = refl
is_char_in_key-alphabet c (d ∷ s) = ground (arith, is_char_in_key-alphabet c s)

pub rest_size-below :
    (key : List ℕ) (k a n : ℕ) → k < a → rest_size (k ∷ key) (codes a n) ≡ rest_size key (codes a n)
unfolding rest_size codes is_char_in_key
rest_size-below key k a zero h = refl
rest_size-below key k a (suc n) h = ground (arith, rest_size-below key k (suc a) n (omega arith))

-- A new character of the key takes one place of the alphabet.
pub rest_size-codes :
    (key : List ℕ) (k a n : ℕ)
    → is_char_in_key key k ≡ false
    → rest_size (k ∷ key) (codes a n) + (if is_char_in_alphabet k (codes a n) then 1 else 0)
      ≡ rest_size key (codes a n)
unfolding rest_size codes is_char_in_key is_char_in_alphabet
rest_size-codes key k a zero new = omega arith
rest_size-codes key k a (suc n) new = elim (ℕ_discrete k a) [
  | yes p ↦ ground (
    arith,
    codes-below k (suc a) n (omega arith),
    rest_size-below key k (suc a) n (omega arith),
    new,
    p,
  )
  | no p ↦ ground (arith, rest_size-codes key k (suc a) n new)
]

pub length-codes : (a n : ℕ) → length (codes a n) ≡ n
unfolding codes
length-codes a zero = refl
length-codes a (suc n) = ap suc (length-codes (suc a) n)

pub size_bound :
    (key : List ℕ) (a n : ℕ)
    → repeats key ≡ false
    → is_legal_in_alphabet key (codes a n) ≡ true
    → length key + rest_size key (codes a n) ≡ n
unfolding repeats is_legal_in_alphabet
size_bound [] a n distinct legal = omega (arith, rest_size-nil (codes a n), length-codes a n)
size_bound (k ∷ key) a n distinct legal = ground (
  arith,
  size_bound key a n (ground arith) (ground arith),
  rest_size-codes key k a n (ground (arith, is_char_in_key-alphabet k key)),
)

-- `z` is a byte behind what is written, and clear.
unfoldable pub Clear : ℕ → List ℕ → Type 0
Clear z table = get_or table z 1 ≡ 0

pub Clear-set : (table : List ℕ) (i z c : ℕ) → i ≢ z → Clear z table → Clear z (set table i c)
unfolding Clear set get_or
Clear-set [] i z c h clear = clear
Clear-set (x ∷ table) zero zero c h clear = absurd (h refl)
Clear-set (x ∷ table) (suc i) zero c h clear = clear
Clear-set (x ∷ table) zero (suc z) c h clear = clear
Clear-set (x ∷ table) (suc i) (suc z) c h clear = Clear-set table i z c (λ e. h (ap suc e)) clear

pub zeroing-Clear : (table : List ℕ) (i z : ℕ) → Clear z table → Clear z (set table i 0)
unfolding Clear set get_or
zeroing-Clear [] i z clear = clear
zeroing-Clear (x ∷ table) zero zero clear = refl
zeroing-Clear (x ∷ table) (suc i) zero clear = clear
zeroing-Clear (x ∷ table) zero (suc z) clear = clear
zeroing-Clear (x ∷ table) (suc i) (suc z) clear = zeroing-Clear table i z clear

pub copy_key-Clear :
    (key : List ℕ) (z : ℕ) (self : Filled)
    → self.i + length key ≤ z
    → Clear z self.table
    → Clear z (copy_key key self).table × ((copy_key key self).i ≡ self.i + length key)
unfolding copy_key Clear
copy_key-Clear [] z self below clear = (clear, omega arith)
copy_key-Clear (c ∷ key) z self below clear =
    let (clear', e) =
      copy_key-Clear key z (record self { table = set self.table self.i c; i = self.i + 1 })
        (omega arith) (Clear-set self.table self.i z c (omega arith) clear) in
    (clear', omega arith)

-- A round of the loop over the alphabet.
pub rest_step :
    (b : Bool) (n c z : ℕ) (self : Filled)
    → self.i + (if b then n else suc n) ≤ z
    → (if b then self else record self { table = set self.table self.i c; i = self.i + 1 }).i + n
      ≤ z
rest_step true n c z self below = below
rest_step false n c z self below = omega arith

pub rest_step-Clear :
    (b : Bool) (n c z : ℕ) (self : Filled)
    → self.i + (if b then n else suc n) ≤ z
    → Clear z self.table
    → Clear z
        (if b then self else record self { table = set self.table self.i c; i = self.i + 1 }).table
rest_step-Clear true n c z self below clear = clear
rest_step-Clear false n c z self below clear = Clear-set self.table self.i z c (omega arith) clear

pub copy_rest-Clear :
    (key alphabet : List ℕ) (z : ℕ) (self : Filled)
    → self.i + rest_size key alphabet ≤ z
    → Clear z self.table
    → Clear z (copy_rest key alphabet self).table
unfolding copy_rest Clear rest_size
copy_rest-Clear key [] z self below clear = clear
copy_rest-Clear key (c ∷ alphabet) z self below clear =
    copy_rest-Clear key alphabet z _
      (rest_step (is_char_in_key key c) (rest_size key alphabet) c z self below)
      (rest_step-Clear (is_char_in_key key c) (rest_size key alphabet) c z self below clear)

pub clear_rest-Clear : (n k z : ℕ) (table : List ℕ) → Clear z table → Clear z (clear_rest n k table)
unfolding clear_rest Clear
clear_rest-Clear zero k z table clear = clear
clear_rest-Clear (suc n) k z table clear =
    clear_rest-Clear n (k + 1) z (set table k 0) (zeroing-Clear table k z clear)

pub keyed_table-Clear :
    (key : List ℕ) (total : ℕ) (table : List ℕ)
    → repeats key ≡ false
    → is_legal_in_alphabet key polybius_alphabet ≡ true
    → Clear 94 table
    → Clear 94 (keyed_table key total table)
unfolding keyed_table
keyed_table-Clear key total table distinct legal clear =
    let size = size_bound key 33 94 distinct legal in
    let (copied, at) =
      copy_key-Clear key 94 (record { table = table; i = 0 }) (omega (arith, size)) clear in
    let self = copy_key key (record { table = table; i = 0 }) in
    let below : self.i + rest_size key polybius_alphabet ≤ 94 = omega (arith, size, at) in
    let filled = copy_rest key polybius_alphabet self in
    clear_rest-Clear (total - filled.i) filled.i 94 filled.table
      (copy_rest-Clear key polybius_alphabet 94 self below copied)

pub alphabet_step-Clear :
    (beyond : ℕ → ℕ) (i : ℕ) (table : List ℕ)
    → Clear 94 table
    → Clear 94 (
        if not (alphabet_byte beyond i == 0)
        then set table i (alphabet_byte beyond i)
        else set table i 0)
alphabet_step-Clear beyond i table clear = elim (Bool-cases (alphabet_byte beyond i == 0)) [
  | inl e ↦ rw e (zeroing-Clear table i 94 clear)
  | inr e ↦ rw e (
      Clear-set table i 94 (alphabet_byte beyond i)
        (λ at. unfold alphabet_byte in ground (arith, e, at)) clear)
]

pub copy_alphabet-Clear :
    (beyond : ℕ → ℕ) (n i : ℕ) (table : List ℕ)
    → Clear 94 table
    → Clear 94 (copy_alphabet beyond n i table)
unfolding copy_alphabet
copy_alphabet-Clear beyond zero i table clear = clear
copy_alphabet-Clear beyond (suc n) i table clear =
    copy_alphabet-Clear beyond n (i + 1) _ (alphabet_step-Clear beyond i table clear)

pub initial_table-Clear : Clear 94 initial_table
unfolding Clear replicate get_or
initial_table-Clear = refl

-- The key is none, or passes the tests of `validargs`.
unfoldable pub Legal : Option (List ℕ) → Type 0
Legal none = Unit {0}
Legal (some key) = (repeats key ≡ false) × (is_legal_in_alphabet key polybius_alphabet ≡ true)

pub construct_table-Clear :
    (beyond : ℕ → ℕ) (key : Option (List ℕ)) (total : ℕ)
    → Legal key
    → Clear 94 (construct_table beyond key total initial_table)
unfolding construct_table Legal
construct_table-Clear beyond none total legal =
    copy_alphabet-Clear beyond total 0 _ initial_table-Clear
construct_table-Clear beyond (some key) total (distinct, legal) =
    keyed_table-Clear key total _ distinct legal initial_table-Clear
