-- ===== src/Utf/Reverse.antt =====
-- `reverse_bytes` of hw2/src/wrappers.c.
use native.Mathlib.Decide.{dec_lt}
use cse320_projects.Common.{
  ℕ, zero, suc, ◌+◌, ◌-◌, ◌≤◌, ◌<◌, ◌≡◌, ◌&&◌, List, ltb, leb, if◌then◌else◌, get_or, set, length,
  length-set, get_or-set, arith, refl, ◌==◌, [], ◌∷◌,
}
use cse320_projects.Utf.{reverse_loop, reverse_bytes}

-- A default does not matter within the list.
within : (bytes : List ℕ) (k d e : ℕ) → k < length bytes → get_or bytes k d ≡ get_or bytes k e
unfolding get_or
within [] k d e h = absurd (omega arith)
within (x ∷ bytes) zero d e h = refl
within (x ∷ bytes) (suc k) d e h = within bytes k d e (omega arith)

swapped :
    (bytes : List ℕ) (i j k d : ℕ)
    → i < length bytes
    → j < i
    → get_or (set (set bytes i (get_or bytes j 0)) j (get_or bytes i 0)) k d
      ≡ (if k == j then get_or bytes i d else if k == i then get_or bytes j d else get_or bytes k d)
swapped bytes i j k d h before = ground (
  arith,
  get_or-set (set bytes i (get_or bytes j 0)) j k (get_or bytes i 0) d
      (omega (arith, length-set bytes i (get_or bytes j 0))),
  get_or-set bytes i k (get_or bytes j 0) d h,
  within bytes i 0 d h,
  within bytes j 0 d (omega arith),
)

reverse_loop-get_or :
    (i j : ℕ) (bytes : List ℕ) (k d : ℕ)
    → i < length bytes
    → get_or (reverse_loop i j bytes) k d
      ≡ (if leb j k && leb k i then get_or bytes (i + j - k) d else get_or bytes k d)
unfolding reverse_loop
reverse_loop-get_or zero j bytes k d h = ground arith
reverse_loop-get_or (suc i) j bytes k d h =
    let x = get_or bytes j 0 in
    let y = get_or bytes (suc i) 0 in
    let once = set bytes (suc i) x in
    elim (dec_lt j (suc i)) [
      | yes more ↦ ground (
        arith,
        reverse_loop-get_or i (j + 1) (set once j y) k d
            (omega (arith, length-set bytes (suc i) x, length-set once j y)),
        swapped bytes (suc i) j k d h more,
        swapped bytes (suc i) j (suc i + j - k) d h more,
      )
      | no done ↦ ground (arith, done)
    ]

-- `reverse_bytes` turns the first `count` bytes round and leaves the others, for every count within
-- the buffer.
reverse_bytes-get_or :
    (bytes : List ℕ) (count k d : ℕ)
    → count ≤ length bytes
    → get_or (reverse_bytes bytes count) k d
      ≡ (if ltb k count then get_or bytes (count - 1 - k) d else get_or bytes k d)
unfolding reverse_bytes
reverse_bytes-get_or bytes zero k d h = ground arith
reverse_bytes-get_or bytes (suc count) k d h =
    ground (arith, reverse_loop-get_or count 0 bytes k d (omega arith))
