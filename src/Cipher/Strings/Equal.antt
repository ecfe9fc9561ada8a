-- ===== src/Cipher/Strings/Equal.antt =====
-- `string_eql` of hw1/src/hw1.c.
use cse320_projects.Common.{ℕ, ◌+◌, ◌≡◌, ◌↔◌, refl, true, List, [], ◌∷◌, arith, length}
use cse320_projects.Cipher.Strings.{buffer_size, buffer_size_loop, string_eql, string_eql_loop}

pub buffer_size_loop-length : (s : List ℕ) (count : ℕ) → buffer_size_loop s count ≡ count + length s
unfolding buffer_size_loop
buffer_size_loop-length [] count = omega arith
buffer_size_loop-length (c ∷ s) count = omega (arith, buffer_size_loop-length s (count + 1))

pub string_eql_loop_sound :
    (s t : List ℕ) → length s ≡ length t → string_eql_loop s t ≡ true → s ≡ t
unfolding string_eql_loop
string_eql_loop_sound [] [] e h = refl
string_eql_loop_sound [] (b ∷ t) e h = absurd (omega arith)
string_eql_loop_sound (a ∷ s) [] e h = absurd (omega arith)
string_eql_loop_sound (a ∷ s) (b ∷ t) e h =
    let same : a ≡ b = ground arith in
    let rest : s ≡ t = string_eql_loop_sound s t (omega arith) (ground arith) in
    rw (same, rest) refl

pub string_eql_loop_refl : (s : List ℕ) → string_eql_loop s s ≡ true
unfolding string_eql_loop
string_eql_loop_refl [] = refl
string_eql_loop_refl (a ∷ s) = ground (arith, string_eql_loop_refl s)

-- `string_eql` returns 1 on equal strings and on no others.
pub string_eql_iff : (s t : List ℕ) → (string_eql s t ≡ true) ↔ (s ≡ t)
string_eql_iff s t = (
  λ h.
      unfold string_eql buffer_size in
      string_eql_loop_sound s t
        (ground (arith, h, buffer_size_loop-length s 0, buffer_size_loop-length t 0))
        (ground (arith, h)),
  λ e. rw e (unfold string_eql buffer_size in ground (arith, string_eql_loop_refl t)),
)
