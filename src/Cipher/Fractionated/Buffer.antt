-- ===== src/Cipher/Fractionated/Buffer.antt =====
-- The buffer of symbols of hw1/src/hw1.c as a string: what `add_to_buffer` and `shift_buffer_back1`,
-- `3` and `i` do to it.
use cse320_projects.Common.{
  ℕ, zero, suc, ◌+◌, ◌-◌, ◌≤◌, ◌≡◌, refl, sym, ap, ◌∙◌, Bool, true, ◌&&◌, ◌||◌, List, [], ◌∷◌, ◌++◌,
  arith, leb, ltb, ◌==◌, if◌then◌else◌, get_or, set, drop, length, length-append, length-set,
  length-replicate, get_or-set, get_or-replicate, replicate,
}
use cse320_projects.Cipher.MorseTables.{x_mark, dot, dash}
use cse320_projects.Cipher.Strings.{buffer_size}
use cse320_projects.Cipher.Strings.Equal.{buffer_size_loop-length}
use cse320_projects.Cipher.Polybius.{clear_rest}
use cse320_projects.Cipher.Fractionated.{
  string_in, Filling, add_symbols_loop, add_to_buffer, shift_loop, shift_buffer_back,
}

-- Dots, dashes and x.
unfoldable pub is_symbol : ℕ → Bool
is_symbol c = c == dot || c == dash || c == x_mark

unfoldable pub symbols : List ℕ → Bool
symbols [] = true
symbols (c ∷ s) = is_symbol c && symbols s

-- The string `s` in the buffer, with '\0' behind it.
unfoldable pub buffer_of : List ℕ → List ℕ
buffer_of s = s ++ replicate (257 - length s) 0

abbrev pub holding : List ℕ → Filling
holding s = record { buffer = buffer_of s; buffer_index = length s }

padding-get_or : (s : List ℕ) (n k : ℕ) → get_or (s ++ replicate n 0) k 0 ≡ get_or s k 0
unfolding get_or
padding-get_or [] n k = get_or-replicate n k 0
padding-get_or (c ∷ s) n zero = refl
padding-get_or (c ∷ s) n (suc k) = padding-get_or s n k

pub buffer_of-get_or : (s : List ℕ) (k : ℕ) → get_or (buffer_of s) k 0 ≡ get_or s k 0
unfolding buffer_of
buffer_of-get_or s k = padding-get_or s (257 - length s) k

length-buffer_of : (s : List ℕ) → length s ≤ 257 → length (buffer_of s) ≡ 257
unfolding buffer_of
length-buffer_of s h = omega (
  arith,
  length-append s (replicate (257 - length s) 0),
  length-replicate {A = ℕ} (257 - length s) 0,
  h,
)

-- Two arrays of one length that agree at every index are equal.
same_elements :
    (xs ys : List ℕ) → length xs ≡ length ys → ((k : ℕ) → get_or xs k 0 ≡ get_or ys k 0) → xs ≡ ys
unfolding get_or
same_elements [] [] e same = refl
same_elements [] (y ∷ ys) e same = absurd (omega (arith, e))
same_elements (x ∷ xs) [] e same = absurd (omega (arith, e))
same_elements (x ∷ xs) (y ∷ ys) e same =
    cc (same 0, same_elements xs ys (omega (arith, e)) (λ k. same (suc k)))

buffer_of-same :
    (buffer s : List ℕ)
    → length buffer ≡ 257
    → length s ≤ 257
    → ((k : ℕ) → get_or buffer k 0 ≡ get_or s k 0)
    → buffer ≡ buffer_of s
buffer_of-same buffer s full fits same =
    same_elements buffer (buffer_of s) (full ∙ sym (length-buffer_of s fits))
      (λ k. same k ∙ sym (buffer_of-get_or s k))

get_or-beyond : (s : List ℕ) (k : ℕ) → length s ≤ k → get_or s k 0 ≡ 0
unfolding get_or
get_or-beyond [] k h = refl
get_or-beyond (c ∷ s) zero h = absurd (omega (arith, h))
get_or-beyond (c ∷ s) (suc k) h = get_or-beyond s k (omega (arith, h))

get_or-append :
    (s t : List ℕ) (k : ℕ)
    → get_or (s ++ t) k 0 ≡ (if ltb k (length s) then get_or s k 0 else get_or t (k - length s) 0)
unfolding get_or
get_or-append [] t k = ground arith
get_or-append (c ∷ s) t zero = ground arith
get_or-append (c ∷ s) t (suc k) = ground (arith, get_or-append s t k)

get_or-drop : (n : ℕ) (s : List ℕ) (k : ℕ) → get_or (drop n s) k 0 ≡ get_or s (k + n) 0
unfolding get_or drop
get_or-drop zero s k = ap (λ i. get_or s i 0) (omega arith)
get_or-drop (suc n) [] k = refl
get_or-drop (suc n) (c ∷ s) k =
    let e : suc (k + n) ≡ k + suc n = omega arith in
    get_or-drop n s k ∙ ap (λ i. get_or (c ∷ s) i 0) e

pub length-drop : (n : ℕ) (s : List ℕ) → length (drop n s) ≡ length s - n
unfolding drop
length-drop zero s = omega arith
length-drop (suc n) [] = omega arith
length-drop (suc n) (c ∷ s) = omega (arith, length-drop n s)

length-add_symbols_loop :
    (m : List ℕ) (i : ℕ) (b : List ℕ) → length (add_symbols_loop m i b) ≡ length b
unfolding add_symbols_loop
length-add_symbols_loop [] i b = refl
length-add_symbols_loop (c ∷ m) i b =
    length-add_symbols_loop m (i + 1) (set b i c) ∙ length-set b i c

pub get_or-cons :
    (c : ℕ) (m : List ℕ) (k : ℕ) → get_or (c ∷ m) k 0 ≡ (if k == 0 then c else get_or m (k - 1) 0)
unfolding get_or
get_or-cons c m zero = ground arith
get_or-cons c m (suc k) = ground arith

add_symbols_loop-get_or :
    (m : List ℕ) (i : ℕ) (b : List ℕ) (k : ℕ)
    → i + length m ≤ length b
    → get_or (add_symbols_loop m i b) k 0
      ≡ (if leb i k && ltb k (i + length m) then get_or m (k - i) 0 else get_or b k 0)
unfolding add_symbols_loop
add_symbols_loop-get_or [] i b k h = ground arith
add_symbols_loop-get_or (c ∷ m) i b k h =
    let e : k - (i + 1) ≡ k - i - 1 = omega arith in
    ground (
      arith,
      h,
      length-set b i c,
      get_or-cons c m (k - i),
      ap (λ j. get_or m j 0) e,
      add_symbols_loop-get_or m (i + 1) (set b i c) k (omega (arith, h, length-set b i c)),
      get_or-set b i k c 0 (omega (arith, h)),
    )

-- add
pub add_to_buffer-holding :
    (s m : List ℕ) → length s + length m ≤ 257 → add_to_buffer m (holding s) ≡ holding (s ++ m)
unfolding add_to_buffer
add_to_buffer-holding s m h =
    let full = length-buffer_of s (omega (arith, h)) in
    let both = length-append s m in
    let same : add_symbols_loop m (length s) (buffer_of s) ≡ buffer_of (s ++ m) =
      buffer_of-same _ (s ++ m) (length-add_symbols_loop m (length s) (buffer_of s) ∙ full)
        (omega (arith, both, h))
        (λ k. ground (
          arith,
          add_symbols_loop-get_or m (length s) (buffer_of s) k (omega (arith, full, h)),
          buffer_of-get_or s k,
          get_or-append s m k,
          get_or-beyond s k,
          get_or-beyond m (k - length s),
        )) in
    rw (same, both) refl

length-shift_loop : (n i a : ℕ) (b : List ℕ) → length (shift_loop n i a b) ≡ length b
unfolding shift_loop
length-shift_loop zero i a b = refl
length-shift_loop (suc n) i a b =
    length-shift_loop n (i + 1) a (set b i (get_or b (i + a) 0)) ∙ length-set b i _

shift_loop-get_or :
    (n i a : ℕ) (b : List ℕ) (k : ℕ)
    → i + n ≤ length b
    → get_or (shift_loop n i a b) k 0
      ≡ (if leb i k && ltb k (i + n) then get_or b (k + a) 0 else get_or b k 0)
unfolding shift_loop
shift_loop-get_or zero i a b k h = ground arith
shift_loop-get_or (suc n) i a b k h = ground (
  arith,
  h,
  shift_loop-get_or n (i + 1) a (set b i (get_or b (i + a) 0)) k
      (omega (arith, h, length-set b i (get_or b (i + a) 0))),
  get_or-set b i k (get_or b (i + a) 0) 0 (omega (arith, h)),
  get_or-set b i (k + a) (get_or b (i + a) 0) 0 (omega (arith, h)),
)

length-clear_rest : (n k : ℕ) (b : List ℕ) → length (clear_rest n k b) ≡ length b
unfolding clear_rest
length-clear_rest zero k b = refl
length-clear_rest (suc n) k b = length-clear_rest n (k + 1) (set b k 0) ∙ length-set b k 0

clear_rest-get_or :
    (n i : ℕ) (b : List ℕ) (k : ℕ)
    → i + n ≤ length b
    → get_or (clear_rest n i b) k 0 ≡ (if leb i k && ltb k (i + n) then 0 else get_or b k 0)
unfolding clear_rest
clear_rest-get_or zero i b k h = ground arith
clear_rest-get_or (suc n) i b k h = ground (
  arith,
  h,
  clear_rest-get_or n (i + 1) (set b i 0) k (omega (arith, h, length-set b i 0)),
  get_or-set b i k 0 0 (omega (arith, h)),
)

string_in-padded : (s : List ℕ) (n : ℕ) → symbols s ≡ true → string_in (s ++ replicate n 0) ≡ s
unfolding string_in symbols is_symbol replicate
string_in-padded [] zero h = refl
string_in-padded [] (suc n) h = ground arith
string_in-padded (c ∷ s) n h = ground (arith, h, string_in-padded s n)

pub string_in-buffer_of : (s : List ℕ) → symbols s ≡ true → string_in (buffer_of s) ≡ s
string_in-buffer_of s h = unfold buffer_of in string_in-padded s (257 - length s) h

pub buffer_size-length : (s : List ℕ) → buffer_size s ≡ length s
unfolding buffer_size
buffer_size-length s = omega (arith, buffer_size_loop-length s 0)

pub symbols-drop : (n : ℕ) (s : List ℕ) → symbols s ≡ true → symbols (drop n s) ≡ true
unfolding symbols drop
symbols-drop zero s h = h
symbols-drop (suc n) [] h = h
symbols-drop (suc n) (c ∷ s) h = symbols-drop n s (ground (arith, h))

-- shift
pub shift_buffer_back-holding :
    (a : ℕ) (s : List ℕ)
    → a ≤ 257
    → length s ≤ 257
    → symbols s ≡ true
    → shift_buffer_back a (buffer_of s) ≡ holding (drop a s)
unfolding shift_buffer_back
shift_buffer_back-holding a s small fits clean =
    let full = length-buffer_of s fits in
    let moved = shift_loop (257 - a) 0 a (buffer_of s) in
    let full' : length moved ≡ 257 = length-shift_loop (257 - a) 0 a (buffer_of s) ∙ full in
    let same : clear_rest (257 - (257 - a)) (257 - a) moved ≡ buffer_of (drop a s) =
      buffer_of-same _ (drop a s) (length-clear_rest _ (257 - a) moved ∙ full')
        (omega (arith, length-drop a s, fits))
        (λ k. ground (
          arith,
          clear_rest-get_or (257 - (257 - a)) (257 - a) moved k (omega (arith, full')),
          shift_loop-get_or (257 - a) 0 a (buffer_of s) k (omega (arith, full)),
          buffer_of-get_or s (k + a),
          buffer_of-get_or s k,
          get_or-drop a s k,
          get_or-beyond s (k + a),
          get_or-beyond s k,
          fits,
        )) in
    rw (same, string_in-buffer_of (drop a s) (symbols-drop a s clean), buffer_size-length) refl
