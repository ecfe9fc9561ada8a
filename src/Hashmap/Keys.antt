-- ===== src/Hashmap/Keys.antt =====
-- Equality of keys, `key_compare` of hw5/src/hashmap.c, and the hash of hw5/src/utils.c.
use cse320_projects.Common.{ℕ, zero, suc, ◌+◌, ◌^◌, ◌<◌, ◌≡◌, refl, ◌≢◌, true, false, arith}
use cse320_projects.Hashmap.{
  Memory, MapKey, Hashmap, memcmp_eq, key_compare, jenkins_step, jenkins_loop,
  jenkins_one_at_a_time_hash, get_index, key_missing,
}

module _ (mem : Memory) where
  memcmp_refl : (p n : ℕ) → memcmp_eq mem p p n ≡ true
  unfolding memcmp_eq
  memcmp_refl p zero = refl
  memcmp_refl p (suc n) = ground (arith, memcmp_refl (p + 1) n)

  memcmp_symm : (p q n : ℕ) → memcmp_eq mem p q n ≡ memcmp_eq mem q p n
  unfolding memcmp_eq
  memcmp_symm p q zero = refl
  memcmp_symm p q (suc n) = ground (arith, memcmp_symm (p + 1) (q + 1) n)

  memcmp_trans :
      (p q r n : ℕ)
      → memcmp_eq mem p q n ≡ true
      → memcmp_eq mem q r n ≡ true
      → memcmp_eq mem p r n ≡ true
  unfolding memcmp_eq
  memcmp_trans p q r zero a b = refl
  memcmp_trans p q r (suc n) a b = ground (arith, memcmp_trans (p + 1) (q + 1) (r + 1) n)

  pub key_compare_refl : (a : MapKey) → a.key_base ≢ 0 → key_compare mem a a ≡ true
  unfolding key_compare
  key_compare_refl a h = ground (arith, memcmp_refl a.key_base a.key_len)

  pub key_compare_symm : (a b : MapKey) → key_compare mem a b ≡ key_compare mem b a
  unfolding key_compare
  key_compare_symm a b = ground (
    arith,
    memcmp_symm a.key_base b.key_base a.key_len,
    memcmp_symm a.key_base b.key_base b.key_len,
  )

  pub key_compare_trans :
      (a b c : MapKey)
      → key_compare mem a b ≡ true
      → key_compare mem b c ≡ true
      → key_compare mem a c ≡ true
  unfolding key_compare
  key_compare_trans a b c p q =
      ground (arith, memcmp_trans a.key_base b.key_base c.key_base a.key_len)

  -- Equal keys compare alike with any third key.
  pub key_compare_congr :
      (a b c : MapKey) → key_compare mem a b ≡ true → key_compare mem a c ≡ key_compare mem b c
  key_compare_congr a b c e =
      ground (arith, key_compare_symm a b, key_compare_trans a b c, key_compare_trans b a c)

  jenkins_loop_congr :
      (p q n hash : ℕ)
      → memcmp_eq mem p q n ≡ true
      → jenkins_loop mem p n hash ≡ jenkins_loop mem q n hash
  unfolding memcmp_eq jenkins_loop
  jenkins_loop_congr p q zero hash e = refl
  jenkins_loop_congr p q (suc n) hash e =
      let head : mem p ≡ mem q = ground arith in
      rw head (jenkins_loop_congr (p + 1) (q + 1) n (jenkins_step hash (mem q)) (ground arith))

  -- Keys that `key_compare` takes for equal have one hash.
  pub jenkins_congr :
      (a b : MapKey)
      → key_compare mem a b ≡ true
      → jenkins_one_at_a_time_hash mem a ≡ jenkins_one_at_a_time_hash mem b
  unfolding key_compare jenkins_one_at_a_time_hash
  jenkins_congr a b e =
      let lengths : a.key_len ≡ b.key_len = ground arith in
      let loops : jenkins_loop mem a.key_base a.key_len 0
          ≡ jenkins_loop mem b.key_base a.key_len 0 =
        jenkins_loop_congr a.key_base b.key_base a.key_len 0 (ground arith) in
      rw (loops, lengths) refl

  -- The hash is a 32-bit number.
  pub jenkins-lt : (a : MapKey) → jenkins_one_at_a_time_hash mem a < 2 ^ 32
  unfolding jenkins_one_at_a_time_hash
  jenkins-lt a = omega arith

-- `get_index` stays inside the table.
pub get_index-lt :
    (self : Hashmap) (key : MapKey) → 0 < self.capacity → get_index self key < self.capacity
unfolding get_index
get_index-lt self key h = grind arith

pub key_present : (key : MapKey) → key_missing key ≡ false → key.key_base ≢ 0
unfolding key_missing
key_present key h = ground arith
