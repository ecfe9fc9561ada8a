-- ===== src/Hashmap.antt =====
-- The hash map of hw5/src/hashmap.c, with hw5/include/hashmap.h and hw5/src/utils.c.
--
-- Each function is one critical section over `hashmap_t`: the locks are taken and given back
-- inside it. A pointer is its address, 0 for NULL;
-- `Memory` gives the byte at an address, and the bytes behind keys are taken not to change.
-- A `hashmap_t *` is an `Option`: `none` for NULL. The log of the calls of `destroy_function` is
-- the field `destroyed`, the last call first. An `int` index is exact up to a capacity of 2 ^ 30.
pub mod Operations
pub mod Scan
pub mod Keys
pub mod Loops
pub mod Slots
pub mod Invariant
pub mod Writes
pub mod Put
pub mod Evict
pub mod Get
pub mod Delete
pub mod Clear
mod Tests
use cse320_projects.Common.{
  ℕ, zero, suc, ◌+◌, ◌*◌, ◌/◌, ◌%◌, ◌^◌, Bool, true, false, not, ◌&&◌, ◌||◌, Option, none, some,
  List, [], leb, ◌==◌, if◌then◌else◌, replicate,
}
use Prim.Native.Nat.{bit_xor}

abbrev pub Memory : Type 0
Memory = ℕ → ℕ

pub data Errno : Type 0 where
  einval enomem : Errno

pub record MapKey : Type 0 where
  pub key_base : ℕ
  pub key_len : ℕ

pub record MapVal : Type 0 where
  pub val_base : ℕ
  pub val_len : ℕ

pub record MapNode : Type 0 where
  pub key : MapKey
  pub val : MapVal
  pub tombstone : Bool

abbrev pub null_key : MapKey
null_key = record { key_base = 0; key_len = 0 }

abbrev pub null_val : MapVal
null_val = record { val_base = 0; val_len = 0 }

-- What `create_map` writes into every slot.
abbrev pub blank : MapNode
blank = record { key = null_key; val = null_val; tombstone = true }

-- `MAP_NODE(MAP_KEY(NULL, 0), MAP_VAL(NULL, 0), false)`, the answer of a `delete` that finds nothing.
abbrev pub no_node : MapNode
no_node = record { key = null_key; val = null_val; tombstone = false }

pub record Hashmap : Type 0 where
  pub capacity : ℕ
  pub size : ℕ
  pub nodes : List MapNode
  pub hash_function : MapKey → ℕ
  pub num_readers : ℕ
  pub invalid : Bool
  pub destroyed : List (MapKey × MapVal)

-- What a call leaves behind: the map, what it stored in `errno` if anything, and its result.
pub record Outcome (A : Type 0) : Type 0 where
  pub self : Option Hashmap
  pub errno : Option Errno
  pub result : A

-- `memcmp(p, q, n) == 0`
unfoldable pub memcmp_eq : Memory → ℕ → ℕ → ℕ → Bool
memcmp_eq mem p q zero = true
memcmp_eq mem p q (suc n) = (mem p == mem q) && memcmp_eq mem (p + 1) (q + 1) n

unfoldable pub key_compare : Memory → MapKey → MapKey → Bool
unfolding memcmp_eq
key_compare mem key1 key2 =
    if (key1.key_base == 0) || (key2.key_base == 0)
    then false
    else if not (key1.key_len == key2.key_len)
    then false
    else if memcmp_eq mem key1.key_base key2.key_base key1.key_len
    then true
    else false

-- The body of the loop of `jenkins_one_at_a_time_hash`.
unfoldable pub jenkins_step : ℕ → ℕ → ℕ
jenkins_step hash byte =
    let added = (hash + byte) % 2 ^ 32 in
    let shifted = (added + added * 2 ^ 10 % 2 ^ 32) % 2 ^ 32 in bit_xor shifted (shifted / 2 ^ 6)

unfoldable pub jenkins_loop : Memory → ℕ → ℕ → ℕ → ℕ
jenkins_loop mem base zero hash = hash
jenkins_loop mem base (suc n) hash = jenkins_loop mem (base + 1) n (jenkins_step hash (mem base))

unfoldable pub jenkins_one_at_a_time_hash : Memory → MapKey → ℕ
unfolding jenkins_loop jenkins_step
jenkins_one_at_a_time_hash mem map_key =
    let hash = jenkins_loop mem map_key.key_base map_key.key_len 0 in
    let tripled = (hash + hash * 2 ^ 3 % 2 ^ 32) % 2 ^ 32 in
    let mixed = bit_xor tripled (tripled / 2 ^ 11) in (mixed + mixed * 2 ^ 15 % 2 ^ 32) % 2 ^ 32

unfoldable pub get_index : Hashmap → MapKey → ℕ
get_index self key = self.hash_function key % self.capacity

-- `create_map`: a function pointer is an `Option`, and `Calloc` and the mutexes do not fail.
unfoldable pub create_map : ℕ → Option (MapKey → ℕ) → Bool → Outcome (Unit {0})
create_map capacity none destroy = record { self = none; errno = some einval; result = tt }
create_map capacity (some hash) false = record { self = none; errno = some einval; result = tt }
create_map capacity (some hash) true =
    if leb capacity 0 then record { self = none; errno = some einval; result = tt } else record {
      self = some (record {
        capacity = capacity;
        size = 0;
        nodes = replicate capacity blank;
        hash_function = hash;
        num_readers = 0;
        invalid = false;
        destroyed = [];
      });
      errno = none;
      result = tt;
    }

-- The tests on the arguments with which `put` begins.
unfoldable pub key_missing : MapKey → Bool
key_missing key = (key.key_base == 0) || (key.key_len == 0)

unfoldable pub val_missing : MapVal → Bool
val_missing val = (val.val_base == 0) || (val.val_len == 0)

unfoldable pub matches_live : Memory → MapKey → MapNode → Bool
matches_live mem key node = key_compare mem key node.key && not node.tombstone

unfoldable pub refuse : {A : Type 0} → Option Hashmap → A → Outcome A
refuse self result = record { self = self; errno = some einval; result = result }
