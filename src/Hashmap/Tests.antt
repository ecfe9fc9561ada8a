-- ===== src/Hashmap/Tests.antt =====
-- Small runs of hw5/src/hashmap.c, and its theorems at concrete tables.
use cse320_projects.Common.{
  ℕ, zero, suc, ◌+◌, ◌-◌, ◌%◌, ◌^◌, ◌<◌, ◌≡◌, refl, inr, Bool, true, false, Option, some, none, [],
  ◌∷◌, ◌++◌, arith, get_or, set, replicate,
}
use mathlib.Core.List.{reverse}
use cse320_projects.Hashmap.{
  Memory, MapKey, MapVal, MapNode, blank, Hashmap, enomem, key_compare, key_missing, val_missing,
  jenkins_one_at_a_time_hash, get_index, create_map, matches_live,
}
use cse320_projects.Hashmap.Operations.{put, get, delete, clear_map, invalidate_map}
use cse320_projects.Hashmap.Keys.{jenkins_congr}
use cse320_projects.Hashmap.Slots.{live, view_nodes}
use cse320_projects.Hashmap.Invariant.{IsTable, IsValid, view}
use cse320_projects.Hashmap.Put.{put-Stored, Stored}
use cse320_projects.Hashmap.Evict.{put-full, put-Evicted, Evicted}
use cse320_projects.Hashmap.Get.{answer, get-view}
use cse320_projects.Hashmap.Delete.{delete-Removed, delete-stale, Removed}
use cse320_projects.Hashmap.Clear.{clear_map-empties, invalidate_map-Closed, Closed, entries}

-- Every byte is its own address.
abbrev mem : Memory
mem = λ p. p

abbrev hash : MapKey → ℕ
hash = jenkins_one_at_a_time_hash mem

abbrev key_at : ℕ → MapKey
key_at p = record { key_base = p; key_len = 1 }

abbrev val_at : ℕ → MapVal
val_at p = record { val_base = p; val_len = 1 }

-- A table of one slot, which holds the key at address 1, live or deleted.
abbrev table_of : Bool → ℕ → Hashmap
table_of dead size = record {
  capacity = 1;
  size = size;
  nodes = record { key = key_at 1; val = val_at 10; tombstone = dead } ∷ [];
  hash_function = hash;
  num_readers = 0;
  invalid = false;
  destroyed = [];
}

abbrev full_table : Hashmap
full_table = table_of false 1

abbrev stale_table : Hashmap
stale_table = table_of true 0

below_one : (i j : ℕ) → i < 1 → j < 1 → i ≡ j
below_one i j hi hj = omega arith

table_of-IsTable :
    (dead : Bool) (size : ℕ)
    → IsTable mem 1 (get_index (table_of dead size)) (table_of dead size).nodes
table_of-IsTable d size = record {
  full_length = refl;
  unique = λ i j hi hj a b e. below_one i j hi hj;
  stale_last = λ i j hi hj dead lively e. cc (below_one i j hi hj);
}

full-IsValid : IsValid mem full_table
unfolding live
full-IsValid = record {
  usable = refl;
  positive = omega arith;
  small = omega arith;
  counted = refl;
  table = table_of-IsTable false 1;
  hash_congr = jenkins_congr mem;
}

stale-IsValid : IsValid mem stale_table
unfolding live
stale-IsValid = record {
  usable = refl;
  positive = omega arith;
  small = omega arith;
  counted = refl;
  table = table_of-IsTable true 0;
  hash_congr = jenkins_congr mem;
}

-- The hash of the byte 1.
jenkins_runs : hash (key_at 1) ≡ 307143837
unfolding jenkins_one_at_a_time_hash
jenkins_runs = refl

-- Two keys into a table of two slots, then a third that does not fit.
abbrev two_slots : Option Hashmap
two_slots =
    (put mem (key_at 2)
      (put mem (key_at 1) (create_map 2 (some hash) true).self (val_at 10) false).self (val_at 20)
      false).self

session_first : (get mem (key_at 1) two_slots).result ≡ val_at 10
unfolding put get create_map get_index get_or set replicate matches_live key_compare key_missing
    val_missing jenkins_one_at_a_time_hash
session_first = refl

session_third : (put mem (key_at 3) two_slots (val_at 30) false).errno ≡ some enomem
unfolding put get create_map get_index get_or set replicate matches_live key_compare key_missing
    val_missing jenkins_one_at_a_time_hash
session_third = refl

given : (p : ℕ) → key_missing (key_at (suc p)) ≡ false
unfolding key_missing
given p = ground arith

complete : (p : ℕ) → val_missing (val_at (suc p)) ≡ false
unfolding val_missing
complete p = ground arith

absent_three : view mem full_table (key_at 3) ≡ none
unfolding view_nodes matches_live key_compare
absent_three = refl

present_one : view mem full_table (key_at 1) ≡ some (val_at 10)
unfolding view_nodes matches_live key_compare
present_one = refl

put-Stored_example :
    (m' : Hashmap) × (put mem (key_at 3) (some stale_table) (val_at 30) false
      ≡ record { self = some m'; errno = none; result = true })
    × Stored mem stale_table (key_at 3) (val_at 30) m'
put-Stored_example =
    put-Stored mem stale-IsValid (key_at 3) (given 2) (val_at 30) (complete 29) false
      (inr (omega arith))

put-full_example :
    put mem (key_at 3) (some full_table) (val_at 30) false
    ≡ record { self = some full_table; errno = some enomem; result = false }
put-full_example =
    put-full mem full-IsValid (key_at 3) (given 2) (val_at 30) (complete 29) absent_three refl

put-Evicted_example :
    (m' : Hashmap) × (put mem (key_at 3) (some full_table) (val_at 30) true
      ≡ record { self = some m'; errno = none; result = true })
    × Evicted mem full_table (key_at 3) (val_at 30) m'
put-Evicted_example =
    put-Evicted mem full-IsValid (key_at 3) (given 2) (val_at 30) (complete 29) absent_three refl

get-view_example : get mem (key_at 1) (some full_table) ≡ record {
  self = some full_table;
  errno = none;
  result = answer (view mem full_table (key_at 1));
}
get-view_example = get-view mem full-IsValid (key_at 1) (given 0)

delete-Removed_example :
    (m' : Hashmap) × (node : MapNode) × (delete mem (key_at 1) (some full_table)
      ≡ record { self = some m'; errno = none; result = node })
    × Removed mem full_table (key_at 1) (val_at 10) m' node
delete-Removed_example =
    delete-Removed mem full-IsValid (key_at 1) (given 0) (val_at 10) present_one

no_slot_holds_three :
    (k : ℕ) → k < 1 → key_compare mem (key_at 3) (get_or full_table.nodes k blank).key ≡ false
unfolding key_compare get_or
no_slot_holds_three zero h = refl
no_slot_holds_three (suc k) h = absurd (omega arith)

gone_one : view mem stale_table (key_at 1) ≡ none
unfolding view_nodes matches_live key_compare
gone_one = refl

held_one : key_compare mem (key_at 1) (get_or stale_table.nodes 0 blank).key ≡ true
unfolding key_compare get_or
held_one = refl

delete-stale_example :
    (m' : Hashmap) × (node : MapNode) × (delete mem (key_at 1) (some stale_table)
      ≡ record { self = some m'; errno = none; result = node })
    × (key_compare mem (key_at 1) node.key ≡ true)
    × (m'.size ≡ (stale_table.size + 2 ^ 32 - 1) % 2 ^ 32)
    × (live m'.nodes ≡ stale_table.size)
    × ¬ IsValid mem m'
delete-stale_example =
    delete-stale mem stale-IsValid (key_at 1) (given 0) gone_one 0 (omega arith) held_one

clear_map-empties_example :
    (m' : Hashmap) × (clear_map (some full_table)
      ≡ record { self = some m'; errno = none; result = true })
    × IsValid mem m'
    × (m'.size ≡ 0)
    × ((q : MapKey) → view mem m' q ≡ none)
    × (m'.destroyed ≡ reverse (entries full_table.nodes) ++ full_table.destroyed)
clear_map-empties_example = clear_map-empties mem full-IsValid

invalidate_map-Closed_example :
    (m' : Hashmap) × (invalidate_map (some full_table)
      ≡ record { self = some m'; errno = none; result = true })
    × (m'.destroyed ≡ reverse (entries full_table.nodes) ++ full_table.destroyed)
    × Closed mem (some m')
invalidate_map-Closed_example = invalidate_map-Closed mem full_table full-IsValid

-- Two addresses that hold the same byte.
abbrev twin_bytes : Memory
twin_bytes = λ p. p % 4

twins : key_compare twin_bytes (key_at 1) (key_at 5) ≡ true
unfolding key_compare
twins = refl
