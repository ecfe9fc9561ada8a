-- ===== src/Hashmap/Clear.antt =====
-- `create_map`, `clear_map` and `invalidate_map` of hw5/src/hashmap.c.
use mathlib.Core.List.{reverse, reverse_aux, reverse_aux-eq}
use cse320_projects.Common.{
  ℕ, zero, suc, ◌+◌, ◌-◌, ◌%◌, ◌^◌, ◌≤◌, ◌<◌, ◌≡◌, refl, sym, ◌∙◌, inl, inr, Bool, true, false,
  Option, some, none, List, [], ◌∷◌, ◌++◌, arith, if◌then◌else◌, length, get_or, replicate,
  length-replicate, get_or-replicate, ap, Bool-cases,
}
use cse320_projects.Hashmap.{
  Memory, einval, MapKey, MapVal, MapNode, blank, Hashmap, key_compare, get_index, matches_live,
  create_map, refuse, null_val, no_node,
}
use cse320_projects.Hashmap.Operations.{
  clear_loop, clear_locked, clear_map, invalidate_map, put, get, delete,
}
use cse320_projects.Hashmap.Slots.{live, live-le-length, live-replicate, view-none}
use cse320_projects.Hashmap.Invariant.{IsValid, IsTable, view}

-- The live entries, in array order.
unfoldable pub entries : List MapNode → List (MapKey × MapVal)
entries [] = []
entries (node ∷ nodes) =
    if node.tombstone then entries nodes else (node.key, node.val) ∷ entries nodes

clear_size :
    (nodes : List MapNode) (size : ℕ) (destroyed : List (MapKey × MapVal))
    → live nodes ≤ size
    → size < 2 ^ 32
    → (clear_loop nodes size destroyed).1 + live nodes ≡ size
unfolding clear_loop live
clear_size [] size destroyed h k = omega arith
clear_size (node ∷ nodes) size destroyed h k = elim (Bool-cases node.tombstone) [
  | inl dead ↦ rw dead (omega (arith, clear_size nodes size destroyed (ground arith) k))
  | inr lively ↦
      let down : (size + 2 ^ 32 - 1) % 2 ^ 32 ≡ size - 1 = ground arith in
      rw (lively, down)
        (ground (arith, clear_size nodes (size - 1) ((node.key, node.val) ∷ destroyed)))
]

clear_destroyed :
    (nodes : List MapNode) (size : ℕ) (destroyed : List (MapKey × MapVal))
    → (clear_loop nodes size destroyed).2 ≡ reverse_aux (entries nodes) destroyed
unfolding clear_loop entries
clear_destroyed [] size destroyed = refl
clear_destroyed (node ∷ nodes) size destroyed = elim (Bool-cases node.tombstone) [
  | inl dead ↦ rw dead (clear_destroyed nodes size destroyed)
  | inr lively ↦
      rw lively
        (clear_destroyed nodes ((size + 2 ^ 32 - 1) % 2 ^ 32) ((node.key, node.val) ∷ destroyed))
]

length-clear :
    (nodes : List MapNode) (size : ℕ) (destroyed : List (MapKey × MapVal))
    → length (clear_loop nodes size destroyed).0 ≡ length nodes
unfolding clear_loop
length-clear [] size destroyed = refl
length-clear (node ∷ nodes) size destroyed = ap suc (length-clear nodes _ _)

clear_dead :
    (nodes : List MapNode) (size : ℕ) (destroyed : List (MapKey × MapVal)) (k : ℕ)
    → (get_or (clear_loop nodes size destroyed).0 k blank).tombstone ≡ true
unfolding clear_loop get_or
clear_dead [] size destroyed k = refl
clear_dead (node ∷ nodes) size destroyed zero = refl
clear_dead (node ∷ nodes) size destroyed (suc k) = clear_dead nodes _ _ k

clear_live :
    (nodes : List MapNode) (size : ℕ) (destroyed : List (MapKey × MapVal))
    → live (clear_loop nodes size destroyed).0 ≡ 0
unfolding clear_loop live
clear_live [] size destroyed = refl
clear_live (node ∷ nodes) size destroyed = omega (
  arith,
  clear_live nodes (if node.tombstone then size else (size + 2 ^ 32 - 1) % 2 ^ 32)
      (if node.tombstone then destroyed else (node.key, node.val) ∷ destroyed),
)

-- A successful `create_map` gives a well-formed map that holds nothing.
module _ (mem : Memory) (capacity : ℕ) (hash : MapKey → ℕ) where
  abbrev pub fresh : Hashmap
  fresh = record {
    capacity = capacity;
    size = 0;
    nodes = replicate capacity blank;
    hash_function = hash;
    num_readers = 0;
    invalid = false;
    destroyed = [];
  }

  dead_everywhere : (k : ℕ) → (get_or (replicate capacity blank) k blank).tombstone ≡ true
  dead_everywhere k = rw get_or-replicate

  fresh-IsTable : (home : MapKey → ℕ) → IsTable mem capacity home (replicate capacity blank)
  fresh-IsTable home = record {
    full_length = length-replicate capacity blank;
    unique = λ i j hi hj ti tj e. cc (dead_everywhere i, ti);
    stale_last = λ i j hi hj ti tj e. cc (dead_everywhere j, tj);
  }

  -- `create_map` with both functions and a capacity from 1 to 2 ^ 30 gives a well-formed map that
  -- holds nothing, if the hash respects `key_compare`.
  pub create_map-IsValid :
      0 < capacity
      → capacity ≤ 2 ^ 30
      → ((a b : MapKey) → key_compare mem a b ≡ true → hash a ≡ hash b)
      → (create_map capacity (some hash) true
          ≡ record { self = some fresh; errno = none; result = tt })
        × IsValid mem fresh
        × ((q : MapKey) → view mem fresh q ≡ none)
  unfolding create_map matches_live
  create_map-IsValid pos small congr = (
    ground arith,
    record {
      usable = refl;
      positive = pos;
      small = small;
      counted = sym (live-replicate capacity);
      table = fresh-IsTable (get_index fresh);
      hash_congr = congr;
    },
    λ q. view-none mem q (replicate capacity blank) (λ k lt. ground (arith, dead_everywhere k)),
  )

module _ (mem : Memory) {m : Hashmap} (valid : IsValid mem m) where
  emptied : List MapNode
  emptied = (clear_loop m.nodes m.size m.destroyed).0

  emptied-IsTable : IsTable mem m.capacity (get_index m) (clear_locked m).nodes
  unfolding clear_locked
  emptied-IsTable = record {
    full_length = length-clear m.nodes m.size m.destroyed ∙ valid.table.full_length;
    unique = λ i j hi hj ti tj e. cc (clear_dead m.nodes m.size m.destroyed i, ti);
    stale_last = λ i j hi hj ti tj e. cc (clear_dead m.nodes m.size m.destroyed j, tj);
  }

  cleared_size : (clear_locked m).size ≡ 0
  unfolding clear_locked
  cleared_size = omega (
    arith,
    clear_size m.nodes m.size m.destroyed (omega (arith, valid.counted)) (
        omega (arith, valid.counted, live-le-length m.nodes, valid.table.full_length, valid.small)),
    valid.counted,
  )

  cleared_destroyed : (clear_locked m).destroyed ≡ reverse (entries m.nodes) ++ m.destroyed
  unfolding clear_locked
  cleared_destroyed =
      clear_destroyed m.nodes m.size m.destroyed ∙ reverse_aux-eq (entries m.nodes) m.destroyed

  cleared-IsValid : IsValid mem (clear_locked m)
  unfolding clear_locked get_index
  cleared-IsValid = record {
    usable = valid.usable;
    positive = valid.positive;
    small = valid.small;
    counted = cleared_size ∙ sym (clear_live m.nodes m.size m.destroyed);
    table = emptied-IsTable;
    hash_congr = valid.hash_congr;
  }

  cleared_dead : (k : ℕ) → (get_or (clear_locked m).nodes k blank).tombstone ≡ true
  unfolding clear_locked
  cleared_dead k = clear_dead m.nodes m.size m.destroyed k

  -- `clear_map` on a well-formed map returns true, leaves a well-formed map of size 0 that holds
  -- nothing, and hands each live entry to the destructor once, in array order.
  pub clear_map-empties :
      (m' : Hashmap) × (clear_map (some m) ≡ record { self = some m'; errno = none; result = true })
      × IsValid mem m'
      × (m'.size ≡ 0)
      × ((q : MapKey) → view mem m' q ≡ none)
      × (m'.destroyed ≡ reverse (entries m.nodes) ++ m.destroyed)
  unfolding clear_map matches_live
  clear_map-empties = (
    clear_locked m,
    rw valid.usable,
    cleared-IsValid,
    cleared_size,
    λ q. view-none mem q (clear_locked m).nodes (λ k lt. ground (arith, cleared_dead k)),
    cleared_destroyed,
  )

-- A map that was invalidated, or a NULL one, is refused by every operation with `EINVAL`.
pub record Closed (mem : Memory) (self : Option Hashmap) : Type 0 where
  pub puts :
      (key : MapKey) (val : MapVal) (force : Bool)
      → put mem key self val force ≡ record { self = self; errno = some einval; result = false }
  pub gets :
      (key : MapKey)
      → get mem key self ≡ record { self = self; errno = some einval; result = null_val }
  pub deletes :
      (key : MapKey)
      → delete mem key self ≡ record { self = self; errno = some einval; result = no_node }
  pub clears : clear_map self ≡ record { self = self; errno = some einval; result = false }
  pub invalidates :
      invalidate_map self ≡ record { self = self; errno = some einval; result = false }

pub null-Closed : (mem : Memory) → Closed mem none
unfolding put get delete clear_map invalidate_map refuse
null-Closed mem = record {
  puts = λ key val force. refl;
  gets = λ key. refl;
  deletes = λ key. refl;
  clears = refl;
  invalidates = refl;
}

invalid-Closed : (mem : Memory) (m : Hashmap) → m.invalid ≡ true → Closed mem (some m)
unfolding put get delete clear_map invalidate_map refuse
invalid-Closed mem m shut = record {
  puts = λ key val force. ground arith;
  gets = λ key. ground arith;
  deletes = λ key. ground arith;
  clears = ground arith;
  invalidates = ground arith;
}

-- `invalidate_map` on a well-formed map returns true, hands each live entry to the destructor once,
-- in array order, and every later operation is refused with EINVAL.
pub invalidate_map-Closed :
    (mem : Memory) (m : Hashmap)
    → IsValid mem m
    → (m' : Hashmap) × (invalidate_map (some m)
        ≡ record { self = some m'; errno = none; result = true })
      × (m'.destroyed ≡ reverse (entries m.nodes) ++ m.destroyed)
      × Closed mem (some m')
unfolding invalidate_map
invalidate_map-Closed mem m valid =
    let m' : Hashmap = record (clear_locked m) { nodes = []; invalid = true } in
    (m', rw valid.usable, cleared_destroyed mem valid, invalid-Closed mem m' refl)
