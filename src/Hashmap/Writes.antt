-- ===== src/Hashmap/Writes.antt =====
-- One write of `put` in hw5/src/hashmap.c: a slot takes a live entry.
use cse320_projects.Common.{
  ℕ, ◌+◌, ◌<◌, ◌≡◌, ◌≢◌, true, false, some, none, List, arith, if◌then◌else◌, get_or, set, ◌∙◌,
}
use cse320_projects.Common.Modular.{offset}
use cse320_projects.Hashmap.{
  Memory, MapKey, MapVal, MapNode, blank, Hashmap, key_compare, get_index, matches_live,
}
use cse320_projects.Hashmap.Keys.{key_compare_symm, key_compare_congr, get_index-lt}
use cse320_projects.Hashmap.Slots.{weight, live-set, view-set}
use cse320_projects.Hashmap.Invariant.{IsTable, IsValid, view, table-Once, write-IsTable}

-- The map in which slot `j` has taken `node`.
abbrev pub written : Hashmap → ℕ → MapNode → ℕ → List (MapKey × MapVal) → Hashmap
written m j node size destroyed = record m {
  nodes = set m.nodes j node;
  size = size;
  destroyed = destroyed;
}

-- No slot but `j` holds the key live.
abbrev pub Alone : Memory → Hashmap → MapKey → ℕ → Type 0
Alone mem m key j =
    (i : ℕ) → i < m.capacity → i ≢ j → matches_live mem key (get_or m.nodes i blank) ≡ false

-- No tombstone before slot `j` holds the key.
abbrev pub NotBefore : Memory → Hashmap → MapKey → ℕ → Type 0
NotBefore mem m key j =
    (i : ℕ)
    → i < m.capacity
    → i ≢ j
    → (get_or m.nodes i blank).tombstone ≡ true
    → key_compare mem key (get_or m.nodes i blank).key ≡ true
    → offset (get_index m key) m.capacity j < offset (get_index m key) m.capacity i

module _ {mem : Memory} {m : Hashmap} (valid : IsValid mem m) (key : MapKey) where
  pub start : get_index m key < m.capacity
  start = get_index-lt m key valid.positive

  pub home_congr : (a b : MapKey) → key_compare mem a b ≡ true → get_index m a ≡ get_index m b
  unfolding get_index
  home_congr a b e = rw (valid.hash_congr a b e)

  -- A live slot `j` that takes a node with the key and the value.
  module _ (j : ℕ) (inside : j < m.capacity) (node : MapNode) (fresh : node.tombstone ≡ false)
      (same : key_compare mem key node.key ≡ true) where
    pub written-IsTable :
        Alone mem m key j
        → NotBefore mem m key j
        → IsTable mem m.capacity (get_index m) (set m.nodes j node)
    unfolding matches_live
    written-IsTable alone after =
        write-IsTable mem valid.table j inside node fresh home_congr
          (λ i lt ne.
            ground
              (arith, alone i, key_compare_congr mem key node.key (get_or m.nodes i blank).key))
          (λ i lt ne dead e. rw (← home_congr key node.key same) (
            after i lt ne dead
              (rw (key_compare_congr mem key node.key (get_or m.nodes i blank).key same) e)))

    pub written-IsValid :
        (size : ℕ) (destroyed : List (MapKey × MapVal))
        → size + weight (get_or m.nodes j blank) ≡ m.size + 1
        → Alone mem m key j
        → NotBefore mem m key j
        → IsValid mem (written m j node size destroyed)
    unfolding get_index
    written-IsValid size destroyed count alone after = record {
      usable = valid.usable;
      positive = valid.positive;
      small = valid.small;
      counted = ground (arith, valid.counted, valid.table.full_length, live-set m.nodes j node);
      table = written-IsTable alone after;
      hash_congr = valid.hash_congr;
    }

    pub written-view :
        (size : ℕ) (destroyed : List (MapKey × MapVal)) (q : MapKey)
        → Alone mem m key j
        → view mem (written m j node size destroyed) q ≡ (
            if key_compare mem q key
            then some node.val
            else if matches_live mem q (get_or m.nodes j blank)
            then none
            else view mem m q)
    unfolding matches_live
    written-view size destroyed q alone =
        view-set mem q m.nodes j node (omega (arith, valid.table.full_length))
          (table-Once mem valid.table q)
          (λ hit i lt ne. ground (
            arith,
            valid.table.full_length,
            alone i,
            key_compare_congr mem q node.key (get_or m.nodes i blank).key,
            key_compare_congr mem key node.key (get_or m.nodes i blank).key,
          ))
        ∙ ground (
          arith,
          key_compare_symm mem q node.key,
          key_compare_symm mem q key,
          key_compare_congr mem key node.key q,
        )
