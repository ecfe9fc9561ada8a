-- ===== src/Hashmap/Invariant.antt =====
-- Well-formed hash maps, and the one lemma by which every write of an operation keeps them so.
use cse320_projects.Common.{
  ℕ, ◌^◌, ◌≤◌, ◌<◌, ◌≡◌, ◌≢◌, true, false, Option, List, arith, inl, inr, some, none, length,
  get_or, set, get_or-set, length-set,
}
use cse320_projects.Common.Modular.{offset}
use cse320_projects.Hashmap.{
  Memory, MapKey, MapVal, MapNode, blank, Hashmap, key_compare, get_index, matches_live,
}
use cse320_projects.Hashmap.Keys.{key_compare_symm, key_compare_trans}
use cse320_projects.Hashmap.Slots.{live, view_nodes, Once, NotLive, live_slot, view-some}

module _ (mem : Memory) where
  -- The slots of a table of a given capacity whose keys have the home slots `home`.
  pub record IsTable (capacity : ℕ) (home : MapKey → ℕ) (nodes : List MapNode) : Type 0 where
    pub full_length : length nodes ≡ capacity
    -- No key is live in two slots.
    pub unique :
        (i j : ℕ)
        → i < capacity
        → j < capacity
        → (get_or nodes i blank).tombstone ≡ false
        → (get_or nodes j blank).tombstone ≡ false
        → key_compare mem (get_or nodes i blank).key (get_or nodes j blank).key ≡ true
        → i ≡ j
    -- A deleted entry that still holds the key of a live one is met after it on the probe.
    pub stale_last :
        (i j : ℕ)
        → i < capacity
        → j < capacity
        → (get_or nodes i blank).tombstone ≡ true
        → (get_or nodes j blank).tombstone ≡ false
        → key_compare mem (get_or nodes j blank).key (get_or nodes i blank).key ≡ true
        → offset (home (get_or nodes j blank).key) capacity j
          < offset (home (get_or nodes j blank).key) capacity i

  pub record IsValid (m : Hashmap) : Type 0 where
    pub usable : m.invalid ≡ false
    pub positive : 0 < m.capacity
    -- so that no sum of two indices overflows an `int`
    pub small : m.capacity ≤ 2 ^ 30
    pub counted : m.size ≡ live m.nodes
    pub table : IsTable m.capacity (get_index m) m.nodes
    -- the hash function respects `key_compare`
    pub hash_congr :
        (a b : MapKey) → key_compare mem a b ≡ true → m.hash_function a ≡ m.hash_function b

  -- What the map holds under a key.
  abbrev pub view : Hashmap → MapKey → Option MapVal
  view m key = view_nodes mem key m.nodes

  pub table-Once :
      {capacity : ℕ} {home : MapKey → ℕ} {nodes : List MapNode}
      → IsTable capacity home nodes
      → (key : MapKey) → Once mem key nodes
  unfolding matches_live
  table-Once {nodes} t key i j hi hj mi mj = ground (
    arith,
    t.full_length,
    t.unique i j,
    key_compare_symm mem key (get_or nodes i blank).key,
    key_compare_trans mem (get_or nodes i blank).key key (get_or nodes j blank).key,
  )

  module _ {capacity : ℕ} {home : MapKey → ℕ} {nodes : List MapNode}
      (t : IsTable capacity home nodes) (j : ℕ) (inside : j < capacity) where
    -- A write of an entry of `key` to slot `j` keeps the table well formed if no other slot holds
    -- the key live, and no earlier tombstone holds it.
    pub write-IsTable :
        (node : MapNode)
        → node.tombstone ≡ false
        → ((a b : MapKey) → key_compare mem a b ≡ true → home a ≡ home b)
        → ((i : ℕ)
            → i < capacity
            → i ≢ j
            → matches_live mem node.key (get_or nodes i blank) ≡ false)
        → ((i : ℕ)
            → i < capacity
            → i ≢ j
            → (get_or nodes i blank).tombstone ≡ true
            → key_compare mem node.key (get_or nodes i blank).key ≡ true
            → offset (home node.key) capacity j < offset (home node.key) capacity i)
        → IsTable capacity home (set nodes j node)
    unfolding matches_live
    write-IsTable node fresh congr alone after = record {
      full_length = rw length-set t.full_length;
      unique = λ a b ha hb. ground (
        arith,
        t.full_length,
        get_or-set nodes j a node blank,
        get_or-set nodes j b node blank,
        t.unique a b,
        alone a,
        alone b,
        key_compare_symm mem (get_or nodes a blank).key node.key,
      );
      stale_last = λ a b ha hb. ground (
        arith,
        t.full_length,
        get_or-set nodes j a node blank,
        get_or-set nodes j b node blank,
        t.stale_last a b,
        after a,
      );
    }

    -- Turning the entry of slot `j` into a tombstone keeps the table well formed.
    pub bury-IsTable :
        (node : MapNode)
        → node.tombstone ≡ true
        → node.key ≡ (get_or nodes j blank).key
        → (get_or nodes j blank).tombstone ≡ false
        → IsTable capacity home (set nodes j node)
    bury-IsTable node buried same was = record {
      full_length = rw length-set t.full_length;
      unique = λ a b ha hb. ground (
        arith,
        t.full_length,
        get_or-set nodes j a node blank,
        get_or-set nodes j b node blank,
        t.unique a b,
      );
      stale_last = λ a b ha hb. ground (
        arith,
        t.full_length,
        get_or-set nodes j a node blank,
        get_or-set nodes j b node blank,
        t.stale_last a b,
        t.unique b j,
      );
    }

  -- A live slot of the key gives its value, and without one the map does not hold the key.
  pub held-view :
      {m : Hashmap}
      → IsValid m
      → (key : MapKey) (j : ℕ) → j < m.capacity
      → matches_live mem key (get_or m.nodes j blank) ≡ true
      → view m key ≡ some (get_or m.nodes j blank).val
  held-view {m} valid key j inside hit =
      view-some mem key m.nodes j (omega (arith, valid.table.full_length)) hit
        (λ k lt e. table-Once valid.table key k j lt (omega (arith, valid.table.full_length)) e hit)

  pub absent_of_view :
      {m : Hashmap} → IsValid m → (key : MapKey) → view m key ≡ none → NotLive mem key m.nodes
  absent_of_view {m} valid key gone = elim (live_slot mem key m.nodes) [
    | inl (j, lt, hit) ↦ cc (held-view valid key j (omega (arith, valid.table.full_length)) hit)
    | inr absent ↦ absent
  ]
