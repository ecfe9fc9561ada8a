-- ===== src/Hashmap/Loops.antt =====
-- What each loop of hw5/src/hashmap.c computes, by the first slot that its test finds.
use cse320_projects.Common.{
  ℕ, zero, suc, ◌+◌, ◌-◌, ◌%◌, ◌^◌, ◌≤◌, ◌<◌, ◌≡◌, refl, ◌≢◌, ◌⊎◌, Bool, true, false, none, some,
  List, ◌∷◌, arith, if◌then◌else◌, inl, inr, length, get_or, set, get_or-set,
}
use cse320_projects.Common.Modular.{offset, offset-lt, mod-offset, offset-mod}
use cse320_projects.Hashmap.{
  Memory, enomem, MapKey, MapVal, MapNode, null_val, blank, no_node, Hashmap, Outcome, key_compare,
  matches_live,
}
use cse320_projects.Hashmap.Operations.{overwrite_loop, place_loop, get_loop, delete_loop}
use cse320_projects.Hashmap.Scan.{first}

module _ (mem : Memory) (key : MapKey) where
  pub get_loop-first :
      (index capacity n i : ℕ) (nodes : List MapNode)
      → get_loop mem key index capacity n i nodes
        ≡ elim (first (matches_live mem key) index capacity n i nodes) [
          | none ↦ null_val
          | some j ↦ (get_or nodes j blank).val
        ]
  unfolding get_loop first
  get_loop-first index capacity zero i nodes = refl
  get_loop-first index capacity (suc n) i nodes =
      ground (arith, get_loop-first index capacity n (i + 1) nodes)

  -- The outcome of `delete` when it stops at slot `j`.
  abbrev pub deleted : Hashmap → ℕ → Outcome MapNode
  deleted self j =
      let node = record (get_or self.nodes j blank) { tombstone = true } in
      record {
        self = some (record self {
          nodes = set self.nodes j node;
          size = (self.size + 2 ^ 32 - 1) % 2 ^ 32;
        });
        errno = none;
        result = node;
      }

  pub delete_loop-first :
      (index n i : ℕ) (self : Hashmap)
      → delete_loop mem key index n i self
        ≡ elim (first (λ node. key_compare mem key node.key) index self.capacity n i self.nodes) [
          | none ↦ record { self = some self; errno = none; result = no_node }
          | some j ↦ deleted self j
        ]
  unfolding delete_loop first
  delete_loop-first index zero i self = refl
  delete_loop-first index (suc n) i self = ground (arith, delete_loop-first index n (i + 1) self)

  abbrev pub entry : MapVal → MapNode
  entry val = record { key = key; val = val; tombstone = false }

  -- The outcome of `put` when a tombstone at slot `j` takes the entry.
  abbrev pub placed : Hashmap → MapVal → ℕ → Outcome Bool
  placed self val j = record {
    self =
        some
          (record self { nodes = set self.nodes j (entry val); size = (self.size + 1) % 2 ^ 32 });
    errno = none;
    result = true;
  }

  -- The outcome of a forced `put` into a full table.
  abbrev pub evicted : Hashmap → MapVal → ℕ → Outcome Bool
  evicted self val index =
      let old = get_or self.nodes index blank in
      record {
        self = some (record self {
          nodes = set self.nodes index (entry val);
          destroyed = (old.key, old.val) ∷ self.destroyed;
        });
        errno = none;
        result = true;
      }

  pub place_loop-first :
      (val : MapVal) (force : Bool) (index n i : ℕ) (self : Hashmap)
      → place_loop mem key val force index n i self
        ≡ elim (first (λ node. node.tombstone) index self.capacity n i self.nodes) [
          | none ↦
              if force
              then evicted self val index
              else record { self = some self; errno = some enomem; result = false }
          | some j ↦ placed self val j
        ]
  unfolding place_loop first
  place_loop-first val force index zero i self = refl
  place_loop-first val force index (suc n) i self =
      ground (arith, place_loop-first val force index n (i + 1) self)

module _ (mem : Memory) (key : MapKey) (val : MapVal) (index capacity : ℕ)
    (start : index < capacity) where
  -- Rounds that meet no live slot of the key change nothing.
  pub overwrite_loop_miss :
      (n i : ℕ) (nodes : List MapNode) (seen : Bool)
      → i + n ≡ capacity
      → ((k : ℕ)
          → k < capacity
          → i ≤ offset index capacity k
          → matches_live mem key (get_or nodes k blank) ≡ false)
      → overwrite_loop mem key val index capacity n i nodes seen ≡ (nodes, seen)
  unfolding overwrite_loop
  overwrite_loop_miss zero i nodes seen e h = refl
  overwrite_loop_miss (suc n) i nodes seen e h =
      rw
        (h ((index + i) % capacity) (grind arith)
          (omega (arith, offset-mod index capacity start i (omega arith))))
        (overwrite_loop_miss n (i + 1) nodes seen (omega arith) (λ k lt le. h k lt (omega arith)))

  dec_eq : (a b : ℕ) → (a ≡ b) ⊎ (a ≢ b)
  dec_eq a b = omega arith

  module _ (j : ℕ) (inside : j < capacity) where
    -- With one live slot of the key, that slot takes the value.
    pub overwrite_loop_hit :
        (n i : ℕ) (nodes : List MapNode) (seen : Bool)
        → i + n ≡ capacity
        → length nodes ≡ capacity
        → i ≤ offset index capacity j
        → matches_live mem key (get_or nodes j blank) ≡ true
        → ((k : ℕ) → k < capacity → k ≢ j → matches_live mem key (get_or nodes k blank) ≡ false)
        → overwrite_loop mem key val index capacity n i nodes seen
          ≡ (set nodes j (record (get_or nodes j blank) { val = val }), true)
    unfolding overwrite_loop
    overwrite_loop_hit zero i nodes seen e len le hit apart =
        absurd (omega (arith, offset-lt index capacity start j inside))
    overwrite_loop_hit (suc n) i nodes seen e len le hit apart =
        elim (dec_eq (offset index capacity j) i) [
          | inl here ↦
              let slot : (index + i) % capacity ≡ j =
                rw (← here) (mod-offset index capacity start j inside) in
              rw (slot, hit)
                (overwrite_loop_miss n (i + 1)
                  (set nodes j (record (get_or nodes j blank) { val = val })) true (omega arith)
                  (λ k lt le'. ground (
                    arith,
                    get_or-set nodes j k (record (get_or nodes j blank) { val = val }) blank,
                    apart k,
                  )))
          | inr later ↦
              rw
                (apart ((index + i) % capacity) (grind arith)
                  (λ same. later (rw (← same) (offset-mod index capacity start i (omega arith)))))
                (overwrite_loop_hit n (i + 1) nodes seen (omega arith) len (omega arith) hit apart)
        ]
