-- ===== src/Hashmap/Operations.antt =====
-- The operations of hw5/src/hashmap.c: `put`, `get`, `delete`, `clear_map` and `invalidate_map`.
-- A loop `for (int i = 0; i < capacity; ++i)` recurs on the rounds left, with `i` beside it.
use cse320_projects.Common.{
  ℕ, zero, suc, ◌+◌, ◌-◌, ◌%◌, ◌^◌, Bool, true, false, Option, none, some, List, [], ◌∷◌,
  if◌then◌else◌, get_or, set,
}
use cse320_projects.Hashmap.{
  Memory, enomem, MapKey, MapVal, MapNode, null_val, blank, no_node, Hashmap, Outcome, key_compare,
  get_index, key_missing, val_missing, matches_live, refuse,
}

module _ (mem : Memory) (key : MapKey) where
  -- The first loop of `put`: every live slot of the key takes the value, and `key_exist` says
  -- whether there was one.
  unfoldable pub overwrite_loop :
      MapVal → (index capacity rounds i : ℕ) → List MapNode → Bool → List MapNode × Bool
  overwrite_loop val index capacity zero i nodes key_exist = (nodes, key_exist)
  overwrite_loop val index capacity (suc n) i nodes key_exist =
      let real_i = (index + i) % capacity in
      let node = get_or nodes real_i blank in
      let hit = matches_live mem key node in
      overwrite_loop val index capacity n (i + 1)
        (if hit then set nodes real_i (record node { val = val }) else nodes)
        (if hit then true else key_exist)

  -- The second loop of `put`: the first tombstone takes the entry; after the last slot a forced
  -- `put` destroys and replaces the entry at `index`.
  unfoldable pub place_loop : MapVal → Bool → (index rounds i : ℕ) → Hashmap → Outcome Bool
  place_loop val force index zero i self =
      if force
      then (let old = get_or self.nodes index blank in
          record {
            self = some (record self {
              nodes = set self.nodes index (record { key = key; val = val; tombstone = false });
              destroyed = (old.key, old.val) ∷ self.destroyed;
            });
            errno = none;
            result = true;
          })
      else record { self = some self; errno = some enomem; result = false }
  place_loop val force index (suc n) i self =
      let real_i = (i + index) % self.capacity in
      let rest = place_loop val force index n (i + 1) self in
      if (get_or self.nodes real_i blank).tombstone
      then record {
        self = some (record self {
          nodes = set self.nodes real_i (record { key = key; val = val; tombstone = false });
          size = (self.size + 1) % 2 ^ 32;
        });
        errno = none;
        result = true;
      }
      else rest

  -- What `put` does under `write_lock`.
  unfoldable pub put_locked : MapVal → Bool → Hashmap → Outcome Bool
  unfolding overwrite_loop place_loop
  put_locked val force self =
      let index = get_index self key in
      let (nodes, key_exist) =
        overwrite_loop val index self.capacity self.capacity 0 self.nodes false in
      let placed = place_loop val force index self.capacity 0 (record self { nodes = nodes }) in
      if key_exist
      then record { self = some (record self { nodes = nodes }); errno = none; result = true }
      else placed

  unfoldable pub put : Option Hashmap → MapVal → Bool → Outcome Bool
  unfolding put_locked
  put none val force = refuse none false
  put (some self) val force =
      if key_missing key
      then refuse (some self) false
      else if val_missing val
      then refuse (some self) false
      else if self.invalid
      then refuse (some self) false
      else put_locked val force self

  -- The loop of `get`, with its `break`.
  unfoldable pub get_loop : (index capacity rounds i : ℕ) → List MapNode → MapVal
  get_loop index capacity zero i nodes = null_val
  get_loop index capacity (suc n) i nodes =
      let node = get_or nodes ((i + index) % capacity) blank in
      let rest = get_loop index capacity n (i + 1) nodes in
      if matches_live mem key node then node.val else rest

  unfoldable pub get : Option Hashmap → Outcome MapVal
  unfolding get_loop
  get none = refuse none null_val
  get (some self) =
      if key_missing key
      then refuse (some self) null_val
      else if self.invalid
      then refuse (some self) null_val
      else (let entered = record self { num_readers = self.num_readers + 1 } in
          let val =
            get_loop (get_index entered key) entered.capacity entered.capacity 0 entered.nodes in
          record {
            self = some (record entered { num_readers = entered.num_readers - 1 });
            errno = none;
            result = val;
          })

  -- The loop of `delete`; it looks at keys alone, not at `tombstone`.
  unfoldable pub delete_loop : (index rounds i : ℕ) → Hashmap → Outcome MapNode
  delete_loop index zero i self = record { self = some self; errno = none; result = no_node }
  delete_loop index (suc n) i self =
      let real_i = (i + index) % self.capacity in
      let node = get_or self.nodes real_i blank in
      let rest = delete_loop index n (i + 1) self in
      if key_compare mem key node.key
      then record {
        self = some (record self {
          nodes = set self.nodes real_i (record node { tombstone = true });
          size = (self.size + 2 ^ 32 - 1) % 2 ^ 32;
        });
        errno = none;
        result = record node { tombstone = true };
      }
      else rest

  unfoldable pub delete : Option Hashmap → Outcome MapNode
  unfolding delete_loop
  delete none = refuse none no_node
  delete (some self) =
      if key_missing key
      then refuse (some self) no_node
      else if self.invalid
      then refuse (some self) no_node
      else delete_loop (get_index self key) self.capacity 0 self

-- The loop that `clear_map` and `invalidate_map` share, over the slots in order.
unfoldable pub clear_loop :
    List MapNode → ℕ → List (MapKey × MapVal) → List MapNode × ℕ × List (MapKey × MapVal)
clear_loop [] size destroyed = ([], size, destroyed)
clear_loop (node ∷ nodes) size destroyed =
    let (nodes', size', destroyed') =
      clear_loop nodes (if node.tombstone then size else (size + 2 ^ 32 - 1) % 2 ^ 32)
        (if node.tombstone then destroyed else (node.key, node.val) ∷ destroyed) in
    (record node { tombstone = true } ∷ nodes', size', destroyed')

unfoldable pub clear_locked : Hashmap → Hashmap
unfolding clear_loop
clear_locked self =
    let (nodes, size, destroyed) = clear_loop self.nodes self.size self.destroyed in
    record self { nodes = nodes; size = size; destroyed = destroyed }

unfoldable pub clear_map : Option Hashmap → Outcome Bool
unfolding clear_locked
clear_map none = refuse none false
clear_map (some self) =
    if self.invalid
    then refuse (some self) false
    else record { self = some (clear_locked self); errno = none; result = true }

-- After `Free(nodes)` no slot is left.
unfoldable pub invalidate_map : Option Hashmap → Outcome Bool
unfolding clear_locked
invalidate_map none = refuse none false
invalidate_map (some self) = if self.invalid then refuse (some self) false else record {
  self = some (record (clear_locked self) { nodes = []; invalid = true });
  errno = none;
  result = true;
}
