-- ===== src/Hashmap/Get.antt =====
-- `get` of hw5/src/hashmap.c reads what the map holds.
use cse320_projects.Common.{◌+◌, ◌-◌, ◌<◌, ◌≡◌, refl, inl, inr, false, Option, some, none, arith}
use cse320_projects.Hashmap.{
  Memory, MapKey, MapVal, null_val, Hashmap, get_index, key_missing, matches_live,
}
use cse320_projects.Hashmap.Operations.{get, get_loop}
use cse320_projects.Hashmap.Scan.{first_lem}
use cse320_projects.Hashmap.Keys.{get_index-lt}
use cse320_projects.Hashmap.Loops.{get_loop-first}
use cse320_projects.Hashmap.Slots.{view-none, view-some}
use cse320_projects.Hashmap.Invariant.{IsValid, view, table-Once}

-- The value that stands for a lookup: `MAP_VAL(NULL, 0)` for a missing key.
abbrev pub answer : Option MapVal → MapVal
answer none = null_val
answer (some val) = val

module _ (mem : Memory) {m : Hashmap} (valid : IsValid mem m) (key : MapKey) where
  get_loop-view :
      get_loop mem key (get_index m key) m.capacity m.capacity 0 m.nodes ≡ answer (view mem m key)
  get_loop-view =
      elim (first_lem (matches_live mem key) (get_index m key) m.capacity m.nodes
        (get_index-lt m key valid.positive)) [
          | inl (j, found, spot) ↦
              let inside : j < m.capacity = spot.within in
              rw (get_loop-first mem key (get_index m key) m.capacity m.capacity 0 m.nodes, found)
                (ground (
                  arith,
                  view-some mem key m.nodes j (omega (arith, valid.table.full_length)) spot.holds
                      (λ k lt e.
                        table-Once mem valid.table key k j lt
                          (omega (arith, valid.table.full_length)) e spot.holds),
                ))
          | inr (missing, nowhere) ↦
              rw (get_loop-first mem key (get_index m key) m.capacity m.capacity 0 m.nodes, missing)
                (ground (
                  arith,
                  view-none mem key m.nodes
                      (λ k lt. nowhere k (omega (arith, valid.table.full_length))),
                ))
        ]

  -- On a well-formed map `get` of a complete key answers what the map holds under it, wherever the
  -- probe starts, and leaves the map as it was.
  pub get-view :
      key_missing key ≡ false
      → get mem key (some m)
        ≡ record { self = some m; errno = none; result = answer (view mem m key) }
  unfolding get get_index
  get-view given =
      let readers : m.num_readers + 1 - 1 ≡ m.num_readers = omega arith in
      rw (given, valid.usable, get_loop-view, readers) refl
