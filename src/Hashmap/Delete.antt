-- ===== src/Hashmap/Delete.antt =====
-- `delete` of hw5/src/hashmap.c: what it does to a live key, to a key that no slot holds, and to
-- a key that only a deleted entry holds.
use cse320_projects.Common.{
  ℕ, ◌+◌, ◌-◌, ◌%◌, ◌^◌, ◌<◌, ◌≡◌, refl, ◌∙◌, inl, inr, true, false, some, none, arith,
  if◌then◌else◌, get_or, set, Bool-cases,
}
use mathlib.Core.Path.{subst}
use cse320_projects.Common.Modular.{offset}
use cse320_projects.Hashmap.{
  Memory, MapKey, MapVal, MapNode, blank, no_node, Hashmap, key_compare, get_index, key_missing,
  matches_live,
}
use cse320_projects.Hashmap.Operations.{delete, delete_loop}
use cse320_projects.Hashmap.Scan.{first_lem, IsFirst}
use cse320_projects.Hashmap.Keys.{key_compare_symm, key_compare_congr}
use cse320_projects.Hashmap.Loops.{delete_loop-first}
use cse320_projects.Hashmap.Slots.{
  live, live-set, live-le-length, view-some, view-none, view-set, live_slot,
}
use cse320_projects.Hashmap.Invariant.{IsValid, view, table-Once, bury-IsTable, absent_of_view}
use cse320_projects.Hashmap.Writes.{written, start, home_congr}

-- The live entry of the key is gone and was handed out; every other key reads as before.
pub record Removed (mem : Memory) (m : Hashmap) (key : MapKey) (val : MapVal) (m' : Hashmap)
    (node : MapNode) : Type 0 where
  pub keeps : IsValid mem m'
  pub size : m'.size + 1 ≡ m.size
  pub destroyed : m'.destroyed ≡ m.destroyed
  pub handed_key : key_compare mem key node.key ≡ true
  pub handed_val : node.val ≡ val
  pub reads : (q : MapKey) → view mem m' q ≡ (if key_compare mem q key then none else view mem m q)

module _ (mem : Memory) {m : Hashmap} (valid : IsValid mem m) (key : MapKey)
    (given : key_missing key ≡ false) where
  delete-run : delete mem key (some m) ≡ delete_loop mem key (get_index m key) m.capacity 0 m
  unfolding delete
  delete-run = rw (given, valid.usable)

  -- The first slot that holds the key is its live slot, if there is one.
  first-live :
      (i j : ℕ)
      → IsFirst (λ node. key_compare mem key node.key) (get_index m key) m.capacity m.nodes i
      → j < m.capacity
      → matches_live mem key (get_or m.nodes j blank) ≡ true
      → i ≡ j
  unfolding matches_live
  first-live i j spot inside hit =
      let k = (get_or m.nodes j blank).key in
      let same : key_compare mem key k ≡ true = ground arith in
      let lively : (get_or m.nodes j blank).tombstone ≡ false = ground arith in
      let alike : key_compare mem k (get_or m.nodes i blank).key ≡ true =
        rw (← key_compare_congr mem key k (get_or m.nodes i blank).key same) spot.holds in
      elim (Bool-cases (get_or m.nodes i blank).tombstone) [
        | inl dead ↦
            let later : offset (get_index m key) m.capacity j
                < offset (get_index m key) m.capacity i =
              rw (home_congr valid key key k same)
                (valid.table.stale_last i j spot.within inside dead lively alike) in
            cc (same, spot.earliest j inside later)
        | inr here ↦
            valid.table.unique i j spot.within inside here lively
              (rw (key_compare_symm mem (get_or m.nodes i blank).key k) alike)
      ]

  buried : ℕ → MapNode
  buried j = record (get_or m.nodes j blank) { tombstone = true }

  module _ (j : ℕ) (inside : j < m.capacity)
      (hit : matches_live mem key (get_or m.nodes j blank) ≡ true) where
    counted_one : 0 < m.size
    unfolding matches_live
    counted_one = ground (arith, live-set m.nodes j blank, valid.counted, valid.table.full_length)

    buried-IsValid : IsValid mem (written m j (buried j) (m.size - 1) m.destroyed)
    unfolding get_index matches_live buried
    buried-IsValid = record {
      usable = valid.usable;
      positive = valid.positive;
      small = valid.small;
      counted = ground (
        arith,
        counted_one,
        valid.counted,
        valid.table.full_length,
        live-set m.nodes j (buried j),
      );
      table = bury-IsTable mem valid.table j inside (buried j) refl refl (ground arith);
      hash_congr = valid.hash_congr;
    }

    buried-view :
        (q : MapKey)
        → view mem (written m j (buried j) (m.size - 1) m.destroyed) q
          ≡ (if key_compare mem q key then none else view mem m q)
    unfolding matches_live buried
    buried-view q =
        view-set mem q m.nodes j (buried j) (omega (arith, valid.table.full_length))
          (table-Once mem valid.table q) (λ e i lt ne. ground arith)
        ∙ ground (
          arith,
          key_compare_congr mem key (get_or m.nodes j blank).key q,
          key_compare_symm mem key q,
          key_compare_symm mem (get_or m.nodes j blank).key q,
        )

    hit_key : key_compare mem key (get_or m.nodes j blank).key ≡ true
    unfolding matches_live
    hit_key = ground arith

    size_down : (m.size + 2 ^ 32 - 1) % 2 ^ 32 ≡ m.size - 1
    size_down = omega (
      arith,
      counted_one,
      valid.counted,
      live-le-length m.nodes,
      valid.table.full_length,
      valid.small,
    )

    hit-run : delete mem key (some m) ≡ record {
      self = some (written m j (buried j) (m.size - 1) m.destroyed);
      errno = none;
      result = buried j;
    }
    unfolding buried
    hit-run =
        elim (first_lem (λ node. key_compare mem key node.key) (get_index m key) m.capacity m.nodes
          (start valid key)) [
            | inl (i, found, spot) ↦
                rw
                  (
                    delete-run,
                    delete_loop-first mem key (get_index m key) m.capacity 0 m,
                    found,
                    first-live i j spot inside hit,
                    size_down,
                  )
                  refl
            | inr (missing, nowhere) ↦ cc (hit_key, nowhere j inside)
          ]

    hit-Removed :
        Removed mem m key
          (get_or m.nodes j blank).val
          (written m j (buried j) (m.size - 1) m.destroyed)
          (buried j)
    unfolding buried
    hit-Removed = record {
      keeps = buried-IsValid;
      size = omega (arith, counted_one);
      destroyed = refl;
      handed_key = hit_key;
      handed_val = refl;
      reads = buried-view;
    }

  -- On a well-formed map `delete` of a key that is held hands out its value, keeps the map well
  -- formed with one entry less, and removes no other key.
  pub delete-Removed :
      (val : MapVal)
      → view mem m key ≡ some val
      → (m' : Hashmap) × (node : MapNode) × (delete mem key (some m)
          ≡ record { self = some m'; errno = none; result = node })
        × Removed mem m key val m' node
  delete-Removed val shown = elim (live_slot mem key m.nodes) [
    | inl (j, lt, hit) ↦
        let inside : j < m.capacity = omega (arith, valid.table.full_length) in
        let same : (get_or m.nodes j blank).val ≡ val = cc (
          view-some mem key m.nodes j lt hit
            (λ k l e. table-Once mem valid.table key k j l lt e hit)) in
        (
          written m j (buried j) (m.size - 1) m.destroyed,
          buried j,
          hit-run j inside hit,
          subst
              (λ v.
                Removed mem m key v (written m j (buried j) (m.size - 1) m.destroyed) (buried j))
              same (hit-Removed j inside hit),
        )
    | inr absent ↦ cc (view-none mem key m.nodes absent)
  ]

  -- On a well-formed map `delete` of a key that no slot carries, live or deleted, changes nothing
  -- and answers the empty node.
  delete-absent :
      ((k : ℕ) → k < m.capacity → key_compare mem key (get_or m.nodes k blank).key ≡ false)
      → delete mem key (some m) ≡ record { self = some m; errno = none; result = no_node }
  delete-absent nowhere =
      elim (first_lem (λ node. key_compare mem key node.key) (get_index m key) m.capacity m.nodes
        (start valid key)) [
          | inl (i, found, spot) ↦ cc (spot.holds, nowhere i spot.within)
          | inr (missing, _) ↦
              rw (delete-run, delete_loop-first mem key (get_index m key) m.capacity 0 m, missing)
                refl
        ]

  dead_slot :
      view mem m key ≡ none
      → (i : ℕ) → i < m.capacity
      → key_compare mem key (get_or m.nodes i blank).key ≡ true
      → (get_or m.nodes i blank).tombstone ≡ true
  unfolding matches_live
  dead_slot gone i inside held =
      ground (arith, absent_of_view mem valid key gone i (omega (arith, valid.table.full_length)))

  stale_count :
      (i : ℕ)
      → i < m.capacity
      → (get_or m.nodes i blank).tombstone ≡ true
      → live (set m.nodes i (buried i)) ≡ m.size
  unfolding buried
  stale_count i inside dead =
      ground (arith, live-set m.nodes i (buried i), valid.counted, valid.table.full_length)

  -- `delete` of a key that is not held, but that a deleted entry still carries, answers that entry
  -- and steps the size below the number of live entries, so that a well-formed map is no longer
  -- well formed.
  pub delete-stale :
      view mem m key ≡ none
      → (j : ℕ) → j < m.capacity
      → key_compare mem key (get_or m.nodes j blank).key ≡ true
      → (m' : Hashmap) × (node : MapNode) × (delete mem key (some m)
          ≡ record { self = some m'; errno = none; result = node })
        × (key_compare mem key node.key ≡ true)
        × (m'.size ≡ (m.size + 2 ^ 32 - 1) % 2 ^ 32)
        × (live m'.nodes ≡ m.size)
        × ¬ IsValid mem m'
  delete-stale gone j inside held =
      elim (first_lem (λ node. key_compare mem key node.key) (get_index m key) m.capacity m.nodes
        (start valid key)) [
          | inl (i, found, spot) ↦
              let dead = dead_slot gone i spot.within spot.holds in
              let still : live (set m.nodes i (buried i)) ≡ m.size =
                stale_count i spot.within dead in
              (
                written m i (buried i) ((m.size + 2 ^ 32 - 1) % 2 ^ 32) m.destroyed,
                buried i,
                rw (delete-run, delete_loop-first mem key (get_index m key) m.capacity 0 m, found)
                    (unfold buried in refl),
                unfold buried in spot.holds,
                refl,
                still,
                λ v. absurd (
                    omega (
                      arith,
                      v.counted,
                      still,
                      valid.counted,
                      live-le-length m.nodes,
                      valid.table.full_length,
                      valid.small,
                    )),
              )
          | inr (missing, nowhere) ↦ cc (held, nowhere j inside)
        ]
