-- ===== src/Hashmap/Put.antt =====
-- `put` of hw5/src/hashmap.c on a well-formed map that holds the key or has room.
use cse320_projects.Common.{
  ℕ, ◌+◌, ◌-◌, ◌%◌, ◌^◌, ◌<◌, ◌≡◌, refl, ◌≢◌, ◌⊎◌, inl, inr, Bool, true, false, Option, some, none,
  arith, if◌then◌else◌, get_or, ◌∙◌,
}
use cse320_projects.Common.Modular.{offset_injective}
use cse320_projects.Hashmap.{
  Memory, MapKey, MapVal, MapNode, blank, Hashmap, key_compare, get_index, key_missing, val_missing,
  matches_live,
}
use cse320_projects.Hashmap.Operations.{put, put_locked, place_loop}
use cse320_projects.Hashmap.Scan.{first_lem}
use cse320_projects.Hashmap.Keys.{
  key_compare_refl, key_compare_symm, key_compare_trans, key_compare_congr, key_present,
}
use cse320_projects.Hashmap.Loops.{entry, place_loop-first, overwrite_loop_miss, overwrite_loop_hit}
use cse320_projects.Hashmap.Slots.{live-eq-length, view-none, live_slot, NotLive}
use cse320_projects.Hashmap.Invariant.{IsValid, view, table-Once, held-view}
use cse320_projects.Hashmap.Writes.{
  written, Alone, NotBefore, start, home_congr, written-IsValid, written-view,
}

abbrev pub present : Option MapVal → ℕ
present none = 0
present (some _) = 1

-- The entry is stored and every other key reads as before.
pub record Stored (mem : Memory) (m : Hashmap) (key : MapKey) (val : MapVal) (m' : Hashmap)
    : Type 0 where
  pub keeps : IsValid mem m'
  pub size : m'.size ≡ m.size + 1 - present (view mem m key)
  pub capacity : m'.capacity ≡ m.capacity
  pub destroyed : m'.destroyed ≡ m.destroyed
  pub reads :
      (q : MapKey) → view mem m' q ≡ (if key_compare mem q key then some val else view mem m q)

module _ (mem : Memory) {m : Hashmap} (valid : IsValid mem m) (key : MapKey)
    (given : key_missing key ≡ false) (val : MapVal) where
  pub put_locked-miss :
      (force : Bool)
      → NotLive mem key m.nodes
      → put_locked mem key val force m
        ≡ place_loop mem key val force (get_index m key) m.capacity 0 m
  unfolding put_locked
  put_locked-miss force absent = rw (
      overwrite_loop_miss mem key val (get_index m key) m.capacity (start valid key) m.capacity 0
        m.nodes false (omega arith) (λ k lt le. absent k (omega (arith, valid.table.full_length))))

  module _ (complete : val_missing val ≡ false) where
    pub put-locked :
        (force : Bool) → put mem key (some m) val force ≡ put_locked mem key val force m
    unfolding put
    put-locked force = rw (given, complete, valid.usable)

    abbrev Stores : Bool → Type 0
    Stores force =
        (m' : Hashmap) × (put mem key (some m) val force
          ≡ record { self = some m'; errno = none; result = true })
        × Stored mem m key val m'

    module _ (j : ℕ) (inside : j < m.capacity)
        (hit : matches_live mem key (get_or m.nodes j blank) ≡ true) where
      hit_live : (get_or m.nodes j blank).tombstone ≡ false
      unfolding matches_live
      hit_live = ground arith

      hit_key : key_compare mem key (get_or m.nodes j blank).key ≡ true
      unfolding matches_live
      hit_key = ground arith

      hit-Alone : Alone mem m key j
      hit-Alone i lt ne =
          ground (arith, valid.table.full_length, table-Once mem valid.table key i j)

      hit-NotBefore : NotBefore mem m key j
      hit-NotBefore i lt ne dead e =
          let k = (get_or m.nodes j blank).key in
          rw (home_congr valid key key k hit_key) (
            valid.table.stale_last i j lt inside dead hit_live
              (rw (← key_compare_congr mem key k (get_or m.nodes i blank).key hit_key) e))

      hit_other :
          (q : MapKey)
          → key_compare mem q key ≡ false
          → matches_live mem q (get_or m.nodes j blank) ≡ false
      unfolding matches_live
      hit_other q apart =
          let k = (get_or m.nodes j blank).key in
          ground (arith, hit_key, key_compare_trans mem q k key, key_compare_symm mem k key)

      hit-run :
          (force : Bool)
          → put_locked mem key val force m ≡ record {
            self =
                some
                  (written m j (record (get_or m.nodes j blank) { val = val }) m.size m.destroyed);
            errno = none;
            result = true;
          }
      unfolding put_locked
      hit-run force = rw (
          overwrite_loop_hit mem key val (get_index m key) m.capacity (start valid key) j inside
            m.capacity 0 m.nodes false (omega arith) valid.table.full_length (omega arith) hit
            hit-Alone)

      put_hit : (force : Bool) → Stores force
      put_hit force =
          let node : MapNode = record (get_or m.nodes j blank) { val = val } in
          (
            written m j node m.size m.destroyed,
            put-locked force ∙ hit-run force,
            record {
              keeps =
                  written-IsValid valid key j inside node hit_live hit_key m.size m.destroyed
                    (rw hit_live refl) hit-Alone hit-NotBefore;
              size = rw (held-view mem valid key j inside hit) (omega arith);
              capacity = refl;
              destroyed = refl;
              reads = λ q.
                  written-view valid key j inside node hit_live hit_key m.size m.destroyed q
                    hit-Alone
                  ∙ ground (arith, hit_other q);
            },
          )

    dead_matches :
        (q : MapKey) (j : ℕ)
        → (get_or m.nodes j blank).tombstone ≡ true
        → matches_live mem q (get_or m.nodes j blank) ≡ false
    unfolding matches_live
    dead_matches q j dead = ground arith

    put_empty : (force : Bool) → NotLive mem key m.nodes → m.size < m.capacity → Stores force
    put_empty force absent room =
        elim (first_lem (λ node. node.tombstone) (get_index m key) m.capacity m.nodes
          (start valid key)) [
            | inl (j, found, spot) ↦
                let alone : Alone mem m key j =
                  λ i lt ne. absent i (omega (arith, valid.table.full_length)) in
                let after : NotBefore mem m key j = λ i lt ne dead e. ground (
                  arith,
                  spot.earliest i,
                  offset_injective (get_index m key) m.capacity (start valid key) i j,
                ) in
                (
                  written m j (entry mem key val) (m.size + 1) m.destroyed,
                  put-locked force
                      ∙ put_locked-miss force absent
                      ∙ (let fits : (m.size + 1) % 2 ^ 32 ≡ m.size + 1 =
                            omega (arith, valid.small) in
                          rw
                            (
                              place_loop-first mem key val force (get_index m key) m.capacity 0 m,
                              found,
                              fits,
                            )
                            refl),
                  record {
                    keeps =
                        written-IsValid valid key j spot.within (entry mem key val) refl
                          (key_compare_refl mem key (key_present key given)) (m.size + 1)
                          m.destroyed (rw spot.holds (omega arith)) alone after;
                    size = rw (view-none mem key m.nodes absent) (omega arith);
                    capacity = refl;
                    destroyed = refl;
                    reads = λ q.
                        written-view valid key j spot.within (entry mem key val) refl
                          (key_compare_refl mem key (key_present key given)) (m.size + 1)
                          m.destroyed q alone
                        ∙ ground (arith, dead_matches q j spot.holds);
                  },
                )
            | inr (missing, full) ↦ absurd (
                omega (
                  arith,
                  valid.counted,
                  valid.table.full_length,
                  live-eq-length m.nodes (λ k lt. full k (omega (arith, valid.table.full_length))),
                ))
          ]

    -- On a well-formed map, a complete key and value, and a key that is present or room in the
    -- table, `put` returns true, keeps the map well formed, changes what is held under that key and
    -- no other, counts a new key once, and destroys nothing.
    pub put-Stored : (force : Bool) → (view mem m key ≢ none) ⊎ (m.size < m.capacity) → Stores force
    put-Stored force (inl found) = elim (live_slot mem key m.nodes) [
      | inl (j, lt, hit) ↦ put_hit j (omega (arith, valid.table.full_length)) hit force
      | inr absent ↦ absurd (found (view-none mem key m.nodes absent))
    ]
    put-Stored force (inr room) = elim (live_slot mem key m.nodes) [
      | inl (j, lt, hit) ↦ put_hit j (omega (arith, valid.table.full_length)) hit force
      | inr absent ↦ put_empty force absent room
    ]
