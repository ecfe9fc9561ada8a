-- ===== src/Hashmap/Evict.antt =====
-- `put` of hw5/src/hashmap.c on a full map: it fails, or evicts an entry.
use cse320_projects.Common.{
  ℕ, ◌<◌, ◌≡◌, refl, inl, inr, Bool, true, false, some, none, ◌∷◌, arith, if◌then◌else◌, get_or,
  ◌∙◌,
}
use cse320_projects.Hashmap.{
  Memory, enomem, MapKey, MapVal, blank, Hashmap, key_compare, get_index, key_missing, val_missing,
  matches_live,
}
use cse320_projects.Hashmap.Operations.{put}
use cse320_projects.Hashmap.Scan.{first_lem}
use cse320_projects.Hashmap.Keys.{key_compare_refl, key_present}
use cse320_projects.Hashmap.Loops.{entry, evicted, place_loop-first}
use cse320_projects.Hashmap.Slots.{live-lt-length}
use cse320_projects.Hashmap.Invariant.{IsValid, view, absent_of_view}
use cse320_projects.Hashmap.Writes.{written, Alone, start, written-IsValid, written-view}
use cse320_projects.Hashmap.Put.{put-locked, put_locked-miss}

-- The entry in the key's home slot is destroyed and replaced; every other key reads as before.
pub record Evicted (mem : Memory) (m : Hashmap) (key : MapKey) (val : MapVal) (m' : Hashmap)
    : Type 0 where
  pub keeps : IsValid mem m'
  pub size : m'.size ≡ m.size
  pub victim_live : (get_or m.nodes (get_index m key) blank).tombstone ≡ false
  pub destroyed :
      let victim = get_or m.nodes (get_index m key) blank in
      m'.destroyed ≡ (victim.key, victim.val) ∷ m.destroyed
  pub reads :
      (q : MapKey)
      → view mem m' q ≡ (
          if key_compare mem q key
          then some val
          else if key_compare mem q (get_or m.nodes (get_index m key) blank).key
          then none
          else view mem m q)

module _ (mem : Memory) {m : Hashmap} (valid : IsValid mem m) (key : MapKey)
    (given : key_missing key ≡ false) (val : MapVal) (complete : val_missing val ≡ false) where
  full_live :
      m.size ≡ m.capacity → (k : ℕ) → k < m.capacity → (get_or m.nodes k blank).tombstone ≡ false
  full_live full k lt =
      ground (arith, valid.counted, valid.table.full_length, live-lt-length m.nodes k)

  full-run :
      (force : Bool)
      → view mem m key ≡ none
      → m.size ≡ m.capacity
      → put mem key (some m) val force ≡ (
          if force
          then evicted mem key m val (get_index m key)
          else record { self = some m; errno = some enomem; result = false })
  full-run force gone full =
      elim (first_lem (λ node. node.tombstone) (get_index m key) m.capacity m.nodes
        (start valid key)) [
          | inl (j, found, spot) ↦ cc (spot.holds, full_live full j spot.within)
          | inr (missing, _) ↦
              put-locked mem valid key given val complete force
              ∙ put_locked-miss mem valid key given val force (absent_of_view mem valid key gone)
              ∙ rw (place_loop-first mem key val force (get_index m key) m.capacity 0 m, missing)
                  refl
        ]

  -- An unforced `put` of a new key into a full well-formed map fails with ENOMEM and changes
  -- nothing.
  pub put-full :
      view mem m key ≡ none
      → m.size ≡ m.capacity
      → put mem key (some m) val false
        ≡ record { self = some m; errno = some enomem; result = false }
  put-full gone full = full-run false gone full

  -- A forced `put` of a new key into a full well-formed map returns true, destroys the live entry
  -- in the home slot of the key, stores the new one there, and changes what is held under no other
  -- key.
  pub put-Evicted :
      view mem m key ≡ none
      → m.size ≡ m.capacity
      → (m' : Hashmap) × (put mem key (some m) val true
          ≡ record { self = some m'; errno = none; result = true })
        × Evicted mem m key val m'
  unfolding matches_live
  put-Evicted gone full =
      let index = get_index m key in
      let old = get_or m.nodes index blank in
      let same = key_compare_refl mem key (key_present key given) in
      let alone : Alone mem m key index =
        λ i lt ne. absent_of_view mem valid key gone i (omega (arith, valid.table.full_length)) in
      let lively : old.tombstone ≡ false = full_live full index (start valid key) in
      (
        written m index (entry mem key val) m.size ((old.key, old.val) ∷ m.destroyed),
        full-run true gone full,
        record {
          keeps =
              written-IsValid valid key index (start valid key) (entry mem key val) refl same m.size
                ((old.key, old.val) ∷ m.destroyed) (rw lively refl) alone
                (λ i lt ne dead e. cc (full_live full i lt));
          size = refl;
          victim_live = lively;
          destroyed = refl;
          reads = λ q.
              written-view valid key index (start valid key) (entry mem key val) refl same m.size
                ((old.key, old.val) ∷ m.destroyed) q alone
              ∙ ground arith;
        },
      )
