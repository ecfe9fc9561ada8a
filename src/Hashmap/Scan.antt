-- ===== src/Hashmap/Scan.antt =====
-- The search that `put`, `get` and `delete` of hw5/src/hashmap.c share: the first slot with a
-- property, in the order in which the loops visit the slots.
use native.Mathlib.Nat.{add_comm}
use cse320_projects.Common.{
  ℕ, zero, suc, ◌+◌, ◌%◌, ◌<◌, ◌≡◌, refl, ◌⊎◌, Bool, true, false, Option, none, some, List, arith,
  if◌then◌else◌, Bool-cases, inl, inr, get_or,
}
use cse320_projects.Common.Modular.{offset, offset-lt, mod-offset, offset-mod}
use cse320_projects.Hashmap.{MapNode, blank}

lt_or_eq : (a b : ℕ) → a < b + 1 → (a < b) ⊎ (a ≡ b)
lt_or_eq a b h = omega arith

unfoldable pub first : (MapNode → Bool) → (index capacity rounds i : ℕ) → List MapNode → Option ℕ
first test index capacity zero i nodes = none
first test index capacity (suc n) i nodes =
    let rest = first test index capacity n (i + 1) nodes in
    if test (get_or nodes ((i + index) % capacity) blank)
    then some ((i + index) % capacity)
    else rest

module _ (test : MapNode → Bool) (index capacity : ℕ) (nodes : List MapNode) where
  -- Slot `j` has the property, and no slot that is visited before it has.
  pub record IsFirst (j : ℕ) : Type 0 where
    pub within : j < capacity
    pub holds : test (get_or nodes j blank) ≡ true
    pub earliest :
        (k : ℕ)
        → k < capacity
        → offset index capacity k < offset index capacity j
        → test (get_or nodes k blank) ≡ false

  abbrev pub Nowhere : Type 0
  Nowhere = (k : ℕ) → k < capacity → test (get_or nodes k blank) ≡ false

  -- No slot of the first `i` rounds has the property.
  abbrev Passed : ℕ → Type 0
  Passed i =
      (k : ℕ) → k < capacity → offset index capacity k < i → test (get_or nodes k blank) ≡ false

  module _ (start : index < capacity) where
    slot-offset : (i : ℕ) → i < capacity → offset index capacity ((i + index) % capacity) ≡ i
    slot-offset i h = rw (add_comm i index) (offset-mod index capacity start i h)

    offset-slot :
        (k i : ℕ) → k < capacity → offset index capacity k ≡ i → (i + index) % capacity ≡ k
    offset-slot k i h e =
        rw (← e, add_comm (offset index capacity k) index) (mod-offset index capacity start k h)

    slot-lt : (i : ℕ) → (i + index) % capacity < capacity
    slot-lt i = grind arith

    Passed-suc :
        (i : ℕ)
        → Passed i
        → test (get_or nodes ((i + index) % capacity) blank) ≡ false
        → Passed (i + 1)
    Passed-suc i passed miss k h before =
        elim (lt_or_eq (offset index capacity k) i (omega arith)) [
          | inl lt ↦ passed k h lt
          | inr eq ↦ rw (offset-slot k i h eq) at miss
        ]

    first-cases :
        (n i : ℕ)
        → i + n ≡ capacity
        → Passed i
        → ((j : ℕ) × (first test index capacity n i nodes ≡ some j) × IsFirst j)
          ⊎ ((first test index capacity n i nodes ≡ none) × Nowhere)
    unfolding first
    first-cases zero i e passed =
        inr (refl, λ k h. passed k h (omega (arith, offset-lt index capacity start k h)))
    first-cases (suc n) i e passed =
        elim (Bool-cases (test (get_or nodes ((i + index) % capacity) blank))) [
          | inl hit ↦ inl (
            (i + index) % capacity,
            rw hit,
            record {
              within = slot-lt i;
              holds = hit;
              earliest = λ k h before. passed k h (omega (arith, slot-offset i (omega arith)));
            },
          )
          | inr miss ↦ rw miss (first-cases n (i + 1) (omega arith) (Passed-suc i passed miss))
        ]

  -- A whole scan finds the first slot with the property, or there is none.
  pub first_lem :
      index < capacity
      → ((j : ℕ) × (first test index capacity capacity 0 nodes ≡ some j) × IsFirst j)
        ⊎ ((first test index capacity capacity 0 nodes ≡ none) × Nowhere)
  first_lem start = first-cases start capacity 0 (omega arith) (λ k h before. absurd (omega arith))
