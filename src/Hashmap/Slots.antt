-- ===== src/Hashmap/Slots.antt =====
-- The slots of a table as a whole: how many are live, and what the table holds under a key,
-- whatever the order of the probe.
use cse320_projects.Common.{
  ℕ, zero, suc, ◌+◌, ◌≤◌, ◌<◌, ◌≡◌, refl, ◌≢◌, true, false, Option, none, some, List, [], ◌∷◌,
  arith, if◌then◌else◌, Bool-cases, ◌⊎◌, inl, inr, length, get_or, set, replicate, get_or-set,
  length-set, ap,
}
use cse320_projects.Hashmap.{Memory, MapKey, MapVal, MapNode, blank, matches_live}

abbrev pub weight : MapNode → ℕ
weight node = if node.tombstone then 0 else 1

-- The number of live entries.
unfoldable pub live : List MapNode → ℕ
live [] = 0
live (node ∷ nodes) = weight node + live nodes

pub live-set :
    (nodes : List MapNode) (j : ℕ) (node : MapNode)
    → j < length nodes
    → live (set nodes j node) + weight (get_or nodes j blank) ≡ live nodes + weight node
unfolding live set get_or
live-set [] j node h = absurd (omega arith)
live-set (x ∷ nodes) zero node h = omega arith
live-set (x ∷ nodes) (suc j) node h = omega (arith, live-set nodes j node (omega arith))

pub live-le-length : (nodes : List MapNode) → live nodes ≤ length nodes
unfolding live
live-le-length [] = omega arith
live-le-length (x ∷ nodes) = ground (arith, live-le-length nodes)

-- A table is full exactly when no slot is a tombstone.
pub live-eq-length :
    (nodes : List MapNode)
    → ((k : ℕ) → k < length nodes → (get_or nodes k blank).tombstone ≡ false)
    → live nodes ≡ length nodes
unfolding live get_or
live-eq-length [] h = refl
live-eq-length (x ∷ nodes) h =
    ground (arith, h 0, live-eq-length nodes (λ k lt. h (suc k) (omega arith)))

pub live-lt-length :
    (nodes : List MapNode) (j : ℕ)
    → j < length nodes
    → (get_or nodes j blank).tombstone ≡ true
    → live nodes < length nodes
unfolding live get_or
live-lt-length [] j h t = absurd (omega arith)
live-lt-length (x ∷ nodes) zero h t = ground (arith, live-le-length nodes)
live-lt-length (x ∷ nodes) (suc j) h t = ground (arith, live-lt-length nodes j (omega arith) t)

pub live-replicate : (n : ℕ) → live (replicate n blank) ≡ 0
unfolding live replicate
live-replicate zero = refl
live-replicate (suc n) = omega (arith, live-replicate n)

module _ (mem : Memory) (key : MapKey) where
  -- What the table holds under the key: its first live entry in array order.
  unfoldable pub view_nodes : List MapNode → Option MapVal
  view_nodes [] = none
  view_nodes (node ∷ nodes) = if matches_live mem key node then some node.val else view_nodes nodes

  pub view-none :
      (nodes : List MapNode)
      → ((k : ℕ) → k < length nodes → matches_live mem key (get_or nodes k blank) ≡ false)
      → view_nodes nodes ≡ none
  unfolding view_nodes get_or
  view-none [] h = refl
  view-none (x ∷ nodes) h =
      rw (h 0 (omega arith)) (view-none nodes (λ k lt. h (suc k) (omega arith)))

  pub view-some :
      (nodes : List MapNode) (j : ℕ)
      → j < length nodes
      → matches_live mem key (get_or nodes j blank) ≡ true
      → ((k : ℕ) → k < length nodes → matches_live mem key (get_or nodes k blank) ≡ true → k ≡ j)
      → view_nodes nodes ≡ some (get_or nodes j blank).val
  unfolding view_nodes get_or
  view-some [] j lt h only = absurd (omega arith)
  view-some (x ∷ nodes) zero lt h only = rw h
  view-some (x ∷ nodes) (suc j) lt h only = elim (Bool-cases (matches_live mem key x)) [
    | inl hit ↦ absurd (omega (arith, only 0 (omega arith) hit))
    | inr miss ↦
        rw miss
          (view-some nodes j (omega arith) h (λ k l m. omega (arith, only (suc k) (omega arith) m)))
  ]

  abbrev pub HeldLive : List MapNode → Type 0
  HeldLive nodes =
      (j : ℕ) × (j < length nodes) × (matches_live mem key (get_or nodes j blank) ≡ true)

  abbrev pub NotLive : List MapNode → Type 0
  NotLive nodes = (k : ℕ) → k < length nodes → matches_live mem key (get_or nodes k blank) ≡ false

  NotLive-cons :
      (node : MapNode) (nodes : List MapNode)
      → matches_live mem key node ≡ false
      → NotLive nodes
      → NotLive (node ∷ nodes)
  unfolding get_or
  NotLive-cons node nodes miss h zero lt = miss
  NotLive-cons node nodes miss h (suc k) lt = h k (omega arith)

  -- Either some slot holds the key live, or none does.
  pub live_slot : (nodes : List MapNode) → HeldLive nodes ⊎ NotLive nodes
  unfolding get_or
  live_slot [] = inr (λ k lt. absurd (omega arith))
  live_slot (x ∷ nodes) = elim (Bool-cases (matches_live mem key x)) [
    | inl hit ↦ inl (0, omega arith, hit)
    | inr miss ↦ elim (live_slot nodes) [
      | inl (j, lt, hit) ↦ inl (suc j, omega arith, hit)
      | inr h ↦ inr (NotLive-cons x nodes miss h)
    ]
  ]

  abbrev pub Once : List MapNode → Type 0
  Once nodes =
      (i j : ℕ)
      → i < length nodes
      → j < length nodes
      → matches_live mem key (get_or nodes i blank) ≡ true
      → matches_live mem key (get_or nodes j blank) ≡ true
      → i ≡ j

  -- A write to one slot, seen through the view.
  pub view-set :
      (nodes : List MapNode) (j : ℕ) (node : MapNode)
      → j < length nodes
      → Once nodes
      → (matches_live mem key node ≡ true
          → (i : ℕ) → i < length nodes
          → i ≢ j
          → matches_live mem key (get_or nodes i blank) ≡ false)
      → view_nodes (set nodes j node) ≡ (
          if matches_live mem key node
          then some node.val
          else if matches_live mem key (get_or nodes j blank)
          then none
          else view_nodes nodes)
  view-set nodes j node inside once alone = elim (Bool-cases (matches_live mem key node)) [
    | inl hit ↦
        let self : get_or (set nodes j node) j blank ≡ node =
          ground (arith, get_or-set nodes j j node blank) in
        rw hit (
          rw
            (view-some (set nodes j node) j (rw length-set inside) (rw self hit) (λ k lt m.
              ground
                (arith, get_or-set nodes j k node blank, length-set nodes j node, alone hit k)))
            (ap some (ap (λ (n : MapNode). n.val) self)))
    | inr miss ↦ rw miss (elim (Bool-cases (matches_live mem key (get_or nodes j blank))) [
      | inl old ↦ rw old (
          view-none (set nodes j node) (λ k lt.
            ground (arith, get_or-set nodes j k node blank, length-set nodes j node, once k j)))
      | inr absent ↦ rw absent (elim (live_slot nodes) [
        | inl (i, lt, hit) ↦
            let same : get_or (set nodes j node) i blank ≡ get_or nodes i blank =
              ground (arith, get_or-set nodes j i node blank) in
            rw (view-some nodes i lt hit (λ k l m. once k i l lt m hit)) (
              rw
                (view-some (set nodes j node) i (rw length-set lt) (rw same hit) (λ k l m.
                  ground
                    (arith, get_or-set nodes j k node blank, length-set nodes j node, once k i)))
                (ap some (ap (λ (n : MapNode). n.val) same)))
        | inr nowhere ↦ rw (view-none nodes nowhere) (
            view-none (set nodes j node) (λ k lt.
              ground (arith, get_or-set nodes j k node blank, length-set nodes j node, nowhere k)))
      ])
    ])
  ]
