-- ===== src/Queue/Heap.antt =====
-- Chains of queue nodes on the heap.
use cse320_projects.Common.{
  ℕ, ◌≡◌, refl, ◌≢◌, Bool, false, ◌||◌, Option, none, some, List, [], ◌∷◌, ◌++◌, arith, ◌==◌,
}
use cse320_projects.Queue.{QueueNode, write}

-- The nodes of a chain: address and item of each, in order.
abbrev pub Cells : Type 0
Cells = List (ℕ × ℕ)

unfoldable pub has : ℕ → Cells → Bool
has a [] = false
has a ((p, x) ∷ cells) = (a == p) || has a cells

unfoldable pub items_of : Cells → List ℕ
items_of [] = []
items_of ((p, x) ∷ cells) = x ∷ items_of cells

abbrev pub node : ℕ → ℕ → QueueNode
node x q = record { item = x; next = q }

-- From `p` the `next` pointers lead through the distinct nodes `cells` to `stop`.
pub data Seg (heap : ℕ → Option QueueNode) (stop : ℕ) : ℕ → Cells → Type 0 where
  nil : Seg heap stop stop []
  cons :
      {p q x : ℕ} {cells : Cells}
      → p ≢ 0
      → heap p ≡ some (node x q)
      → has p cells ≡ false
      → Seg heap stop q cells
      → Seg heap stop p ((p, x) ∷ cells)

module _ {heap : ℕ → Option QueueNode} {stop : ℕ} where
  -- A chain survives a write away from its nodes.
  pub Seg-write :
      {p : ℕ} {cells : Cells} (a : ℕ) (cell : Option QueueNode)
      → Seg heap stop p cells
      → has a cells ≡ false
      → Seg (write heap a cell) stop p cells
  unfolding write has
  Seg-write a cell nil out = nil
  Seg-write a cell (cons {p} {q} {x} {cells} nz e apart s) out =
      cons nz (ground arith) apart (Seg-write a cell s (ground arith))

  pub not-has_of_none :
      {p : ℕ} {cells : Cells} (a : ℕ) → Seg heap stop p cells → heap a ≡ none → has a cells ≡ false
  unfolding has
  not-has_of_none a nil e = refl
  not-has_of_none a (cons nz h apart s) e = ground (arith, not-has_of_none a s e)

pub has-append :
    (a b y : ℕ) (cells : Cells) → has a cells ≡ false → a ≢ b → has a (cells ++ (b, y) ∷ []) ≡ false
unfolding has
has-append a b y [] h ne = ground arith
has-append a b y ((p, x) ∷ cells) h ne = ground (arith, has-append a b y cells)

-- A chain that ends at the node `r`, followed by that node.
pub Seg-snoc :
    {heap : ℕ → Option QueueNode} {r y stop p : ℕ} {cells : Cells}
    → Seg heap r p cells
    → r ≢ 0
    → heap r ≡ some (node y stop)
    → has r cells ≡ false
    → Seg heap stop p (cells ++ (r, y) ∷ [])
unfolding has
Seg-snoc nil nz e out = cons nz e refl nil
Seg-snoc {r} {y} (cons {p} {q} {x} {cells} nz' e' apart s) nz e out =
    cons nz' e' (has-append p r y cells apart (ground arith)) (Seg-snoc s nz e (ground arith))

pub items_of-append : (xs ys : Cells) → items_of (xs ++ ys) ≡ items_of xs ++ items_of ys
unfolding items_of
items_of-append [] ys = refl
items_of-append ((p, x) ∷ xs) ys = rw (items_of-append xs ys)

module _ {heap : ℕ → Option QueueNode} {stop : ℕ} where
  pub Seg-nil : {p : ℕ} → Seg heap stop p [] → p ≡ stop
  Seg-nil nil = refl

  -- The first node of a chain that is not empty.
  pub Seg-uncons :
      {p a x : ℕ} {cells : Cells}
      → Seg heap stop p ((a, x) ∷ cells)
      → (q : ℕ) × (p ≡ a)
        × (p ≢ 0)
        × (heap p ≡ some (node x q))
        × (has p cells ≡ false)
        × Seg heap stop q cells
  Seg-uncons (cons {q} nz e out s) = (q, refl, nz, e, out, s)
