-- ===== src/Queue/Order.antt =====
-- The queue of hw5/src/queue.c, run by one thread at a time, and the list of its items.
use cse320_projects.Common.{
  ℕ, ◌+◌, ◌-◌, ◌≡◌, refl, ◌≢◌, true, false, Option, none, some, List, [], ◌∷◌, ◌++◌, arith, length,
  length-append,
}
use cse320_projects.Queue.{Queue, QueueNode, ok, blocked, write, create_queue, enqueue, dequeue}
use cse320_projects.Queue.Heap.{
  Cells, has, items_of, node, Seg, nil, Seg-write, not-has_of_none, Seg-snoc, Seg-nil, Seg-uncons,
  has-append, items_of-append,
}

-- The queue holds `xs`, front first. When it is empty `rear` may dangle.
pub data IsQueue (self : Queue) (xs : List ℕ) : Type 0 where
  empty : xs ≡ [] → self.front ≡ 0 → self.items ≡ 0 → IsQueue self xs
  filled :
      (cells : Cells) (y : ℕ)
      → xs ≡ items_of cells ++ y ∷ []
      → Seg self.heap self.rear self.front cells
      → self.rear ≢ 0
      → self.heap self.rear ≡ some (node y 0)
      → has self.rear cells ≡ false
      → self.items ≡ length cells + 1
      → IsQueue self xs

pub create_queue-empty : IsQueue create_queue []
unfolding create_queue
create_queue-empty = empty refl refl refl

pub length-snoc : (cells : Cells) (a : ℕ × ℕ) → length (cells ++ a ∷ []) ≡ length cells + 1
length-snoc cells a = omega (arith, length-append {0} cells (a ∷ []))

-- On a running queue that holds a list, `enqueue` of a non-NULL item into a fresh node adds it at
-- the rear.
pub enqueue-snoc :
    {self : Queue} {xs : List ℕ}
    → IsQueue self xs
    → self.invalid ≡ false
    → (fresh item : ℕ) → fresh ≢ 0
    → self.heap fresh ≡ none
    → item ≢ 0
    → (self' : Queue) × (enqueue fresh item self ≡ ok (true, self'))
      × IsQueue self' (xs ++ item ∷ [])
      × (self'.invalid ≡ false)
unfolding enqueue items_of has
enqueue-snoc {self} (empty none_held front items) running fresh item nz unused given =
    let cell : Option QueueNode = some (node item 0) in
    (
      record self {
        front = fresh;
        rear = fresh;
        items = self.items + 1;
        heap = write self.heap fresh cell;
      },
      ground arith,
      filled [] item (rw none_held) nil nz (unfold write in ground arith) refl
          (omega (arith, items)),
      running,
    )
enqueue-snoc {self} (filled cells y held chain rear_nz last apart items) running fresh item nz
      unused given =
    let cell : Option QueueNode = some (node item 0) in
    let grown : ℕ → Option QueueNode = write self.heap fresh cell in
    (
      record self {
        rear = fresh;
        items = self.items + 1;
        heap = write grown self.rear (some (node y fresh));
      },
      ground arith,
      filled (cells ++ (self.rear, y) ∷ []) item (rw (held, items_of-append) refl)
          (Seg-snoc
            (Seg-write self.rear (some (node y fresh))
              (Seg-write fresh cell chain (not-has_of_none fresh chain unused)) apart)
            rear_nz (unfold write in ground arith) apart)
          nz (unfold write in ground arith)
          (has-append fresh self.rear y cells (not-has_of_none fresh chain unused)
            (λ e. cc (e, last, unused)))
          (omega (arith, items, length-snoc cells (self.rear, y))),
      running,
    )

-- On a running queue that holds a list with a first item, `dequeue` does not block, gives that item
-- and leaves the rest.
pub dequeue-uncons :
    {self : Queue} {x : ℕ} {xs : List ℕ}
    → IsQueue self (x ∷ xs)
    → self.invalid ≡ false
    → (self' : Queue) × (dequeue self ≡ ok (x, self')) × IsQueue self' xs × (self'.invalid ≡ false)
unfolding dequeue items_of has
dequeue-uncons {self} (empty none_held front items) running = cc
dequeue-uncons {self} (filled [] y held chain rear_nz last apart items) running =
    let only : self.front ≡ self.rear = Seg-nil chain in
    (
      record self { front = 0; items = self.items - 1; heap = write self.heap self.front none },
      ground arith,
      empty (cc) refl (omega (arith, items)),
      running,
    )
dequeue-uncons {self} (filled ((p, z) ∷ cells) y held chain rear_nz last apart items) running =
    let (q, same, nz, here, out, rest) = Seg-uncons chain in
    (
      record self { front = q; items = self.items - 1; heap = write self.heap self.front none },
      ground arith,
      filled cells y (cc) (Seg-write self.front none rest out) rear_nz
          (unfold write in ground arith) (ground arith) (omega (arith, items)),
      running,
    )

pub dequeue-blocked :
    {self : Queue} → IsQueue self [] → self.invalid ≡ false → dequeue self ≡ blocked
unfolding dequeue
dequeue-blocked {self} (empty none_held front items) running = rw (running, items) refl
dequeue-blocked {self} (filled [] y held chain rear_nz last apart items) running =
    unfold items_of in cc
dequeue-blocked {self} (filled (c ∷ cells) y held chain rear_nz last apart items) running =
    unfold items_of in cc
