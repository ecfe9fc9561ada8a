-- ===== src/Queue/Races.antt =====
-- Interleavings of hw5/src/queue.c with two threads: `enqueue` reads the semaphore in one
-- critical section and acts on it in the next.
use cse320_projects.Common.{ℕ, ◌≡◌, ◌≢◌, false, none, [], ◌∷◌, arith, ap, length, length-append}
use cse320_projects.Queue.{Queue, Run, ok, fault, ◌>>=◌, enqueue_alloc, enqueue_link, post, dequeue}
use cse320_projects.Queue.Heap.{items_of, Seg-nil}
use cse320_projects.Queue.Order.{IsQueue, empty, filled}

-- `enqueue` has allocated its node and read the semaphore when another thread runs `dequeue`;
-- then `enqueue` links its node.
unfoldable pub dequeue_within_enqueue : ℕ → ℕ → Queue → Run (ℕ × Queue)
dequeue_within_enqueue fresh item self =
    let (allocated, seen) = enqueue_alloc fresh item self in
    do
      (taken, popped) ← dequeue allocated
      linked ← enqueue_link fresh seen popped
      ok (taken, post linked)

-- On a queue of one item, an `enqueue` that has read the semaphore before another thread runs
-- `dequeue` writes to the node that `dequeue` has freed.
pub dequeue_within_enqueue-fault :
    {self : Queue} {x : ℕ}
    → IsQueue self (x ∷ [])
    → self.invalid ≡ false
    → (fresh item : ℕ) → self.heap fresh ≡ none
    → dequeue_within_enqueue fresh item self ≡ fault
unfolding dequeue_within_enqueue enqueue_alloc enqueue_link dequeue post
dequeue_within_enqueue-fault {self} (empty held front items) running fresh item unused = cc
dequeue_within_enqueue-fault {self} (filled [] y held chain rear_nz last apart items) running fresh
      item unused =
    let only : self.front ≡ self.rear = Seg-nil chain in ground arith
dequeue_within_enqueue-fault {self} (filled ((p, z) ∷ cells) y held chain rear_nz last apart items)
      running fresh item unused =
    absurd
      (unfold items_of in omega (arith, ap length held, length-append (items_of cells) (y ∷ [])))

-- Two threads run `enqueue`, and both have read the semaphore before either links its node.
unfoldable pub enqueue_both : (fresh₁ item₁ fresh₂ item₂ : ℕ) → Queue → Run Queue
enqueue_both fresh₁ item₁ fresh₂ item₂ self =
    let (s₁, seen₁) = enqueue_alloc fresh₁ item₁ self in
    let (s₂, seen₂) = enqueue_alloc fresh₂ item₂ s₁ in
    do s₃ ← enqueue_link fresh₁ seen₁ s₂; s₄ ← enqueue_link fresh₂ seen₂ (post s₃); ok (post s₄)

-- The same, and two calls of `dequeue` after it: the semaphore in between and the two answers.
unfoldable pub lost_item : (fresh₁ item₁ fresh₂ item₂ : ℕ) → Queue → Run (ℕ × ℕ × ℕ)
unfolding enqueue_both
lost_item fresh₁ item₁ fresh₂ item₂ self = do
  s ← enqueue_both fresh₁ item₁ fresh₂ item₂ self
  (first_answer, s') ← dequeue s
  (second_answer, s'') ← dequeue s'
  ok (s.items, first_answer, second_answer)

-- On an empty queue, of two threads that have both read the semaphore in `enqueue` the first to
-- link loses its item: the semaphore counts two, one `dequeue` gives the second item and the next
-- gives NULL.
enqueue_both_loses :
    {self : Queue}
    → IsQueue self []
    → self.invalid ≡ false
    → (fresh₁ item₁ fresh₂ item₂ : ℕ) → fresh₁ ≢ 0
    → fresh₂ ≢ 0
    → fresh₁ ≢ fresh₂
    → lost_item fresh₁ item₁ fresh₂ item₂ self ≡ ok (2, item₂, 0)
unfolding lost_item enqueue_alloc enqueue_link dequeue post
enqueue_both_loses {self} (empty held front items) running fresh₁ item₁ fresh₂ item₂ nz₁ nz₂ apart =
    ground arith
enqueue_both_loses {self} (filled [] y held chain rear_nz last out items) running fresh₁ item₁
      fresh₂ item₂ nz₁ nz₂ apart =
    unfold items_of in cc
enqueue_both_loses {self} (filled (c ∷ cells) y held chain rear_nz last out items) running fresh₁
      item₁ fresh₂ item₂ nz₁ nz₂ apart =
    unfold items_of in cc
