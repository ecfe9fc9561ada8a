-- ===== src/Queue/Invalidate.antt =====
-- `invalidate_queue` of hw5/src/queue.c, run by one thread.
use mathlib.Core.Path.{subst}
use mathlib.Core.List.{reverse, reverse_aux, reverse_aux-eq}
use cse320_projects.Common.{
  ℕ, zero, suc, ◌+◌, ◌<◌, ◌≡◌, refl, sym, ◌∙◌, true, false, none, List, [], ◌∷◌, ◌++◌, arith,
  length,
}
use cse320_projects.Queue.{Queue, ok, write, enqueue, dequeue, destroy_loop, invalidate_queue}
use cse320_projects.Queue.Heap.{
  Cells, has, items_of, Seg, nil, Seg-write, Seg-snoc, Seg-uncons, Seg-nil, items_of-append,
}
use cse320_projects.Queue.Order.{IsQueue, empty, filled, length-snoc}

-- The loop has come to the end of a chain of `cells`.
record Freed (self : Queue) (cells : Cells) (self' : Queue) : Type 0 where
  destroyed : self'.destroyed ≡ reverse_aux (items_of cells) self.destroyed
  freed : (a : ℕ) → has a cells ≡ true → self'.heap a ≡ none
  others : (a : ℕ) → has a cells ≡ false → self'.heap a ≡ self.heap a

destroy_loop-Freed :
    (fuel : ℕ) (cells : Cells) (p : ℕ) (self : Queue)
    → Seg self.heap 0 p cells
    → length cells < fuel
    → (self' : Queue) × (destroy_loop fuel p self ≡ ok self') × Freed self cells self'
unfolding destroy_loop items_of has
destroy_loop-Freed zero cells p self chain lt = absurd (omega arith)
destroy_loop-Freed (suc fuel) [] p self chain lt = (
  self,
  rw (Seg-nil chain) refl,
  record { destroyed = refl; freed = λ a h. cc; others = λ a h. refl },
)
destroy_loop-Freed (suc fuel) ((a, x) ∷ cells) p self chain lt =
    let (q, same, nz, here, out, rest) = Seg-uncons chain in
    let next : Queue = record self {
      heap = write self.heap p none;
      destroyed = x ∷ self.destroyed;
    } in
    let (self', run, t) =
      destroy_loop-Freed fuel cells q next (Seg-write p none rest out) (omega arith) in
    (
      self',
      ground arith,
      record {
        destroyed = t.destroyed;
        freed = λ b h. unfold write in ground (arith, t.freed b, t.others b);
        others = λ b h. unfold write in ground (arith, t.others b);
      },
    )

-- The nodes that the queue had, from its front to NULL, hold the list. Every item is destroyed once,
-- front first; every node is freed, and the rest of the heap is as it was; and the queue is shut:
-- later calls are refused.
pub record Shut (xs : List ℕ) (self self' : Queue) : Type 0 where
  pub nodes : Cells
  pub chain : Seg self.heap 0 self.front nodes
  pub held : items_of nodes ≡ xs
  pub freed : (a : ℕ) → has a nodes ≡ true → self'.heap a ≡ none
  pub others : (a : ℕ) → has a nodes ≡ false → self'.heap a ≡ self.heap a
  pub destroyed : self'.destroyed ≡ reverse xs ++ self.destroyed
  pub invalid : self'.invalid ≡ true
  pub enqueues : (fresh item : ℕ) → enqueue fresh item self' ≡ ok (false, self')
  pub dequeues : dequeue self' ≡ ok (0, self')
  pub again : invalidate_queue true self' ≡ ok (false, self')

shut :
    (cells : Cells) (self emptied : Queue)
    → Seg self.heap 0 self.front cells
    → Freed self cells emptied
    → Shut (items_of cells) self (record emptied { invalid = true })
unfolding enqueue dequeue invalidate_queue
shut cells self emptied chain t = record {
  nodes = cells;
  chain = chain;
  held = refl;
  freed = t.freed;
  others = t.others;
  destroyed = t.destroyed ∙ reverse_aux-eq (items_of cells) self.destroyed;
  invalid = refl;
  enqueues = λ fresh item. ground arith;
  dequeues = refl;
  again = refl;
}

-- The nodes of a queue that holds a list.
nodes_of :
    {self : Queue} {xs : List ℕ}
    → IsQueue self xs
    → (cells : Cells) × Seg self.heap 0 self.front cells
      × (items_of cells ≡ xs)
      × (length cells < self.items + 1)
nodes_of {self} {xs} (empty none_held front items) =
    ([], rw front nil, (unfold items_of in sym none_held), omega (arith, items))
nodes_of {self} {xs} (filled cells y held chain rear_nz last apart items) = (
  cells ++ (self.rear, y) ∷ [],
  Seg-snoc chain rear_nz last apart,
  items_of-append cells ((self.rear, y) ∷ []) ∙ unfold items_of in (sym held),
  omega (arith, items, length-snoc cells (self.rear, y)),
)

run_loop :
    (self emptied : Queue)
    → self.invalid ≡ false
    → destroy_loop (self.items + 1) self.front self ≡ ok emptied
    → invalidate_queue true self ≡ ok (true, record emptied { invalid = true })
unfolding invalidate_queue
run_loop self emptied running run = ground (arith, running, run)

-- `invalidate_queue` on a running queue that holds a list refuses a NULL `destroy_function` and
-- leaves the queue alone; with a function it ends, destroys every item once, front first, frees
-- every node from the front to NULL, whose items are that list, and nothing else on the heap, and
-- later calls are refused.
pub invalidate_queue-Shut :
    {self : Queue} {xs : List ℕ}
    → IsQueue self xs
    → self.invalid ≡ false
    → (invalidate_queue false self ≡ ok (false, self))
      × (self' : Queue) × (invalidate_queue true self ≡ ok (true, self'))
      × Shut xs self self'
unfolding invalidate_queue
invalidate_queue-Shut {self} {xs} holds running =
    let (cells, chain, held, fuel) = nodes_of holds in
    let (emptied, run, t) = destroy_loop-Freed (self.items + 1) cells self.front self chain fuel in
    (
      refl,
      record emptied { invalid = true },
      run_loop self emptied running run,
      subst (λ ys. Shut ys self (record emptied { invalid = true })) held
          (shut cells self emptied chain t),
    )
