-- ===== src/Queue/Tests.antt =====
-- Small runs of hw5/src/queue.c, and its theorems at concrete queues.
use cse320_projects.Common.{◌≡◌, refl, true, false, some, none, [], ◌∷◌, ◌++◌, arith}
use cse320_projects.Queue.{
  Queue, ok, blocked, fault, create_queue, enqueue, dequeue, invalidate_queue, write,
}
use cse320_projects.Queue.Heap.{node, has, items_of, nil}
use cse320_projects.Queue.Order.{IsQueue, filled, enqueue-snoc, dequeue-uncons}
use cse320_projects.Queue.Invalidate.{Shut, invalidate_queue-Shut}
use cse320_projects.Queue.Races.{dequeue_within_enqueue, dequeue_within_enqueue-fault}

-- One item, 7, in the node at address 1.
abbrev single : Queue
single = record {
  front = 1;
  rear = 1;
  items = 1;
  invalid = false;
  heap = write (λ p. none) 1 (some (node 7 0));
  destroyed = [];
}

single-IsQueue : IsQueue single (7 ∷ [])
unfolding write items_of has
single-IsQueue = filled [] 7 refl nil (omega arith) refl refl refl

-- A new queue makes its first `dequeue` wait.
waits : dequeue create_queue ≡ blocked
unfolding dequeue create_queue
waits = refl

enqueue-snoc_example :
    (self' : Queue) × (enqueue 2 8 single ≡ ok (true, self'))
    × IsQueue self' ((7 ∷ []) ++ 8 ∷ [])
    × (self'.invalid ≡ false)
unfolding write
enqueue-snoc_example = enqueue-snoc single-IsQueue refl 2 8 (omega arith) refl (omega arith)

dequeue-uncons_example :
    (self' : Queue) × (dequeue single ≡ ok (7, self')) × IsQueue self' [] × (self'.invalid ≡ false)
dequeue-uncons_example = dequeue-uncons single-IsQueue refl

invalidate_queue-Shut_example :
    (invalidate_queue false single ≡ ok (false, single))
    × (self' : Queue) × (invalidate_queue true single ≡ ok (true, self'))
    × Shut (7 ∷ []) single self'
invalidate_queue-Shut_example = invalidate_queue-Shut single-IsQueue refl

dequeue_within_enqueue-fault_example : dequeue_within_enqueue 2 8 single ≡ fault
unfolding write
dequeue_within_enqueue-fault_example = dequeue_within_enqueue-fault single-IsQueue refl 2 8 refl

running : create_queue.invalid ≡ false
unfolding create_queue
running = refl
