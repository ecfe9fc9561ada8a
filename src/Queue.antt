-- ===== src/Queue.antt =====
-- The blocking queue of hw5/src/queue.c, with hw5/include/queue.h.
--
-- Nodes stand on a heap, by address, 0 for NULL; the semaphore `items` is its count. Each piece of
-- code between `pthread_mutex_lock` and `pthread_mutex_unlock`, and each `P` and `V`, is a function
-- of its own, so that an interleaving of threads is a sequence of such calls; `enqueue`, `dequeue`
-- and `invalidate_queue` run the pieces in a row. `Calloc` gives the address `fresh`. Initialising
-- the semaphore and the mutex does not fail. A NULL queue, which each function refuses before it does
-- anything, and `errno` are left out.
pub mod Heap
pub mod Order
pub mod Invalidate
pub mod Races
mod Tests
use cse320_projects.Common.{
  ℕ, zero, suc, ◌+◌, ◌-◌, Bool, true, false, Option, none, some, List, [], ◌∷◌, ◌==◌, if◌then◌else◌,
}

pub record QueueNode : Type 0 where
  pub item : ℕ
  pub next : ℕ

pub record Queue : Type 0 where
  pub front : ℕ
  pub rear : ℕ
  pub items : ℕ
  pub invalid : Bool
  pub heap : ℕ → Option QueueNode
  -- the items that `destroy_function` was called on, the last one first
  pub destroyed : List ℕ

-- `fault` is an access through NULL or to a freed node, `blocked` a `P` on an empty semaphore.
pub data Run {ℓ} (A : Type ℓ) : Type ℓ where
  ok : A → Run A
  fault : Run A
  blocked : Run A
  out_of_fuel : Run A

infixl 5 ◌>>=◌
abbrev pub ◌>>=◌ {ℓ κ} : {A : Type ℓ} {B : Type κ} → Run A → (A → Run B) → Run B
ok a >>= f = f a
fault >>= f = fault
blocked >>= f = blocked
out_of_fuel >>= f = out_of_fuel

unfoldable pub write : (ℕ → Option QueueNode) → ℕ → Option QueueNode → ℕ → Option QueueNode
write heap p cell q = if p == q then cell else heap q

unfoldable pub load : Queue → ℕ → Run QueueNode
load self p = elim (self.heap p) [ none ↦ fault | some node ↦ ok node ]

unfoldable pub create_queue : Queue
create_queue = record {
  front = 0;
  rear = 0;
  items = 0;
  invalid = false;
  heap = λ p. none;
  destroyed = [];
}

-- `enqueue`, second critical section: the node is allocated and filled, and the semaphore read.
unfoldable pub enqueue_alloc : ℕ → ℕ → Queue → Queue × ℕ
unfolding write
enqueue_alloc fresh item self = (
  record self { heap = write self.heap fresh (some (record { item = item; next = 0 })) },
  self.items,
)

-- `enqueue`, third critical section, with the value of the semaphore that was read before it.
unfoldable pub enqueue_link : ℕ → ℕ → Queue → Run Queue
unfolding write load
enqueue_link fresh seen self =
    if seen == 0 then ok (record self { front = fresh; rear = fresh }) else do
      last ← load self self.rear
      ok (record self {
        heap = write self.heap self.rear (some (record last { next = fresh }));
        rear = fresh;
      })

-- `V(&self->items)`
unfoldable pub post : Queue → Queue
post self = record self { items = self.items + 1 }

unfoldable pub enqueue : ℕ → ℕ → Queue → Run (Bool × Queue)
unfolding enqueue_alloc enqueue_link post
enqueue fresh item self =
    if item == 0
    then ok (false, self)
    else if self.invalid
    then ok (false, self)
    else (let (allocated, seen) = enqueue_alloc fresh item self in
        do linked ← enqueue_link fresh seen allocated; ok (true, post linked))

-- `P(&self->items)`
unfoldable pub wait : Queue → Run Queue
wait self = if self.items == 0 then blocked else ok (record self { items = self.items - 1 })

-- `dequeue`, the critical section after `P`.
unfoldable pub dequeue_pop : Queue → Run (ℕ × Queue)
unfolding write load
dequeue_pop self = if self.front == 0 then ok (0, self) else do
  node ← load self self.front
  ok (node.item, record self { front = node.next; heap = write self.heap self.front none })

unfoldable pub dequeue : Queue → Run (ℕ × Queue)
unfolding wait dequeue_pop
dequeue self = if self.invalid then ok (0, self) else do waited ← wait self; dequeue_pop waited

-- The loop of `invalidate_queue`, on fuel.
unfoldable pub destroy_loop : ℕ → ℕ → Queue → Run Queue
unfolding write load
destroy_loop zero current_node self = out_of_fuel
destroy_loop (suc fuel) current_node self = if current_node == 0 then ok self else do
  node ← load self current_node
  destroy_loop fuel node.next (record self {
    heap = write self.heap current_node none;
    destroyed = node.item ∷ self.destroyed;
  })

-- A `destroy_function` that is NULL is `false`.
unfoldable pub invalidate_queue : Bool → Queue → Run (Bool × Queue)
unfolding destroy_loop
invalidate_queue false self = ok (false, self)
invalidate_queue true self = if self.invalid then ok (false, self) else do
  emptied ← destroy_loop (self.items + 1) self.front self
  ok (true, record emptied { invalid = true })
