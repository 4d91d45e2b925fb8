-- ===== src/CommandQueue.antt =====
-- C_chat_lib/common/src/command_queue.c: a singly linked queue with a dummy head node.
--
-- The heap is explicit. A pointer is a number, 0 is NULL; `void* data` is an `Option`. What the
-- allocator answers is an argument of each operation that allocates: an unused address, or 0. Each
-- operation holds the queue's mutex from its first access to its last, and is one step here; Locked
-- has its statements one by one.
pub mod Nodes
pub mod Chain
pub mod Fifo
pub mod Lifetime
pub mod Locked
use mogakso.Common.{
  ◌==◌, if◌then◌else◌, Run, done, out_of_fuel, ◌>>=◌, ℕ, zero, suc, ◌+◌, ◌-◌, Bool, true, not, ◌||◌,
  Option, none, some, List, [], ◌∷◌,
}
use mogakso.CommandQueue.Nodes.{Ptr, null, Store, write, load}

pub record CommandQueue : Type 0 where
  pub fake_head : Ptr
  pub tail : Ptr
  pub size : ℕ

module _ {D : Type 0} where
  -- `calloc` of the queue, `calloc` of the dummy node, `pthread_mutex_init`.
  unfoldable pub queue_create :
      (queue_given : Bool) (dummy : Ptr) (mutex_ok : Bool) → Store D → Store D × Option CommandQueue
  queue_create queue_given dummy mutex_ok s =
      if not queue_given || dummy == null
      then (s, none)
      else if mutex_ok
      then (
        write s dummy (some (record { item = none; link = null })),
        some (record { fake_head = dummy; tail = dummy; size = 1 }),
      )
      else (write s dummy none, none)

  -- The node is filled before it is linked behind the tail.
  unfoldable pub queue_push :
      Option CommandQueue → Option D → (fresh : Ptr) → Store D → Run (Store D × Option CommandQueue)
  queue_push none d fresh s = done (s, none)
  queue_push (some q) d fresh s = if fresh == null then done (s, some q) else do
    let s1 = write s fresh (some (record { item = d; link = null }))
    last ← load s1 q.tail
    done (
      write s1 q.tail (some (record last { link = fresh })),
      some (record q { tail = fresh; size = q.size + 1 }),
    )

  -- The first node is unlinked and given back; its data is the result.
  unfoldable pub queue_pop :
      Option CommandQueue → Store D → Run (Option D × Store D × Option CommandQueue)
  queue_pop none s = done (none, s, none)
  queue_pop (some q) s = do
    head ← load s q.fake_head
    if head.link == null then done (none, s, some q) else do
      first ← load s head.link
      let s1 = write s q.fake_head (some (record head { link = first.link }))
      let tail' = if q.tail == head.link then q.fake_head else q.tail
      done
          (first.item, write s1 head.link none, some (record q { tail = tail'; size = q.size - 1 }))

unfoldable pub queue_is_empty : Option CommandQueue → Bool
queue_is_empty none = true
queue_is_empty (some q) = q.size == 1

module _ {D : Type 0} where
  -- What `data_destroy_func` is called on for one node.
  abbrev pub destroys : Option D → List D → List D
  destroys none ds = ds
  destroys (some d) ds = d ∷ ds

  -- Every node is freed, the dummy included, on fuel; the result lists the data that were
  -- destroyed, in the order of the calls.
  pub destroy_loop : ℕ → Ptr → Store D → Run (List D × Store D)
  destroy_loop zero current s = out_of_fuel
  destroy_loop (suc fuel) current s = if current == null then done ([], s) else do
    node ← load s current
    (ds, s') ← destroy_loop fuel node.link (write s current none)
    done (destroys node.item ds, s')

  -- `queue_destroy(q, destroy)` with a destroy function; a chain has `size` nodes.
  unfoldable pub queue_destroy : Option CommandQueue → Store D → Run (List D × Store D)
  queue_destroy none s = done ([], s)
  queue_destroy (some q) s = destroy_loop (q.size + 1) q.fake_head s
