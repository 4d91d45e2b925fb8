-- ===== src/Server/HeapQueue.antt =====
-- The queue of command_queue.c as the server uses it: `queue_push`, `queue_pop` and `queue_is_empty`
-- on a queue of commands in the heap meet the interface `Fifo`.
use mogakso.Common.{
  ◌==◌, if◌then◌else◌, eq→==, Bool-cases, List-cases, done, ◌≡◌, refl, ap, subst, ◌≢◌, ◌↔◌, ◌⊎◌,
  inl, inr, Bool, true, false, Option, none, some, List, [], ◌∷◌, ◌++◌,
}
use mogakso.CommandQueue.Fifo.{queue_push-IsQueue, queue_pop-nil, queue_pop-cons}
use mogakso.CommandQueue.Lifetime.{queue_is_empty-contents}
use mogakso.Server.State.{Fifo}
use mogakso.Command.{Command}
use mogakso.CommandQueue.{CommandQueue, queue_push, queue_pop, queue_is_empty}
use mogakso.CommandQueue.Chain.{Cells, IsQueue, contents}
use mogakso.CommandQueue.Nodes.{Ptr, null, Store}

-- `calloc` of a node gives an unused address, or NULL.
pub record Allocator : Type 0 where
  pub fresh : Store Command → Ptr
  pub fresh_unused : (s : Store Command) → fresh s ≢ null → s (fresh s) ≡ none

abbrev pub cells_of : List (Ptr × Command) → Cells Command
cells_of [] = []
cells_of ((p, c) ∷ items) = (p, some c) ∷ cells_of items

abbrev pub commands_of : List (Ptr × Command) → List Command
commands_of [] = []
commands_of ((p, c) ∷ items) = c ∷ commands_of items

-- A heap with a well-formed queue that holds these commands.
pub record HeapQueue : Type 0 where
  pub store : Store Command
  pub queue : CommandQueue
  pub items : List (Ptr × Command)
  pub is_queue : IsQueue store queue (cells_of items)

pub cells_of-append :
    (items : List (Ptr × Command)) (p : Ptr) (c : Command)
    → cells_of items ++ (p, some c) ∷ [] ≡ cells_of (items ++ (p, c) ∷ [])
cells_of-append [] p c = refl
cells_of-append ((q, d) ∷ items) p c = ap (◌∷◌ (q, some d)) (cells_of-append items p c)

commands_of-append :
    (items : List (Ptr × Command)) (p : Ptr) (c : Command)
    → commands_of (items ++ (p, c) ∷ []) ≡ commands_of items ++ c ∷ []
commands_of-append [] p c = refl
commands_of-append ((q, d) ∷ items) p c = ap (◌∷◌ d) (commands_of-append items p c)

-- What a pop takes from these commands, and what it leaves of them.
abbrev pub Takes : List Command → Option Command → List Command → Type 0
Takes [] taken left = (taken ≡ none) × (left ≡ [])
Takes (c ∷ cs) taken left = (taken ≡ some c) × (left ≡ cs)

module _ (a : Allocator) where
  -- What `queue_push` leaves, by whether the allocation failed.
  heap_push_by :
      (h : HeapQueue) (c : Command) (failed : Bool) → (a.fresh h.store == null) ≡ failed → HeapQueue
  heap_push_by h c true e = h
  heap_push_by h c false e =
      let ne : a.fresh h.store ≢ null = λ z. cc (eq→== (a.fresh h.store) null z, e) in
      let (s', q', ran, is') =
        queue_push-IsQueue h.store h.queue (cells_of h.items) (some c) (a.fresh h.store) h.is_queue
          ne (a.fresh_unused h.store ne) in
      record {
        store = s';
        queue = q';
        items = h.items ++ (a.fresh h.store, c) ∷ [];
        is_queue = subst (IsQueue s' q') (cells_of-append h.items (a.fresh h.store) c) is';
      }

  unfoldable pub heap_push : HeapQueue → Command → HeapQueue
  unfolding heap_push_by
  heap_push h c = heap_push_by h c (a.fresh h.store == null) refl

  -- What `queue_pop` leaves.
  heap_pop_items :
      (s : Store Command) (q : CommandQueue) (items : List (Ptr × Command))
      → IsQueue s q (cells_of items)
      → Option Command × HeapQueue
  heap_pop_items s q [] is = (none, record { store = s; queue = q; items = []; is_queue = is })
  heap_pop_items s q ((p, c) ∷ items) is =
      let (s', q', ran, is', freed) = queue_pop-cons s q p (some c) (cells_of items) is in
      (some c, record { store = s'; queue = q'; items = items; is_queue = is' })

  unfoldable pub heap_pop : HeapQueue → Option Command × HeapQueue
  unfolding heap_pop_items
  heap_pop h = heap_pop_items h.store h.queue h.items h.is_queue

unfoldable pub heap_is_empty : HeapQueue → Bool
heap_is_empty h = queue_is_empty (some h.queue)

module _ (a : Allocator) where
  heap_push_by-runs :
      (h : HeapQueue) (c : Command) (failed : Bool) (e : (a.fresh h.store == null) ≡ failed)
      → queue_push (some h.queue) (some c) (a.fresh h.store) h.store
        ≡ done ((heap_push_by a h c failed e).store, some (heap_push_by a h c failed e).queue)
  unfolding heap_push_by queue_push
  heap_push_by-runs h c true e = rw e
  heap_push_by-runs h c false e =
      let ne : a.fresh h.store ≢ null = λ z. cc (eq→== (a.fresh h.store) null z, e) in
      (queue_push-IsQueue h.store h.queue (cells_of h.items) (some c) (a.fresh h.store) h.is_queue
        ne (a.fresh_unused h.store ne)).2

  heap_pop_items-runs :
      (s : Store Command) (q : CommandQueue) (items : List (Ptr × Command))
      (is : IsQueue s q (cells_of items))
      → queue_pop (some q) s
        ≡ done (
          (heap_pop_items a s q items is).0,
          (heap_pop_items a s q items is).1.store,
          some (heap_pop_items a s q items is).1.queue,
        )
  unfolding heap_pop_items
  heap_pop_items-runs s q [] is = queue_pop-nil s q is
  heap_pop_items-runs s q ((p, c) ∷ items) is =
      (queue_pop-cons s q p (some c) (cells_of items) is).2

  heap_push_by-contents :
      (h : HeapQueue) (c : Command) (failed : Bool) (e : (a.fresh h.store == null) ≡ failed)
      → (commands_of (heap_push_by a h c failed e).items ≡ commands_of h.items ++ c ∷ [])
        ⊎ (commands_of (heap_push_by a h c failed e).items ≡ commands_of h.items)
  unfolding heap_push_by
  heap_push_by-contents h c true e = inr refl
  heap_push_by-contents h c false e = inl (commands_of-append h.items (a.fresh h.store) c)

  pub heap_push-contents :
      (h : HeapQueue) (c : Command)
      → (commands_of (heap_push a h c).items ≡ commands_of h.items ++ c ∷ [])
        ⊎ (commands_of (heap_push a h c).items ≡ commands_of h.items)
  unfolding heap_push
  heap_push-contents h c = heap_push_by-contents h c (a.fresh h.store == null) refl

  pop_items-nil :
      (s : Store Command) (q : CommandQueue) (items : List (Ptr × Command))
      (is : IsQueue s q (cells_of items))
      → commands_of items ≡ []
      → (heap_pop_items a s q items is).0 ≡ none
  unfolding heap_pop_items
  pop_items-nil s q [] is e = refl
  pop_items-nil s q ((p, c) ∷ items) is e = cc

  pop_items-cons :
      (s : Store Command) (q : CommandQueue) (items : List (Ptr × Command))
      (is : IsQueue s q (cells_of items)) (c : Command) (cs : List Command)
      → commands_of items ≡ c ∷ cs
      → ((heap_pop_items a s q items is).0 ≡ some c)
        × (commands_of (heap_pop_items a s q items is).1.items ≡ cs)
  unfolding heap_pop_items
  pop_items-cons s q [] is c cs e = cc
  pop_items-cons s q ((p, d) ∷ items) is c cs e = (cc, cc)

  pub heap_pop-nil : (h : HeapQueue) → commands_of h.items ≡ [] → (heap_pop a h).0 ≡ none
  unfolding heap_pop
  heap_pop-nil h e = pop_items-nil h.store h.queue h.items h.is_queue e

  pub heap_pop-cons :
      (h : HeapQueue) (c : Command) (cs : List Command)
      → commands_of h.items ≡ c ∷ cs
      → ((heap_pop a h).0 ≡ some c) × (commands_of (heap_pop a h).1.items ≡ cs)
  unfolding heap_pop
  heap_pop-cons h c cs e = pop_items-cons h.store h.queue h.items h.is_queue c cs e

  -- The contents of an empty queue.
  heap_empty : (h : HeapQueue) → (heap_is_empty h ≡ true) ↔ (contents (cells_of h.items) ≡ [])
  unfolding heap_is_empty
  heap_empty h = queue_is_empty-contents h.store h.queue (cells_of h.items) h.is_queue

  pub heap_empty-nil : (h : HeapQueue) → commands_of h.items ≡ [] → heap_is_empty h ≡ true
  heap_empty-nil h e = (heap_empty h).1 (no_items h.items e)
    where
      no_items :
          (items : List (Ptr × Command)) → commands_of items ≡ [] → contents (cells_of items) ≡ []
      no_items [] e = refl
      no_items ((p, c) ∷ items) e = cc

  pub heap_empty-cons :
      (h : HeapQueue) (c : Command) (cs : List Command)
      → commands_of h.items ≡ c ∷ cs
      → heap_is_empty h ≡ false
  heap_empty-cons h c cs e = elim (Bool-cases (heap_is_empty h)) [
    | inr other ↦ other
    | inl empty ↦ absurd (some_item h.items e ((heap_empty h).0 empty))
  ]
    where
      some_item :
          (items : List (Ptr × Command))
          → commands_of items ≡ c ∷ cs
          → contents (cells_of items) ≢ []
      some_item [] e z = cc
      some_item ((p, d) ∷ items) e z = cc

  push_by-exactly :
      (h : HeapQueue) (c : Command) (failed : Bool) (e : (a.fresh h.store == null) ≡ failed)
      → commands_of (heap_push_by a h c failed e).items
        ≡ (if failed then commands_of h.items else commands_of h.items ++ c ∷ [])
  unfolding heap_push_by
  push_by-exactly h c true e = refl
  push_by-exactly h c false e = commands_of-append h.items (a.fresh h.store) c

  pop_items-Takes :
      (s : Store Command) (q : CommandQueue) (items : List (Ptr × Command))
      (is : IsQueue s q (cells_of items))
      → Takes
          (commands_of items)
          (heap_pop_items a s q items is).0
          (commands_of (heap_pop_items a s q items is).1.items)
  unfolding heap_pop_items
  pop_items-Takes s q [] is = (refl, refl)
  pop_items-Takes s q ((p, c) ∷ items) is = (refl, refl)

  is_empty-exactly :
      (h : HeapQueue) → (queue_is_empty (some h.queue) ≡ true) ↔ (commands_of h.items ≡ [])
  unfolding heap_is_empty
  is_empty-exactly h = (
    λ e. elim (List-cases (commands_of h.items)) [
      | inl nil ↦ nil
      | inr (c, cs, z) ↦ absurd (cc (heap_empty-cons h c cs z, e))
    ],
    heap_empty-nil h,
  )

  -- On a well-formed queue in the heap that holds some commands, none of the operations of
  -- command_queue.c faults. `queue_push`, with the address that `calloc` gives, leaves a well-formed
  -- queue with the command behind the others, or, where `calloc` gave NULL, with the same commands.
  -- `queue_pop` returns the first command and leaves a well-formed queue with the others, or NULL if
  -- there is none. `queue_is_empty` is true exactly if there is none.
  pub heap_queue-runs :
      (h : HeapQueue) (c : Command)
      → (pushed : HeapQueue) × (taken : Option Command) × (popped : HeapQueue) × (queue_push
            (some h.queue)
            (some c)
            (a.fresh h.store)
            h.store
          ≡ done (pushed.store, some pushed.queue))
        × (commands_of pushed.items ≡ (
            if a.fresh h.store == null then commands_of h.items else commands_of h.items ++ c ∷ []))
        × (queue_pop (some h.queue) h.store ≡ done (taken, popped.store, some popped.queue))
        × Takes (commands_of h.items) taken (commands_of popped.items)
        × ((queue_is_empty (some h.queue) ≡ true) ↔ (commands_of h.items ≡ []))
  unfolding heap_push heap_pop
  heap_queue-runs h c = (
    heap_push a h c,
    (heap_pop a h).0,
    (heap_pop a h).1,
    heap_push_by-runs h c (a.fresh h.store == null) refl,
    push_by-exactly h c (a.fresh h.store == null) refl,
    heap_pop_items-runs h.store h.queue h.items h.is_queue,
    pop_items-Takes h.store h.queue h.items h.is_queue,
    is_empty-exactly h,
  )

  -- The heap queue behind the server's interface.
  abbrev pub heap_fifo : Fifo HeapQueue
  heap_fifo = record {
    push = heap_push a;
    pop = heap_pop a;
    is_empty = heap_is_empty;
    contents = λ h. commands_of h.items;
    push_lem = heap_push-contents;
    pop_nil = heap_pop-nil;
    pop_cons = heap_pop-cons;
    is_empty_nil = heap_empty-nil;
    is_empty_cons = heap_empty-cons;
  }
