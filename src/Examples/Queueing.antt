-- ===== src/Examples/Queueing.antt =====
-- The queue in the heap, and the commands, at concrete inputs.
use mogakso.Server.HeapQueue.{Allocator, commands_of, HeapQueue, Takes, heap_queue-runs}
use mogakso.CommandQueue.Fifo.{queue_pop-cons}
use mogakso.Command.{Command, send_message}
use mogakso.CommandQueue.{CommandQueue, queue_push, queue_pop, queue_is_empty, queue_destroy}
use mogakso.CommandQueue.Chain.{has, last, more, IsQueue, contents}
use mogakso.CommandQueue.Nodes.{Ptr, null, Node, Store}
use mogakso.CommandQueue.Lifetime.{present, queue_destroy-Destroys}
use mogakso.Common.{
  ◌==◌, if◌then◌else◌, Option-cases, pos, done, ℕ, ◌≡◌, refl, ap, ◌↔◌, inl, inr, true, false,
  Option, none, some, List, [], ◌∷◌, arith,
}

abbrev nothing_held : Store ℕ
nothing_held a = none

-- A dummy at 10 and one node at 20 that holds 5.
abbrev one_node : Store ℕ
one_node a =
    if a == 10
    then some (record { item = none; link = 20 })
    else if a == 20
    then some (record { item = some 5; link = null })
    else none

abbrev one_queue : CommandQueue
one_queue = record { fake_head = 10; tail = 20; size = 2 }

one_queue-IsQueue : IsQueue one_node one_queue ((20, some 5) ∷ [])
one_queue-IsQueue = record {
  chain = more (λ e. absurd (omega arith)) refl refl (last (λ e. absurd (omega arith)) refl);
  count = refl;
}

queue_pop-cons_example :
    (s' : Store ℕ) × (q' : CommandQueue) × (queue_pop (some one_queue) one_node
      ≡ done (some 5, s', some q'))
    × IsQueue s' q' []
    × (s' 20 ≡ none)
queue_pop-cons_example = queue_pop-cons one_node one_queue 20 (some 5) [] one_queue-IsQueue

queue_destroy-Destroys_example :
    (s' : Store ℕ) × (queue_destroy (some one_queue) one_node
      ≡ done (present (contents {D = ℕ} ((20, some 5) ∷ [])), s'))
    × ((a : ℕ) → has {D = ℕ} a ((10, none) ∷ (20, some 5) ∷ []) ≡ true → s' a ≡ none)
    × ((a : ℕ) → has {D = ℕ} a ((10, none) ∷ (20, some 5) ∷ []) ≡ false → s' a ≡ one_node a)
queue_destroy-Destroys_example =
    queue_destroy-Destroys one_node one_queue ((20, some 5) ∷ []) one_queue-IsQueue

-- A heap of commands with an empty queue, and an allocator with one more node.
abbrev dummy_only : Store Command
dummy_only a = if a == 10 then some (record { item = none; link = null }) else none

abbrev pub empty_heap : HeapQueue
empty_heap = record {
  store = dummy_only;
  queue = record { fake_head = 10; tail = 10; size = 1 };
  items = [];
  is_queue = record { chain = last (λ e. absurd (omega arith)) refl; count = refl };
}

abbrev node_or_null : Option (Node Command) → Ptr
node_or_null none = 30
node_or_null (some n) = null

abbrev pub one_more : Allocator
one_more = record {
  fresh = λ s. node_or_null (s 30);
  fresh_unused = λ s ne. elim (Option-cases (s 30)) [
    | inl free ↦ rw free (free)
    | inr (n, used_up) ↦ absurd (ne (ap node_or_null used_up))
  ];
}

abbrev text_command : Command
text_command = send_message (pos 7) 1 (some (104 ∷ [])) 1

heap_queue-runs_example :
    (pushed : HeapQueue) × (taken : Option Command) × (popped : HeapQueue) × (queue_push
        (some empty_heap.queue)
        (some text_command)
        30
        empty_heap.store
      ≡ done (pushed.store, some pushed.queue))
    × (commands_of pushed.items ≡ text_command ∷ [])
    × (queue_pop (some empty_heap.queue) empty_heap.store
        ≡ done (taken, popped.store, some popped.queue))
    × Takes [] taken (commands_of popped.items)
    × ((queue_is_empty (some empty_heap.queue) ≡ true) ↔ (◌≡◌ {A = List Command} [] []))
heap_queue-runs_example = heap_queue-runs one_more empty_heap text_command
