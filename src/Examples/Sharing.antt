-- ===== src/Examples/Sharing.antt =====
-- Three threads that share a queue, statement by statement.
use mogakso.CommandQueue.Locked.Invariant.{holds}
use mogakso.CommandQueue.Locked.Linear.{
  Sees, Reachable-exclusive, Reachable-linear, Reachable-settled,
}
use mogakso.CommandQueue.Chain.{last, IsQueue, contents}
use mogakso.CommandQueue.Nodes.{null, Store, write}
use mogakso.CommandQueue.{CommandQueue}
use mogakso.Common.{◌==◌, if◌then◌else◌, ℕ, ◌≡◌, refl, ap, none, some, [], ◌∷◌, ◌++◌, arith}
use mogakso.CommandQueue.Locked.{
  pop_unlinked, Users, calloc_node, push_lock, link_node, move_tail, count_up, push_unlock,
  pop_lock, read_first, read_null, null_unlock, read_data, unlink, by_thread, Reachable, unshared,
  and_then,
}

-- A queue that `queue_create` has made, its dummy at 10.
abbrev only_dummy : Store ℕ
only_dummy a = if a == 10 then some (record { item = none; link = null }) else none

abbrev new_queue : CommandQueue
new_queue = record { fake_head = 10; tail = 10; size = 1 }

new_queue-IsQueue : IsQueue only_dummy new_queue []
new_queue-IsQueue = record { chain = last (λ e. absurd (omega arith)) refl; count = refl }

abbrev Run : Users ℕ → Type 0
Run t = Reachable only_dummy new_queue t

-- Thread 1 finds nothing to pop, thread 0 pushes 5 while thread 2 has filled a node, and thread 1
-- has unlinked the 5.
half_popped :
    (t : Users ℕ) × Run t × (t.points 1 ≡ pop_unlinked 20 (some 5)) × (t.mem.popped ≡ some 5 ∷ [])
unfolding write
half_popped =
    let r0 : Run _ = unshared new_queue-IsQueue in
    let r1 = and_then r0 (by_thread 0 (calloc_node (some 5) 20 (λ e. absurd (omega arith)) refl)) in
    let r2 = and_then r1 (by_thread 1 (pop_lock refl)) in
    let r3 = and_then r2 (by_thread 2 (calloc_node (some 6) 30 (λ e. absurd (omega arith)) refl)) in
    let r4 = and_then r3 (by_thread 1 (read_null _ refl refl)) in
    let r5 = and_then r4 (by_thread 1 null_unlock) in
    let r6 = and_then r5 (by_thread 0 (push_lock refl)) in
    let r7 = and_then r6 (by_thread 0 (link_node _ refl)) in
    let r8 = and_then r7 (by_thread 0 move_tail) in
    let r9 = and_then r8 (by_thread 0 count_up) in
    let r10 = and_then r9 (by_thread 0 push_unlock) in
    let r11 = and_then r10 (by_thread 1 (pop_lock refl)) in
    let r12 = and_then r11 (by_thread 1 (read_first _ refl (λ e. absurd (omega arith)))) in
    let r13 = and_then r12 (by_thread 1 (read_data _ refl)) in
    (_, and_then r13 (by_thread 1 (unlink _ _ refl refl)), refl, refl)

Reachable-exclusive_example : ◌≡◌ {A = ℕ} 1 1
Reachable-exclusive_example =
    Reachable-exclusive half_popped.1 1 1 (ap holds half_popped.2) (ap holds half_popped.2)

Reachable-linear_example :
    (half_popped.0.mem.popped ++ contents half_popped.0.mem.cells ≡ half_popped.0.mem.pushed)
    × ((i : ℕ) → Sees (contents half_popped.0.mem.cells) (half_popped.0.points i))
Reachable-linear_example = Reachable-linear half_popped.1

-- Thread 0 alone pushes 5 and is done.
one_pushed : (t : Users ℕ) × Run t × (t.mem.owner ≡ none) × (t.mem.pushed ≡ some 5 ∷ [])
unfolding write
one_pushed =
    let r0 : Run _ = unshared new_queue-IsQueue in
    let r1 = and_then r0 (by_thread 0 (calloc_node (some 5) 20 (λ e. absurd (omega arith)) refl)) in
    let r2 = and_then r1 (by_thread 0 (push_lock refl)) in
    let r3 = and_then r2 (by_thread 0 (link_node _ refl)) in
    let r4 = and_then r3 (by_thread 0 move_tail) in
    let r5 = and_then r4 (by_thread 0 count_up) in
    (_, and_then r5 (by_thread 0 push_unlock), refl, refl)

Reachable-settled_example :
    IsQueue one_pushed.0.mem.store one_pushed.0.mem.queue one_pushed.0.mem.cells
    × (one_pushed.0.mem.popped ++ contents one_pushed.0.mem.cells ≡ one_pushed.0.mem.pushed)
Reachable-settled_example = Reachable-settled one_pushed.1 one_pushed.2
