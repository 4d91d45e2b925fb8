-- ===== src/CommandQueue/Locked/Linear.antt =====
-- What the mutex of command_queue.c gives the threads that share a queue.
use mogakso.CommandQueue.Locked.Keeping.{at-Inside}
use mogakso.CommandQueue.Lifetime.{queue_is_empty-contents}
use mogakso.CommandQueue.Locked.{
  Point, pop_empty, pop_first, checked, crashed, Memory, Users, whole, by_thread, Reachable,
  unshared, and_then,
}
use mogakso.CommandQueue.Locked.Moves.{move-Keeps}
use mogakso.CommandQueue.{CommandQueue, queue_is_empty}
use mogakso.Common.{ℕ, ◌≡◌, refl, ap, subst, ◌≢◌, ◌↔◌, true, Option, none, List, [], ◌++◌}
use mogakso.CommandQueue.Locked.Invariant.{OwnsNode, holds, Keeps}
use mogakso.CommandQueue.Chain.{IsQueue, contents}
use mogakso.CommandQueue.Nodes.{Store}

module _ {D : Type 0} where
  -- What a thread has found out about what is linked.
  abbrev pub Sees : List (Option D) → Point D → Type 0
  Sees ds pop_empty = ds ≡ []
  Sees ds (pop_first p) = ds ≢ []
  Sees ds (checked empty) = (empty ≡ true) ↔ (ds ≡ [])
  Sees ds crashed = ⊥
  Sees ds _ = Unit

  sees :
      (m : Memory D) (points : ℕ → Point D) (i : ℕ) (p : Point D)
      → points i ≡ p
      → Keeps m points
      → Sees (contents m.cells) p
  unfolding queue_is_empty
  sees m points i pop_empty at inv = ap contents (at-Inside m points i pop_empty at refl inv).1
  sees m points i (pop_first p) at inv =
      let (is, (d, ds, found)) = at-Inside m points i (pop_first p) at refl inv in
      λ z. cc (ap contents found, z)
  sees m points i (checked empty) at inv =
      let (is, e) = at-Inside m points i (checked empty) at refl inv in
      rw e (queue_is_empty-contents m.store m.queue m.cells is)
  sees m points i crashed at inv = subst (OwnsNode m.store (whole m)) at (inv.nodes i)
  sees m points i p at inv = tt

  pub Reachable-Keeps :
      {s : Store D} {q : CommandQueue} {t : Users D} → Reachable s q t → Keeps t.mem t.points
  Reachable-Keeps (unshared is) = record {
    locked = λ i e. cc;
    shape = is;
    nodes = λ i. tt;
    distinct = λ i j a e f. cc;
    order = refl;
  }
  Reachable-Keeps (and_then {t} r (by_thread i mv)) =
      move-Keeps t.mem t.points i (t.points i) mv refl (Reachable-Keeps r)

  -- However the statements of any number of threads interleave, at most one thread is between
  -- `pthread_mutex_lock` and `pthread_mutex_unlock`.
  pub Reachable-exclusive :
      {s : Store D} {q : CommandQueue} {t : Users D}
      → Reachable s q t
      → (i j : ℕ) → holds (t.points i) ≡ true
      → holds (t.points j) ≡ true
      → i ≡ j
  Reachable-exclusive {t} r i j hi hj =
      let inv = Reachable-Keeps r in cc (inv.locked i hi, inv.locked j hj)

  -- However they interleave, the data that were popped and those still linked are together those
  -- that were pushed, each once and in order; `queue_pop` finds no first node, and `queue_is_empty`
  -- answers true, exactly if none is linked at that moment; and no thread uses a node that is not
  -- there, or gives one back twice.
  pub Reachable-linear :
      {s : Store D} {q : CommandQueue} {t : Users D}
      → Reachable s q t
      → (t.mem.popped ++ contents t.mem.cells ≡ t.mem.pushed)
        × ((i : ℕ) → Sees (contents t.mem.cells) (t.points i))
  Reachable-linear {t} r =
      let inv = Reachable-Keeps r in (inv.order, λ i. sees t.mem t.points i (t.points i) refl inv)

  -- Whenever the mutex is free, the queue in the heap is well formed and holds what was pushed and
  -- not popped.
  pub Reachable-settled :
      {s : Store D} {q : CommandQueue} {t : Users D}
      → Reachable s q t
      → t.mem.owner ≡ none
      → IsQueue t.mem.store t.mem.queue t.mem.cells
        × (t.mem.popped ++ contents t.mem.cells ≡ t.mem.pushed)
  Reachable-settled {t} r free = let inv = Reachable-Keeps r in (rw free at inv.shape, inv.order)
