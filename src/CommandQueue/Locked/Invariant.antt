-- ===== src/CommandQueue/Locked/Invariant.antt =====
-- What holds between the statements of the threads that share a queue.
use mogakso.CommandQueue.Locked.{
  Point, outside, filled, push_locked, push_linked, push_moved, push_counted, pop_locked, pop_empty,
  pop_first, pop_data, pop_unlinked, pop_counted, pop_moved, pop_unlocked, check_locked, checked,
  crashed, Memory, whole,
}
use mogakso.CommandQueue.{CommandQueue}
use mogakso.Common.{
  ◌==◌, if◌then◌else◌, ℕ, ◌+◌, ◌-◌, ◌≡◌, ◌≢◌, Bool, true, false, Option, none, some, [], ◌∷◌, ◌++◌,
}
use mogakso.CommandQueue.Chain.{Cells, has, IsQueue, contents}
use mogakso.CommandQueue.Nodes.{Ptr, null, Node, Store}

-- What the rest of `queue_pop` makes of the tail.
abbrev pub tail_back : CommandQueue → Ptr → CommandQueue
tail_back q p = record q { tail = if q.tail == p then q.fake_head else q.tail }

module _ {D : Type 0} where
  -- The node that a thread alone knows.
  abbrev pub owned : Point D → Option Ptr
  owned (filled p d) = some p
  owned (push_locked p d) = some p
  owned (pop_unlinked p d) = some p
  owned (pop_counted p d) = some p
  owned (pop_moved p d) = some p
  owned (pop_unlocked p d) = some p
  owned _ = none

  -- Such a node is there and is not linked; before it is linked, it holds the data and no successor.
  abbrev pub OwnsNode : Store D → Cells D → Point D → Type 0
  OwnsNode s cs (filled p d) =
      (p ≢ null) × (s p ≡ some (record { item = d; link = null })) × (has p cs ≡ false)
  OwnsNode s cs (push_locked p d) =
      (p ≢ null) × (s p ≡ some (record { item = d; link = null })) × (has p cs ≡ false)
  OwnsNode s cs (pop_unlinked p d) = (n : Node D) × (s p ≡ some n) × (has p cs ≡ false)
  OwnsNode s cs (pop_counted p d) = (n : Node D) × (s p ≡ some n) × (has p cs ≡ false)
  OwnsNode s cs (pop_moved p d) = (n : Node D) × (s p ≡ some n) × (has p cs ≡ false)
  OwnsNode s cs (pop_unlocked p d) = (n : Node D) × (s p ≡ some n) × (has p cs ≡ false)
  OwnsNode s cs crashed = ⊥
  OwnsNode s cs _ = Unit

  -- The points at which a thread holds the mutex.
  abbrev pub holds : Point D → Bool
  holds outside = false
  holds (filled _ _) = false
  holds (pop_unlocked _ _) = false
  holds crashed = false
  holds _ = true

  -- What the thread that holds the mutex has made of the queue: the fields that it has not written
  -- yet are those that make it whole.
  abbrev pub Inside : Store D → CommandQueue → Cells D → Point D → Type 0
  Inside s q cs (push_locked p d) = IsQueue s q cs
  Inside s q cs (push_linked p d) = IsQueue s (record q { tail = p; size = q.size + 1 }) cs
  Inside s q cs (push_moved p d) = IsQueue s (record q { size = q.size + 1 }) cs
  Inside s q cs (push_counted p d) = IsQueue s q cs
  Inside s q cs pop_locked = IsQueue s q cs
  Inside s q cs pop_empty = IsQueue s q cs × (cs ≡ [])
  Inside s q cs (pop_first p) =
      IsQueue s q cs × ((d : Option D) × (ds : Cells D) × (cs ≡ (p, d) ∷ ds))
  Inside s q cs (pop_data p d) = IsQueue s q cs × ((ds : Cells D) × (cs ≡ (p, d) ∷ ds))
  Inside s q cs (pop_unlinked p d) = IsQueue s (record (tail_back q p) { size = q.size - 1 }) cs
  Inside s q cs (pop_counted p d) = IsQueue s (tail_back q p) cs
  Inside s q cs (pop_moved p d) = IsQueue s q cs
  Inside s q cs check_locked = IsQueue s q cs
  Inside s q cs (checked empty) = IsQueue s q cs × (empty ≡ (q.size == 1))
  Inside s q cs _ = ⊥

  -- By who holds the mutex.
  abbrev pub AtOwner : Option ℕ → Store D → CommandQueue → Cells D → (ℕ → Point D) → Type 0
  AtOwner none s q cs points = IsQueue s q cs
  AtOwner (some i) s q cs points = Inside s q cs (points i)

  pub record Keeps (m : Memory D) (points : ℕ → Point D) : Type 0 where
    pub locked : (i : ℕ) → holds (points i) ≡ true → m.owner ≡ some i
    pub shape : AtOwner m.owner m.store m.queue m.cells points
    pub nodes : (i : ℕ) → OwnsNode m.store (whole m) (points i)
    pub distinct :
        (i j : ℕ) (a : Ptr) → owned (points i) ≡ some a → owned (points j) ≡ some a → i ≡ j
    pub order : m.popped ++ contents m.cells ≡ m.pushed
