-- ===== src/CommandQueue/Locked/Frame.antt =====
-- What a statement of one thread leaves as it was for the others.
use mogakso.CommandQueue.Locked.{
  Point, outside, filled, push_locked, push_linked, push_moved, push_counted, pop_locked, pop_empty,
  pop_first, pop_data, pop_unlinked, pop_counted, pop_moved, pop_unlocked, check_locked, checked,
  crashed, unused,
}
use mogakso.CommandQueue.{CommandQueue}
use mogakso.Common.{
  ◌==◌, if◌then◌else◌, eq→==, Bool-cases, ℕ, ◌≡◌, refl, ap, subst, ◌≢◌, ◌⊎◌, inl, inr, true, false,
  Option, none, some, ◌∷◌, arith,
}
use mogakso.CommandQueue.Locked.Invariant.{owned, OwnsNode, holds, Inside, AtOwner}
use mogakso.CommandQueue.Chain.{Cells, has, IsQueue, frame-write, unused-has}
use mogakso.CommandQueue.Nodes.{Ptr, Node, Store, write}

module _ {D : Type 0} where
  abbrev pub put : (ℕ → Point D) → ℕ → Point D → ℕ → Point D
  put points i p j = if i == j then p else points j

  pub put-cases :
      (points : ℕ → Point D) (i : ℕ) (p : Point D) (j : ℕ)
      → ((i ≡ j) × (put points i p j ≡ p)) ⊎ ((i ≢ j) × (put points i p j ≡ points j))
  put-cases points i p j = elim (Bool-cases (i == j)) [
    | inl same ↦ inl (ground arith, rw same)
    | inr other ↦ inr (ground arith, rw other)
  ]

  pub put-same : (points : ℕ → Point D) (i : ℕ) (p : Point D) → put points i p i ≡ p
  put-same points i p = rw (eq→== i i refl)

  -- A node that is there and not linked.
  abbrev Apart : Store D → Cells D → Ptr → Type 0
  Apart s cs a = (n : Node D) × (s a ≡ some n) × (has a cs ≡ false)

  same-Apart :
      (s : Store D) (cs : Cells D) (p a : Ptr) → Apart s cs p → some p ≡ some a → Apart s cs a
  same-Apart s cs p a h e = let same : p ≡ a = cc in subst (Apart s cs) same h

  -- The node that a thread alone knows is one.
  pub owned-there :
      (s : Store D) (cs : Cells D) (pt : Point D) (a : Ptr)
      → OwnsNode s cs pt
      → owned pt ≡ some a
      → Apart s cs a
  owned-there s cs (filled p d) a h e = same-Apart s cs p a (_, h.1, h.2) e
  owned-there s cs (push_locked p d) a h e = same-Apart s cs p a (_, h.1, h.2) e
  owned-there s cs (pop_unlinked p d) a h e = same-Apart s cs p a h e
  owned-there s cs (pop_counted p d) a h e = same-Apart s cs p a h e
  owned-there s cs (pop_moved p d) a h e = same-Apart s cs p a h e
  owned-there s cs (pop_unlocked p d) a h e = same-Apart s cs p a h e
  owned-there s cs pt a h e = absurd (cc e)

  pub OwnsNode-frame :
      (s s' : Store D) (cs cs' : Cells D) (pt : Point D)
      → ((a : Ptr) (n : Node D)
          → owned pt ≡ some a
          → s a ≡ some n
          → has a cs ≡ false
          → (s' a ≡ some n) × (has a cs' ≡ false))
      → OwnsNode s cs pt
      → OwnsNode s' cs' pt
  OwnsNode-frame s s' cs cs' (filled p d) f h = let (e, out) = f p _ refl h.1 h.2 in (h.0, e, out)
  OwnsNode-frame s s' cs cs' (push_locked p d) f h =
      let (e, out) = f p _ refl h.1 h.2 in (h.0, e, out)
  OwnsNode-frame s s' cs cs' (pop_unlinked p d) f (n, e, out) =
      (let (e', out') = f p n refl e out in (n, e', out'))
  OwnsNode-frame s s' cs cs' (pop_counted p d) f (n, e, out) =
      (let (e', out') = f p n refl e out in (n, e', out'))
  OwnsNode-frame s s' cs cs' (pop_moved p d) f (n, e, out) =
      (let (e', out') = f p n refl e out in (n, e', out'))
  OwnsNode-frame s s' cs cs' (pop_unlocked p d) f (n, e, out) =
      (let (e', out') = f p n refl e out in (n, e', out'))
  OwnsNode-frame s s' cs cs' pt f h = h

  IsQueue-frame :
      {s : Store D} {q : CommandQueue} {cs : Cells D} (a : Ptr) (c : Option (Node D))
      → has a ((q.fake_head, none) ∷ cs) ≡ false
      → IsQueue s q cs
      → IsQueue (write s a c) q cs
  IsQueue-frame a c out is = record { chain = frame-write a c out is.chain; count = is.count }

  Inside-frame :
      (s : Store D) (q : CommandQueue) (cs : Cells D) (pt : Point D) (a : Ptr) (c : Option (Node D))
      → has a ((q.fake_head, none) ∷ cs) ≡ false
      → Inside s q cs pt
      → Inside (write s a c) q cs pt
  Inside-frame s q cs (push_locked p d) a c out h = IsQueue-frame a c out h
  Inside-frame s q cs (push_linked p d) a c out h = IsQueue-frame a c out h
  Inside-frame s q cs (push_moved p d) a c out h = IsQueue-frame a c out h
  Inside-frame s q cs (push_counted p d) a c out h = IsQueue-frame a c out h
  Inside-frame s q cs pop_locked a c out h = IsQueue-frame a c out h
  Inside-frame s q cs pop_empty a c out h = (IsQueue-frame a c out h.0, h.1)
  Inside-frame s q cs (pop_first p) a c out h = (IsQueue-frame a c out h.0, h.1)
  Inside-frame s q cs (pop_data p d) a c out h = (IsQueue-frame a c out h.0, h.1)
  Inside-frame s q cs (pop_unlinked p d) a c out h = IsQueue-frame a c out h
  Inside-frame s q cs (pop_counted p d) a c out h = IsQueue-frame a c out h
  Inside-frame s q cs (pop_moved p d) a c out h = IsQueue-frame a c out h
  Inside-frame s q cs check_locked a c out h = IsQueue-frame a c out h
  Inside-frame s q cs (checked b) a c out h = (IsQueue-frame a c out h.0, h.1)
  Inside-frame s q cs pt a c out h = absurd h

  -- An unused address is none of the queue's, whatever the thread inside has written.
  IsQueue-unused :
      {s : Store D} {q : CommandQueue} {cs : Cells D} (a : Ptr)
      → s a ≡ none
      → IsQueue s q cs
      → has a ((q.fake_head, none) ∷ cs) ≡ false
  IsQueue-unused a unused is = unused-has a unused is.chain

  Inside-unused :
      (s : Store D) (q : CommandQueue) (cs : Cells D) (pt : Point D) (a : Ptr)
      → s a ≡ none
      → Inside s q cs pt
      → has a ((q.fake_head, none) ∷ cs) ≡ false
  Inside-unused s q cs pop_empty a e h = IsQueue-unused a e h.0
  Inside-unused s q cs (pop_first p) a e h = IsQueue-unused a e h.0
  Inside-unused s q cs (pop_data p d) a e h = IsQueue-unused a e h.0
  Inside-unused s q cs (checked b) a e h = IsQueue-unused a e h.0
  Inside-unused s q cs outside a e h = absurd h
  Inside-unused s q cs (filled _ _) a e h = absurd h
  Inside-unused s q cs (pop_unlocked _ _) a e h = absurd h
  Inside-unused s q cs crashed a e h = absurd h
  Inside-unused s q cs pt a e h = unused-has a e h.chain

  pub AtOwner-frame :
      (s : Store D) (q : CommandQueue) (cs : Cells D) (owner : Option ℕ) (points : ℕ → Point D)
      (a : Ptr) (c : Option (Node D))
      → has a ((q.fake_head, none) ∷ cs) ≡ false
      → AtOwner owner s q cs points
      → AtOwner owner (write s a c) q cs points
  AtOwner-frame s q cs none points a c out h = IsQueue-frame a c out h
  AtOwner-frame s q cs (some i) points a c out h = Inside-frame s q cs (points i) a c out h

  pub AtOwner-unused :
      (s : Store D) (q : CommandQueue) (cs : Cells D) (owner : Option ℕ) (points : ℕ → Point D)
      (a : Ptr)
      → s a ≡ none
      → AtOwner owner s q cs points
      → has a ((q.fake_head, none) ∷ cs) ≡ false
  AtOwner-unused s q cs none points a e h = IsQueue-unused a e h
  AtOwner-unused s q cs (some i) points a e h = Inside-unused s q cs (points i) a e h

  Inside-holds :
      (s : Store D) (q : CommandQueue) (cs : Cells D) (pt : Point D)
      → Inside s q cs pt
      → holds pt ≡ true
  Inside-holds s q cs outside h = absurd h
  Inside-holds s q cs (filled _ _) h = absurd h
  Inside-holds s q cs (pop_unlocked _ _) h = absurd h
  Inside-holds s q cs crashed h = absurd h
  Inside-holds s q cs pt h = refl

  -- A thread outside the critical section moves on.
  pub AtOwner-put :
      (s : Store D) (q : CommandQueue) (cs : Cells D) (owner : Option ℕ) (points : ℕ → Point D)
      (i : ℕ) (p : Point D)
      → holds (points i) ≡ false
      → AtOwner owner s q cs points
      → AtOwner owner s q cs (put points i p)
  AtOwner-put s q cs none points i p free h = h
  AtOwner-put s q cs (some j) points i p free h = elim (put-cases points i p j) [
    | inl (same, e) ↦ absurd (cc (ap points same, Inside-holds s q cs (points j) h, free))
    | inr (other, e) ↦ rw e h
  ]
