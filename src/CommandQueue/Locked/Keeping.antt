-- ===== src/CommandQueue/Locked/Keeping.antt =====
-- A statement of one thread keeps what holds between the threads: what has to be shown for it.
use mogakso.Common.{ℕ, ◌≡◌, refl, sym, ◌∙◌, ◌≢◌, ◌⊎◌, inl, inr, true, false, none, some, ◌++◌}
use mogakso.CommandQueue.Locked.Invariant.{owned, OwnsNode, holds, Inside, AtOwner, Keeps}
use mogakso.CommandQueue.Locked.Frame.{put, put-cases, put-same, owned-there, OwnsNode-frame}
use mogakso.CommandQueue.Locked.{Point, Memory, whole, unused}
use mogakso.CommandQueue.Chain.{has, IsQueue, contents}
use mogakso.CommandQueue.Nodes.{Ptr, Node}

module _ {D : Type 0} where
  -- What a statement that takes a thread from one point to another does to the heap: the nodes that
  -- only other threads know stay as they are and are not linked, and the thread comes to know alone
  -- only a node that was unused, or linked.
  pub record Touches (m m' : Memory D) (p0 p' : Point D) : Type 0 where
    pub frame :
        (a : Ptr) (n : Node D)
        → m.store a ≡ some n
        → has a (whole m) ≡ false
        → owned p0 ≢ some a
        → (m'.store a ≡ some n) × (has a (whole m') ≡ false)
    pub gained :
        (a : Ptr)
        → owned p' ≡ some a
        → (owned p0 ≡ some a) ⊎ ((m.store a ≡ none) ⊎ (has a (whole m) ≡ true))
    pub own : OwnsNode m'.store (whole m') p'
    pub next_order : m'.popped ++ contents m'.cells ≡ m'.pushed

  module _ (m m' : Memory D) (points : ℕ → Point D) (i : ℕ) (p0 p' : Point D) (at : points i ≡ p0)
      (inv : Keeps m points) (t : Touches m m' p0 p') where
    -- What only another thread knows, this one did not know.
    not_owned : (j : ℕ) (a : Ptr) → i ≢ j → owned (points j) ≡ some a → owned p0 ≢ some a
    not_owned j a ne e z = ne (inv.distinct i j a (rw at z) e)

    next_nodes : (j : ℕ) → OwnsNode m'.store (whole m') (put points i p' j)
    next_nodes j = elim (put-cases points i p' j) [
      | inl (same, e) ↦ rw e t.own
      | inr (other, e) ↦ rw e (
          OwnsNode-frame m.store m'.store (whole m) (whole m') (points j)
            (λ a n o here out. t.frame a n here out (not_owned j a other o)) (inv.nodes j))
    ]

    -- What this thread now knows alone, no other does.
    not_gained : (j : ℕ) (a : Ptr) → i ≢ j → owned (points j) ≡ some a → owned p' ≢ some a
    not_gained j a ne e z =
        let (n, here, out) = owned-there m.store (whole m) (points j) a (inv.nodes j) e in
        elim (t.gained a z) [
          | inl before ↦ not_owned j a ne e before
          | inr (inl unused) ↦ cc
          | inr (inr linked_) ↦ cc
        ]

    next_distinct :
        (j k : ℕ) (a : Ptr)
        → owned (put points i p' j) ≡ some a
        → owned (put points i p' k) ≡ some a
        → j ≡ k
    next_distinct j k a ej ek = elim (put-cases points i p' j) [
      | inl (same, e) ↦ elim (put-cases points i p' k) [
        | inl (same', e') ↦ sym same ∙ same'
        | inr (other', e') ↦ absurd (not_gained k a other' (rw e' at ek) (rw e at ej))
      ]
      | inr (other, e) ↦ elim (put-cases points i p' k) [
        | inl (same', e') ↦ absurd (not_gained j a other (rw e at ej) (rw e' at ek))
        | inr (other', e') ↦ inv.distinct j k a (rw e at ej) (rw e' at ek)
      ]
    ]

    pub step-Keeps :
        (holds p' ≡ true → m'.owner ≡ some i)
        → ((j : ℕ) → i ≢ j → m.owner ≡ some j → m'.owner ≡ some j)
        → AtOwner m'.owner m'.store m'.queue m'.cells (put points i p')
        → Keeps m' (put points i p')
    step-Keeps mine others shape' = record {
      locked = λ j h. elim (put-cases points i p' j) [
        | inl (same, e) ↦ rw (sym same) (mine (rw e at h))
        | inr (other, e) ↦ others j other (inv.locked j (rw e at h))
      ];
      shape = shape';
      nodes = next_nodes;
      distinct = next_distinct;
      order = t.next_order;
    }

  -- A statement of the thread that holds the mutex, and keeps it.
  pub hold-Keeps :
      (m m' : Memory D) (points : ℕ → Point D) (i : ℕ) (p0 p' : Point D)
      → points i ≡ p0
      → holds p0 ≡ true
      → m'.owner ≡ m.owner
      → Keeps m points
      → Touches m m' p0 p'
      → Inside m'.store m'.queue m'.cells p'
      → Keeps m' (put points i p')
  hold-Keeps m m' points i p0 p' at h same inv t inside =
      step-Keeps m m' points i p0 p' at inv t (λ z. same ∙ mine) (λ j ne e. same ∙ e)
        (rw (same ∙ mine, put-same points i p') inside)
    where
      mine : m.owner ≡ some i
      mine = inv.locked i (rw at h)

  -- A statement that gives the mutex back.
  pub unlock-Keeps :
      (m : Memory D) (points : ℕ → Point D) (i : ℕ) (p0 p' : Point D)
      → points i ≡ p0
      → holds p0 ≡ true
      → holds p' ≡ false
      → Keeps m points
      → Touches m (record m { owner = none }) p0 p'
      → IsQueue m.store m.queue m.cells
      → Keeps (record m { owner = none }) (put points i p')
  unlock-Keeps m points i p0 p' at h h' inv t is =
      step-Keeps m _ points i p0 p' at inv t (λ z. cc)
        (λ j ne e. absurd (ne (cc (inv.locked i (rw at h), e)))) is

  -- A statement that takes it.
  pub lock-Keeps :
      (m : Memory D) (points : ℕ → Point D) (i : ℕ) (p0 p' : Point D)
      → points i ≡ p0
      → m.owner ≡ none
      → Keeps m points
      → Touches m (record m { owner = some i }) p0 p'
      → (IsQueue m.store m.queue m.cells → Inside m.store m.queue m.cells p')
      → Keeps (record m { owner = some i }) (put points i p')
  lock-Keeps m points i p0 p' at free inv t enter =
      step-Keeps m _ points i p0 p' at inv t (λ z. refl) (λ j ne e. cc)
        (rw (put-same points i p') (enter (rw free at inv.shape)))

  -- What the thread that holds the mutex knows of the queue.
  pub at-Inside :
      (m : Memory D) (points : ℕ → Point D) (i : ℕ) (p0 : Point D)
      → points i ≡ p0
      → holds p0 ≡ true
      → Keeps m points
      → Inside m.store m.queue m.cells p0
  at-Inside m points i p0 at h inv =
      let mine : m.owner ≡ some i = inv.locked i (rw at h) in rw (sym at) (rw mine at inv.shape)
