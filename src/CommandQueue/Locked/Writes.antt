-- ===== src/CommandQueue/Locked/Writes.antt =====
-- The statements of a thread that write to the heap.
use mogakso.CommandQueue.Fifo.{has-append, contents-append}
use mogakso.CommandQueue.Locked.Invariant.{tail_back, owned, OwnsNode, Keeps}
use mogakso.CommandQueue.Locked.Linking.{link-IsQueue, unlink-IsQueue, has-behind}
use mogakso.CommandQueue.Locked.Keeping.{Touches, step-Keeps, hold-Keeps, at-Inside}
use mogakso.Common.{
  ne→==_false, ℕ, ◌-◌, ◌≡◌, refl, sym, ap, ◌∙◌, subst, ◌≢◌, inl, inr, true, false, Option, none,
  some, [], ◌∷◌, ◌++◌, append_assoc, arith,
}
use mogakso.CommandQueue.Locked.Frame.{put, AtOwner-frame, AtOwner-unused, AtOwner-put}
use mogakso.CommandQueue.Locked.{
  Point, outside, filled, push_locked, push_linked, pop_data, pop_unlinked, pop_unlocked, Memory,
  behind, whole, unused,
}
use mogakso.CommandQueue.Chain.{Cells, has, IsQueue, contents, has-tail}
use mogakso.CommandQueue.Nodes.{Ptr, null, Node, write, write-same, write-other}

module _ {D : Type 0} where
  -- The heap stays, and so do the nodes of the queue.
  pub plain-Touches :
      (m : Memory D) (points : ℕ → Point D) (tail : Ptr) (size : ℕ) (owner : Option ℕ)
      (p0 p' : Point D)
      → Keeps m points
      → ((a : Ptr) → owned p' ≡ some a → owned p0 ≡ some a)
      → OwnsNode m.store (whole m) p'
      → Touches m
          (record m { queue = record m.queue { tail = tail; size = size }; owner = owner })
          p0
          p'
  plain-Touches m points tail size owner p0 p' inv less own = record {
    frame = λ a n here out z. (here, out);
    gained = λ a e. inl (less a e);
    own = own;
    next_order = inv.order;
  }

  pub own_at :
      (m : Memory D) (points : ℕ → Point D) (i : ℕ) (p0 : Point D)
      → points i ≡ p0
      → Keeps m points
      → OwnsNode m.store (whole m) p0
  own_at m points i p0 at inv = subst (OwnsNode m.store (whole m)) at (inv.nodes i)

  -- The memory after the statements that write to the heap.
  abbrev pub taken : Memory D → Ptr → Option D → Memory D
  taken m fresh d = record m {
    store = write m.store fresh (some (record { item = d; link = null }));
  }

  abbrev pub freed : Memory D → Ptr → Memory D
  freed m p = record m { store = write m.store p none }

  abbrev pub extended : Memory D → Ptr → Option D → Node D → Memory D
  extended m p d n = record m {
    store = write m.store m.queue.tail (some (record n { link = p }));
    cells = m.cells ++ (p, d) ∷ [];
    pushed = m.pushed ++ d ∷ [];
  }

  abbrev pub shortened : Memory D → Option D → (h n : Node D) → Memory D
  shortened m d h n = record m {
    store = write m.store m.queue.fake_head (some (record h { link = n.link }));
    cells = behind m.cells;
    popped = m.popped ++ d ∷ [];
  }

  pub calloc-Keeps :
      (m : Memory D) (points : ℕ → Point D) (i : ℕ) (d : Option D) (fresh : Ptr)
      → fresh ≢ null
      → m.store fresh ≡ none
      → points i ≡ outside
      → Keeps m points
      → Keeps (taken m fresh d) (put points i (filled fresh d))
  calloc-Keeps m points i d fresh ne unused at inv =
      step-Keeps m (taken m fresh d) points i outside (filled fresh d) at inv touches (λ z. cc)
        (λ j other e. e)
        (AtOwner-put _ m.queue m.cells m.owner points i (filled fresh d) (rw at refl)
          (AtOwner-frame m.store m.queue m.cells m.owner points fresh _ out inv.shape))
    where
      out : has fresh (whole m) ≡ false
      out = AtOwner-unused m.store m.queue m.cells m.owner points fresh unused inv.shape

      touches : Touches m (taken m fresh d) outside (filled fresh d)
      touches = record {
        frame = λ a n here apart z.
            (write-other m.store fresh _ a (λ same. cc (ap m.store same)) ∙ here, apart);
        gained = λ a e.
            inr (inl (let same : fresh ≡ a = cc in subst (λ b. m.store b ≡ none) same unused));
        own = (ne, write-same m.store fresh _, out);
        next_order = inv.order;
      }

  pub free-Keeps :
      (m : Memory D) (points : ℕ → Point D) (i : ℕ) (p : Ptr) (d : Option D)
      → points i ≡ pop_unlocked p d
      → Keeps m points
      → Keeps (freed m p) (put points i outside)
  free-Keeps m points i p d at inv =
      let (n, here, out) = own_at m points i (pop_unlocked p d) at inv in
      step-Keeps m (freed m p) points i (pop_unlocked p d) outside at inv touches (λ z. cc)
        (λ j other e. e)
        (AtOwner-put _ m.queue m.cells m.owner points i outside (rw at refl)
          (AtOwner-frame m.store m.queue m.cells m.owner points p none out inv.shape))
    where
      touches : Touches m (freed m p) (pop_unlocked p d) outside
      touches = record {
        frame = λ a n here apart z.
            (write-other m.store p none a (λ same. z (ap some (sym same))) ∙ here, apart);
        gained = λ a e. absurd (cc e);
        own = tt;
        next_order = inv.order;
      }

  pub link-Keeps :
      (m : Memory D) (points : ℕ → Point D) (i : ℕ) (p : Ptr) (d : Option D) (n : Node D)
      → m.store m.queue.tail ≡ some n
      → points i ≡ push_locked p d
      → Keeps m points
      → Keeps (extended m p d n) (put points i (push_linked p d))
  link-Keeps m points i p d n e at inv =
      hold-Keeps m (extended m p d n) points i (push_locked p d) (push_linked p d) at refl refl inv
        touches (link-IsQueue m.store m.queue m.cells p d n is own.0 own.1 own.2 e)
    where
      own : OwnsNode m.store (whole m) (push_locked p d)
      own = own_at m points i (push_locked p d) at inv

      is : IsQueue m.store m.queue m.cells
      is = at-Inside m points i (push_locked p d) at refl inv

      touches : Touches m (extended m p d n) (push_locked p d) (push_linked p d)
      touches = record {
        frame = λ a n' here apart z. (
          write-other m.store m.queue.tail _ a
                (λ same. cc (ap (λ b. has b (whole m)) same, apart, has-tail is.chain))
              ∙ here,
          has-append a (whole m) ((p, d) ∷ [])
              ∙ rw (apart, ne→==_false a p (λ same. z (ap some (sym same)))),
        );
        gained = λ a z. absurd (cc z);
        own = tt;
        next_order =
            ap (λ l. m.popped ++ l) (contents-append m.cells ((p, d) ∷ []))
            ∙ sym (append_assoc m.popped (contents m.cells) (d ∷ []))
            ∙ ap (λ l. l ++ d ∷ []) inv.order;
      }

  pub unlink-Keeps :
      (m : Memory D) (points : ℕ → Point D) (i : ℕ) (p : Ptr) (d : Option D) (h n : Node D)
      → m.store m.queue.fake_head ≡ some h
      → m.store p ≡ some n
      → points i ≡ pop_data p d
      → Keeps m points
      → Keeps (shortened m d h n) (put points i (pop_unlinked p d))
  unlink-Keeps m points i p d h n at_head at_first at inv =
      hold-Keeps m (shortened m d h n) points i (pop_data p d) (pop_unlinked p d) at refl refl inv
        touches (rw behind_eq left.0)
    where
      first : (ds : Cells D) × (m.cells ≡ (p, d) ∷ ds)
      first = (at-Inside m points i (pop_data p d) at refl inv).1

      is : IsQueue m.store m.queue ((p, d) ∷ first.0)
      is =
          subst (IsQueue m.store m.queue) first.1
            (at-Inside m points i (pop_data p d) at refl inv).0

      left :
          IsQueue
            (shortened m d h n).store
            (record (tail_back m.queue p) { size = m.queue.size - 1 })
            first.0
          × ((shortened m d h n).store p ≡ some n)
          × (has p ((m.queue.fake_head, none) ∷ first.0) ≡ false)
      left = unlink-IsQueue m.store m.queue p d first.0 h n is at_head at_first

      behind_eq : behind m.cells ≡ first.0
      behind_eq = ap behind first.1

      not_behind :
          (a : Ptr)
          → has a (whole m) ≡ false
          → has a ((m.queue.fake_head, none) ∷ behind m.cells) ≡ false
      not_behind a apart = rw behind_eq (
          has-behind a m.queue.fake_head p none d first.0
            (subst (λ cs. has a ((m.queue.fake_head, none) ∷ cs) ≡ false) first.1 apart))

      was_first : (a : Ptr) → p ≡ a → has a (whole m) ≡ true
      was_first a same = rw first.1 (ground arith)

      touches : Touches m (shortened m d h n) (pop_data p d) (pop_unlinked p d)
      touches = record {
        frame = λ a n' here apart z. (
          write-other m.store m.queue.fake_head _ a (λ same. ground arith) ∙ here,
          not_behind a apart,
        );
        gained = λ a z. inr (inr (let same : p ≡ a = cc in was_first a same));
        own = (n, left.1, rw behind_eq left.2);
        next_order =
            append_assoc m.popped (d ∷ []) (contents (behind m.cells))
            ∙ ap (λ l. m.popped ++ l)
                (ap (λ l. d ∷ contents l) behind_eq ∙ sym (ap contents first.1))
            ∙ inv.order;
      }
