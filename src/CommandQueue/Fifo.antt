-- ===== src/CommandQueue/Fifo.antt =====
-- The operations on a queue in the heap: they implement a first-in first-out list.
use mogakso.CommandQueue.{CommandQueue, queue_push, queue_pop}
use mogakso.Common.{
  ◌==◌, if◌then◌else◌, eq→==, ne→==_false, length-append, done, ◌+◌, ◌-◌, ◌≡◌, refl, ap, ◌∙◌, ◌≢◌,
  false, ◌||◌, Option, none, some, [], ◌∷◌, ◌++◌, arith,
}
use mogakso.CommandQueue.Nodes.{Ptr, null, Store, write, load-holds, write-same, write-other}
use mogakso.CommandQueue.Chain.{
  Cells, has, Chain, last, more, IsQueue, contents, has-tail, frame-write, unused-has,
}

module _ {D : Type 0} where
  pub has-append : (a : Ptr) (cs ds : Cells D) → has a (cs ++ ds) ≡ (has a cs || has a ds)
  has-append a [] ds = refl
  has-append a ((p, d) ∷ cs) ds = ground (arith, has-append a cs ds)

  pub contents-append : (cs ds : Cells D) → contents (cs ++ ds) ≡ contents cs ++ contents ds
  contents-append [] ds = refl
  contents-append ((p, d) ∷ cs) ds = ap (◌∷◌ d) (contents-append cs ds)

  -- The tail's node ends the chain.
  pub tail-holds :
      {s : Store D} {p l : Ptr} {d : Option D} {cs : Cells D}
      → Chain s p d cs l
      → (e : Option D) × (s l ≡ some (record { item = e; link = null }))
  tail-holds (last {d} ne e) = (d, e)
  tail-holds (more ne e out c) = tail-holds c

  -- The heap after a node at `fresh` has been filled and linked behind the tail.
  abbrev pub linked : Store D → (l fresh : Ptr) (e d : Option D) → Store D
  linked s l fresh e d =
      write (write s fresh (some (record { item = d; link = null }))) l
        (some (record { item = e; link = fresh }))

  pub link-Chain :
      {s : Store D} {p l : Ptr} {d0 : Option D} {cs : Cells D} (fresh : Ptr) (e d : Option D)
      → fresh ≢ null
      → s l ≡ some (record { item = e; link = null })
      → has fresh ((p, d0) ∷ cs) ≡ false
      → Chain s p d0 cs l
      → Chain (linked s l fresh e d) p d0 (cs ++ (fresh, d) ∷ []) fresh
  unfolding write
  link-Chain {s} {p} {d0} fresh e d ne holds out (last ne' e') =
      more ne' (ground arith) (ground arith) (last ne (ground arith))
  link-Chain fresh e d ne holds out (more {p} {q} {e = e1} {cs} ne' e' out' c) =
      more ne' (ground (arith, has-tail c))
        (ground (arith, has-append p ((q, e1) ∷ cs) ((fresh, d) ∷ [])))
        (link-Chain fresh e d ne holds (ground arith) c)

  -- Given an unused address, `queue_push` ends without a fault and puts the data behind the contents.
  pub queue_push-IsQueue :
      (s : Store D) (q : CommandQueue) (cs : Cells D) (d : Option D) (fresh : Ptr)
      → IsQueue s q cs
      → fresh ≢ null
      → s fresh ≡ none
      → (s' : Store D) × (q' : CommandQueue) × (queue_push (some q) d fresh s ≡ done (s', some q'))
        × IsQueue s' q' (cs ++ (fresh, d) ∷ [])
  unfolding queue_push
  queue_push-IsQueue s q cs d fresh is ne unused =
      let (e, holds) = tail-holds is.chain in
      let out = unused-has fresh unused is.chain in
      let apart : q.tail ≢ fresh = ground (arith, has-tail is.chain) in
      (
        linked s q.tail fresh e d,
        record q { tail = fresh; size = q.size + 1 },
        rw (
          ne→==_false fresh null ne,
          load-holds _ q.tail _ (write-other s fresh _ q.tail apart ∙ holds),
          queue_push,
        ),
        record {
          chain = link-Chain fresh e d ne holds out is.chain;
          count = omega (arith, is.count, length-append cs ((fresh, d) ∷ []));
        },
      )

  -- The only node of a chain of one.
  alone :
      {s : Store D} {p l : Ptr} {d : Option D}
      → Chain s p d [] l
      → (s p ≡ some (record { item = d; link = null })) × (p ≡ l)
  alone (last ne e) = (e, refl)

  -- On an empty queue `queue_pop` returns NULL and changes nothing.
  pub queue_pop-nil :
      (s : Store D) (q : CommandQueue)
      → IsQueue s q []
      → queue_pop (some q) s ≡ done (none, s, some q)
  unfolding queue_pop
  queue_pop-nil s q is = rw (load-holds s q.fake_head _ (alone is.chain).0)

  -- The heap after the first node, at `p`, has been unlinked and freed.
  abbrev pub unlinked : Store D → (h p next : Ptr) → Store D
  unlinked s h p next = write (write s h (some (record { item = none; link = next }))) p none

  -- What unlinking the first node leaves.
  pub record Unlinks (s : Store D) (h p t : Ptr) (d : Option D) (cs : Cells D) : Type 0 where
    pub next : Ptr
    pub ne : p ≢ null
    pub at_head : s h ≡ some (record { item = none; link = p })
    pub at_first : s p ≡ some (record { item = d; link = next })
    pub left : Chain (unlinked s h p next) h none cs (if t == p then h else t)

  unlink-first :
      {s : Store D} {h p l : Ptr} {d : Option D} {cs : Cells D}
      → h ≢ null
      → s h ≡ some (record { item = none; link = p })
      → has h ((p, d) ∷ cs) ≡ false
      → Chain s p d cs l
      → Unlinks s h p l d cs
  unfolding write
  unlink-first {h} {p} ne e out (last ne' e') = record {
    next = null;
    ne = ne';
    at_head = e;
    at_first = e';
    left = rw (eq→== p p refl) (last ne (ground arith));
  }
  unlink-first {h} {p} {l} ne e out (more {q} {e = e1} {cs} ne' e' out' c) = record {
    next = q;
    ne = ne';
    at_head = e;
    at_first = e';
    left = rw (ne→==_false l p (ground (arith, has-tail c))) (
        more ne (ground arith) (ground arith)
          (frame-write p none (ground arith) (frame-write h _ (ground arith) c)));
  }

  pub Unlinks-Chain :
      {s : Store D} {h p l : Ptr} {d : Option D} {cs : Cells D}
      → Chain s h none ((p, d) ∷ cs) l
      → Unlinks s h p l d cs
  Unlinks-Chain (more ne e out c) = unlink-first ne e out c

  -- `queue_pop` returns the oldest data, gives its node back and leaves the rest.
  pub queue_pop-cons :
      (s : Store D) (q : CommandQueue) (p : Ptr) (d : Option D) (cs : Cells D)
      → IsQueue s q ((p, d) ∷ cs)
      → (s' : Store D) × (q' : CommandQueue) × (queue_pop (some q) s ≡ done (d, s', some q'))
        × IsQueue s' q' cs
        × (s' p ≡ none)
  unfolding queue_pop
  queue_pop-cons s q p d cs is =
      let u = Unlinks-Chain is.chain in
      (
        unlinked s q.fake_head p u.next,
        record q { tail = if q.tail == p then q.fake_head else q.tail; size = q.size - 1 },
        rw (
          load-holds s q.fake_head _ u.at_head,
          ne→==_false p null u.ne,
          load-holds s p _ u.at_first,
        ),
        record { chain = u.left; count = omega (arith, is.count) },
        write-same _ p none,
      )
