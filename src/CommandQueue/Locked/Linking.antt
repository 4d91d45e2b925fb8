-- ===== src/CommandQueue/Locked/Linking.antt =====
-- The two statements that change the chain of nodes: linking a new node behind the tail, and
-- unlinking the first.
use mogakso.CommandQueue.Fifo.{tail-holds, linked, link-Chain, unlinked, Unlinks-Chain}
use mogakso.CommandQueue.{CommandQueue}
use mogakso.Common.{
  ◌==◌, if◌then◌else◌, Bool-cases, length-append, ◌+◌, ◌-◌, ◌≡◌, refl, sym, ap, ◌∙◌, subst, fun_ext,
  ◌≢◌, ◌⊎◌, inl, inr, false, Option, none, some, [], ◌∷◌, ◌++◌, arith,
}
use mogakso.CommandQueue.Locked.Invariant.{tail_back}
use mogakso.CommandQueue.Chain.{
  Cells, has, Chain, last, more, IsQueue, not_null, frame-write, unused-has,
}
use mogakso.CommandQueue.Nodes.{Ptr, null, Node, Store, write, write-same, write-other}

module _ {D : Type 0} where
  write-id : (s : Store D) (a : Ptr) (c : Option (Node D)) → s a ≡ c → write s a c ≡ s
  unfolding write
  write-id s a c e = fun_ext λ b. ground arith

  write-twice :
      (s : Store D) (a : Ptr) (c c' : Option (Node D)) → write (write s a c) a c' ≡ write s a c'
  unfolding write
  write-twice s a c c' = fun_ext λ b. ground arith

  -- The tail's node ends the chain.
  pub tail-ends :
      (s : Store D) (q : CommandQueue) (cs : Cells D)
      → IsQueue s q cs
      → (e : Option D) × (s q.tail ≡ some (record { item = e; link = null }))
  tail-ends s q cs is = tail-holds is.chain

  pub link-IsQueue :
      (s : Store D) (q : CommandQueue) (cs : Cells D) (p : Ptr) (d : Option D) (n : Node D)
      → IsQueue s q cs
      → p ≢ null
      → s p ≡ some (record { item = d; link = null })
      → has p ((q.fake_head, none) ∷ cs) ≡ false
      → s q.tail ≡ some n
      → IsQueue
          (write s q.tail (some (record n { link = p })))
          (record q { tail = p; size = q.size + 1 })
          (cs ++ (p, d) ∷ [])
  link-IsQueue s q cs p d n is ne filled_node out at_tail =
      let (e, ends) = tail-holds is.chain in
      let node : n ≡ record { item = e; link = null } = cc in
      record {
        chain =
            subst (λ s'. Chain s' q.fake_head none (cs ++ (p, d) ∷ []) p) (stores e node)
              (link-Chain p e d ne ends out is.chain);
        count = omega (arith, is.count, length-append cs ((p, d) ∷ []));
      }
    where
      stores :
          (e : Option D)
          → n ≡ record { item = e; link = null }
          → linked s q.tail p e d ≡ write s q.tail (some (record n { link = p }))
      stores e node =
          ap (λ s'. write s' q.tail (some (record { item = e; link = p })))
            (write-id s p _ filled_node)
          ∙ ap (λ x. write s q.tail (some (record x { link = p }))) (sym node)

  first-apart :
      {s : Store D} {h p l : Ptr} {d e : Option D} {ds : Cells D}
      → Chain s h d ((p, e) ∷ ds) l
      → p ≢ h
  first-apart (more ne e out c) z = ground arith

  -- What unlinking leaves: the rest of the queue, and the node, which is not linked.
  pub unlink-IsQueue :
      (s : Store D) (q : CommandQueue) (p : Ptr) (d : Option D) (ds : Cells D) (h n : Node D)
      → IsQueue s q ((p, d) ∷ ds)
      → s q.fake_head ≡ some h
      → s p ≡ some n
      → let s' : Store D = write s q.fake_head (some (record h { link = n.link })) in
        IsQueue s' (record (tail_back q p) { size = q.size - 1 }) ds
        × (s' p ≡ some n)
        × (has p ((q.fake_head, none) ∷ ds) ≡ false)
  unlink-IsQueue s q p d ds h n is at_head at_first =
      let u = Unlinks-Chain is.chain in
      let apart = first-apart is.chain in
      let head_node : h ≡ record { item = none; link = p } = cc (u.at_head, at_head) in
      let first_node : n ≡ record { item = d; link = u.next } = cc (u.at_first, at_first) in
      let nodes : record { item = none; link = u.next } ≡ record h { link = n.link } =
        let items : h.item ≡ none = ap (λ x. x.item) head_node in
        let links : n.link ≡ u.next = ap (λ x. x.link) first_node in rw (items, links) in
      let s' : Store D = write s q.fake_head (some (record h { link = n.link })) in
      let kept : s' p ≡ some n = write-other s q.fake_head _ p apart ∙ at_first in
      let gone : Store D = unlinked s q.fake_head p u.next in
      let out =
        unused-has p
          (write-same (write s q.fake_head (some (record { item = none; link = u.next }))) p none)
          u.left in
      let stores : write gone p (some n) ≡ s' =
        write-twice (write s q.fake_head _) p none (some n)
        ∙ ap (λ x. write (write s q.fake_head (some x)) p (some n)) nodes
        ∙ write-id s' p (some n) kept in
      (
        record {
          chain =
              subst (λ t. Chain t q.fake_head none ds (if q.tail == p then q.fake_head else q.tail))
                stores (frame-write p (some n) out u.left);
          count = omega (arith, is.count);
        },
        kept,
        out,
      )

  -- What the dummy's node says of the contents.
  pub head-reads :
      {s : Store D} {h l : Ptr} {d : Option D} {cs : Cells D} (n : Node D)
      → Chain s h d cs l
      → s h ≡ some n
      → ((n.link ≡ null) × (cs ≡ []))
        ⊎ ((n.link ≢ null) × ((e : Option D) × (ds : Cells D) × (cs ≡ (n.link, e) ∷ ds)))
  head-reads n (last {d} ne e) at =
      let node : n ≡ record { item = d; link = null } = cc in inl (ap (λ x. x.link) node, refl)
  head-reads n (more {q} {d} {e = e1} {cs} ne e out c) at =
      let node : n ≡ record { item = d; link = q } = cc in
      let same : n.link ≡ q = ap (λ x. x.link) node in
      inr (λ z. not_null c (sym same ∙ z), (e1, cs, ap (λ a. (a, e1) ∷ cs) (sym same)))

  pub head-there :
      {s : Store D} {h l : Ptr} {d : Option D} {cs : Cells D}
      → Chain s h d cs l
      → (n : Node D) × (s h ≡ some n)
  head-there (last ne e) = (_, e)
  head-there (more ne e out c) = (_, e)

  pub first-there :
      {s : Store D} {h p l : Ptr} {d e : Option D} {ds : Cells D}
      → Chain s h d ((p, e) ∷ ds) l
      → (next : Ptr) × (s p ≡ some (record { item = e; link = next }))
  first-there (more ne e out (last ne' e')) = (_, e')
  first-there (more ne e out (more ne' e' out' c)) = (_, e')

  pub has-behind :
      (a f p : Ptr) (d e : Option D) (cs : Cells D)
      → has a ((f, d) ∷ (p, e) ∷ cs) ≡ false
      → has a ((f, d) ∷ cs) ≡ false
  has-behind a f p d e cs out = elim (Bool-cases (a == f)) [
    | inl same ↦ absurd (ground arith)
    | inr other ↦ ground arith
  ]
