-- ===== src/CommandQueue/Lifetime.antt =====
-- The first and the last operation on a queue, and its emptiness test.
use mogakso.Common.{
  ◌==◌, ne→==_false, Bool-cases, length, Run, done, ℕ, zero, suc, ◌+◌, ◌<◌, ◌≡◌, refl, ◌∙◌, ◌↔◌,
  ◌⊎◌, inl, inr, Bool, true, false, Option, none, some, List, [], ◌∷◌, arith,
}
use mogakso.CommandQueue.Nodes.{Ptr, null, Store, write, load-holds}
use mogakso.CommandQueue.Chain.{Cells, has, Chain, last, more, IsQueue, contents, frame-write}
use mogakso.CommandQueue.{
  CommandQueue, queue_create, queue_is_empty, destroys, destroy_loop, queue_destroy,
}

-- The data that are not NULL, in order.
abbrev pub present : {D : Type 0} → List (Option D) → List D
present [] = []
present (d ∷ ds) = destroys d (present ds)

module _ {D : Type 0} where
  -- `queue_create` makes an empty queue at the dummy's address, or none if an allocation or the
  -- mutex fails; then the heap is as before.
  pub queue_create-IsQueue :
      (given mutex_ok : Bool) (dummy : Ptr) (s : Store D)
      → s dummy ≡ none
      → ((s' : Store D) × (q : CommandQueue) × (queue_create given dummy mutex_ok s ≡ (s', some q))
          × IsQueue s' q [])
        ⊎ ((s' : Store D) × (queue_create given dummy mutex_ok s ≡ (s', none))
            × ((a : Ptr) → s' a ≡ s a)
            × ((given ≡ false) ⊎ ((dummy ≡ null) ⊎ (mutex_ok ≡ false))))
  unfolding queue_create write
  queue_create-IsQueue false mutex_ok dummy s unused = inr (s, refl, λ a. refl, inl refl)
  queue_create-IsQueue true mutex_ok dummy s unused = elim (Bool-cases (dummy == null)) [
    | inl failed ↦ inr (s, rw failed, λ a. refl, inr (inl (ground arith)))
    | inr given ↦ created mutex_ok given
  ]
    where
      created :
          (ok : Bool)
          → (dummy == null) ≡ false
          → ((s' : Store D) × (q : CommandQueue) × (queue_create true dummy ok s ≡ (s', some q))
              × IsQueue s' q [])
            ⊎ ((s' : Store D) × (queue_create true dummy ok s ≡ (s', none))
                × ((a : Ptr) → s' a ≡ s a)
                × ((true ≡ false) ⊎ ((dummy ≡ null) ⊎ (ok ≡ false))))
      created true given = inl (
        write s dummy (some (record { item = none; link = null })),
        record { fake_head = dummy; tail = dummy; size = 1 },
        rw given,
        record { chain = last (ground arith) (ground arith); count = omega arith },
      )
      created false given = inr (write s dummy none, rw given, λ a. ground arith, inr (inr refl))

  -- `queue_is_empty` holds exactly of a queue with no contents.
  pub queue_is_empty-contents :
      (s : Store D) (q : CommandQueue) (cs : Cells D)
      → IsQueue s q cs
      → (queue_is_empty (some q) ≡ true) ↔ (contents cs ≡ [])
  unfolding queue_is_empty
  queue_is_empty-contents s q [] is = (λ h. refl, λ h. ground (arith, is.count))
  queue_is_empty-contents s q ((p, d) ∷ cs) is = (λ h. absurd (ground (arith, is.count)), λ h. cc)

  abbrev Destroys : Store D → Ptr → Option D → Cells D → Run (List D × Store D) → Type 0
  Destroys s p d cs r =
      (s' : Store D) × (r ≡ done (present (d ∷ contents cs), s'))
      × ((a : Ptr) → has a ((p, d) ∷ cs) ≡ true → s' a ≡ none)
      × ((a : Ptr) → has a ((p, d) ∷ cs) ≡ false → s' a ≡ s a)

  destroy_loop-Chain :
      (fuel : ℕ) {s : Store D} {p l : Ptr} {d : Option D} {cs : Cells D}
      → Chain s p d cs l
      → length cs + 1 < fuel
      → Destroys s p d cs (destroy_loop fuel p s)
  unfolding destroy_loop write
  destroy_loop-Chain zero c h = absurd (omega arith)
  destroy_loop-Chain (suc zero) c h = absurd (omega arith)
  destroy_loop-Chain (suc (suc fuel)) {s} (last {p} {d} ne e) h = (
    write s p none,
    rw (ne→==_false p null ne, load-holds s p _ e),
    λ a i. ground arith,
    λ a i. ground arith,
  )
  destroy_loop-Chain (suc (suc fuel)) {s} (more {p} {q} {d} {e = e1} {cs} ne e out c) h =
      let (s', r, gone, kept) =
        destroy_loop-Chain (suc fuel) (frame-write p none out c) (omega arith) in
      (
        s',
        rw (ne→==_false p null ne, load-holds s p _ e, r),
        λ a i. elim (Bool-cases (has a ((q, e1) ∷ cs))) [
          | inl later ↦ gone a later
          | inr first ↦ kept a first ∙ ground arith
        ],
        λ a i. ground (arith, kept a),
      )

  -- `queue_destroy` ends, calls the destroy function on all data but NULL, oldest first and each
  -- once, frees the nodes of the queue, the dummy included, and leaves all other addresses alone.
  pub queue_destroy-Destroys :
      (s : Store D) (q : CommandQueue) (cs : Cells D)
      → IsQueue s q cs
      → (s' : Store D) × (queue_destroy (some q) s ≡ done (present (contents cs), s'))
        × ((a : Ptr) → has a ((q.fake_head, none) ∷ cs) ≡ true → s' a ≡ none)
        × ((a : Ptr) → has a ((q.fake_head, none) ∷ cs) ≡ false → s' a ≡ s a)
  unfolding queue_destroy
  queue_destroy-Destroys s q cs is =
      destroy_loop-Chain (q.size + 1) is.chain (omega (arith, is.count))
