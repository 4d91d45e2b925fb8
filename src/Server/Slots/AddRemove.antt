-- ===== src/Server/Slots/AddRemove.antt =====
-- The theorems on `_add_client` and `_remove_client`.
use mogakso.Os.{Os}
use mogakso.Common.{
  leb, ◌==◌, lt→ltb, Bool-cases, Option-cases, pos, negsuc, ℕ, ◌+◌, ◌-◌, ◌≤◌, ◌<◌, ◌≡◌, refl, sym,
  ap, ◌∙◌, ◌≢◌, inl, inr, false, none, some, arith,
}
use mogakso.Server.State.{Poller, ServerContext, max_fd_limit, sizeof_parser, update}
use mogakso.Server.Slots.{
  find_free, place_client, add_accepted, no_events, remove_fd, remove_client,
}
use mogakso.Server.Slots.Valid.{
  used, Occupied, IsValid, find_free-some, find_free-none, used-update,
}
use mogakso.Server.Slots.Changes.{
  update-same, update-other, Occupied-frame, SlotOk, slots-change, placed-IsValid, unplaced-IsValid,
}

module _ {Q : Type 0} where
  -- The table is all that validity is about.
  pub IsValid-frame :
      (stx stx' : ServerContext Q)
      → stx'.pollers ≡ stx.pollers
      → stx'.clients ≡ stx.clients
      → stx'.client_map ≡ stx.client_map
      → stx'.max_clients ≡ stx.max_clients
      → stx'.client_count ≡ stx.client_count
      → IsValid stx
      → IsValid stx'
  IsValid-frame stx stx' p c m n k v = record {
    slots = λ j lo hi. kept j (v.slots j lo (rw (← n) hi));
    map_back = λ fd i e.
        let (lt, at) = v.map_back fd i (ap (λ f. f fd) (sym m) ∙ e) in
        (rw n lt, ap (λ f. (f (i + 3)).fd) p ∙ at);
    count = k ∙ v.count ∙ rw (n, p);
  }
    where
      kept : (j : ℕ) → SlotOk stx j → SlotOk stx' j
      kept j (inl free) = inl (ap (λ f. (f j).fd) p ∙ free)
      kept j (inr (fd, o)) = inr (
        fd,
        Occupied-frame stx stx' j fd (ap (λ f. f j) p) (ap (λ f. f (j - 3)) c) (ap (λ f. f fd) m) o,
      )

  place_client-IsValid :
      (os : Os) (stx : ServerContext Q)
      → IsValid stx
      → (fd j : ℕ) → 3 ≤ j
      → j < stx.max_clients + 3
      → (stx.pollers j).fd ≡ negsuc 0
      → fd < max_fd_limit
      → stx.client_map fd ≡ none
      → IsValid (place_client os stx fd j)
  unfolding place_client
  place_client-IsValid os stx v fd j lo hi free small new =
      elim (Bool-cases (os.calloc_ok stx.log sizeof_parser)) [
        | inl memory ↦ rw memory (placed-IsValid os stx v fd j lo hi free small new)
        | inr none_left ↦ rw none_left (unplaced-IsValid os stx v fd j lo hi free)
      ]

  -- `_add_client`, once `accept` has given a descriptor that is no client's, keeps the slot table
  -- valid on every branch: too large a descriptor, a full server, no memory, a new client.
  pub add_accepted-IsValid :
      (os : Os) (stx : ServerContext Q) (fd : ℕ)
      → IsValid stx
      → stx.client_map fd ≡ none
      → IsValid (add_accepted os stx fd)
  unfolding add_accepted
  add_accepted-IsValid os stx fd v new = elim (Bool-cases (leb max_fd_limit fd)) [
    | inl large ↦ rw large (IsValid-frame stx _ refl refl refl refl refl v)
    | inr small ↦ elim (Bool-cases (leb stx.max_clients stx.client_count)) [
      | inl full ↦ rw (small, full) (IsValid-frame stx _ refl refl refl refl refl v)
      | inr room ↦
          rw (small, room)
            (elim (Option-cases (find_free stx.max_clients 3 stx.pollers)) [
              | inl no_slot ↦
                  rw (no_slot, add_accepted) (IsValid-frame stx _ refl refl refl refl refl v)
              | inr (j, slot) ↦
                  let (lo, hi, free) = find_free-some stx.max_clients 3 j stx.pollers slot in
                  rw (slot, add_accepted)
                    (place_client-IsValid os stx v fd j lo (omega arith) free (ground arith) new)
            ])
    ]
  ]

  module _ (stx : ServerContext Q) (j fd : ℕ) (v : IsValid stx) (lo : 3 ≤ j)
      (hi : j < stx.max_clients + 3) (o : Occupied stx j fd) where
    map_removed : (remove_fd stx j (pos fd)).client_map ≡ update stx.client_map fd none
    unfolding remove_fd
    map_removed = rw (lt→ltb fd max_fd_limit o.below)

    -- A descriptor stands in one slot only.
    one_slot : (fd' i : ℕ) → stx.client_map fd' ≡ some i → fd ≢ fd' → j ≢ i + 3
    one_slot fd' i e ne same = ground (arith, v.map_back fd' i e, o.polled)

    count_freed :
        (p : Poller)
        → p.fd ≡ negsuc 0
        → stx.client_count - 1 ≡ used stx.max_clients 3 (update stx.pollers j p)
    count_freed p e =
        ground
          (arith, v.count, o.polled, used-update stx.max_clients 3 j p stx.pollers lo (omega arith))

    removed-IsValid : IsValid (remove_fd stx j (pos fd))
    unfolding remove_fd
    removed-IsValid = record {
      slots =
          slots-change stx (remove_fd stx j (pos fd)) v j _ _ lo refl refl refl
            (λ fd' k ne le o'.
              ap (λ f. f fd') map_removed
              ∙ update-other stx.client_map fd fd' none (λ e. ne (same_slot fd' k le o' e)))
            (inl (ap (λ x. x.fd) (update-same stx.pollers j _)));
      map_back = λ fd' i e. back fd' i (ap (λ f. f fd') (sym map_removed) ∙ e);
      count = count_freed (record (stx.pollers j) { fd = negsuc 0; revents = no_events }) refl;
    }
      where
        same_slot : (fd' k : ℕ) → 3 ≤ k → Occupied stx k fd' → fd ≡ fd' → k ≡ j
        same_slot fd' k le o' e =
            let index : j - 3 ≡ k - 3 = ground (arith, o.mapped, o'.mapped, ap stx.client_map e) in
            omega arith

        back :
            (fd' i : ℕ)
            → update stx.client_map fd none fd' ≡ some i
            → (i < stx.max_clients)
              × ((update stx.pollers j
                    (record (stx.pollers j) { fd = negsuc 0; revents = no_events })
                    (i + 3)).fd
                  ≡ pos fd')
        back fd' i e = elim (Bool-cases (fd == fd')) [
          | inl same ↦ cc (rw same at e)
          | inr other ↦
              let old : stx.client_map fd' ≡ some i = rw other at e in
              (
                (v.map_back fd' i old).0,
                ap (λ x. x.fd)
                      (update-other stx.pollers j (i + 3) _ (one_slot fd' i old (ground arith)))
                    ∙ (v.map_back fd' i old).1,
              )
        ]

  -- `_remove_client` on any slot of the table keeps the table valid, and leaves the slot free.
  pub remove_client-IsValid :
      (stx : ServerContext Q) (j : ℕ)
      → IsValid stx
      → 3 ≤ j
      → j < stx.max_clients + 3
      → IsValid (remove_client stx j) × (((remove_client stx j).pollers j).fd ≡ negsuc 0)
  unfolding remove_client
  remove_client-IsValid stx j v lo hi = elim (v.slots j lo hi) [
    | inl free ↦ rw (free, remove_fd) (v, free)
    | inr (fd, o) ↦
        rw (o.polled, remove_fd)
          (removed-IsValid stx j fd v lo hi o, ap (λ x. x.fd) (update-same stx.pollers j _))
  ]

module _ {Q : Type 0} (os : Os) where
  -- In a valid table with fewer clients than slots, `_add_client` finds a free slot for an accepted
  -- descriptor below the limit, and places the client there; it never comes to the branch that
  -- closes the descriptor for want of a slot.
  pub add_accepted-places :
      (stx : ServerContext Q) (fd : ℕ)
      → IsValid stx
      → fd < max_fd_limit
      → stx.client_count < stx.max_clients
      → (j : ℕ) × (3 ≤ j)
        × (j < stx.max_clients + 3)
        × ((stx.pollers j).fd ≡ negsuc 0)
        × (add_accepted os stx fd ≡ place_client os stx fd j)
  unfolding add_accepted
  add_accepted-places stx fd v small room =
      elim (Option-cases (find_free stx.max_clients 3 stx.pollers)) [
        | inl no_slot ↦
            absurd
              (omega (arith, v.count, find_free-none stx.max_clients 3 stx.pollers no_slot, room))
        | inr (j, slot) ↦
            let (lo, hi, free) = find_free-some stx.max_clients 3 j stx.pollers slot in
            let below : leb max_fd_limit fd ≡ false = ground arith in
            let fits : leb stx.max_clients stx.client_count ≡ false = ground arith in
            (j, lo, omega arith, free, rw (below, fits, slot, add_accepted) refl)
      ]
