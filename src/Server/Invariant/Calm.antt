-- ===== src/Server/Invariant/Calm.antt =====
-- `_add_client` and the events of free slots.
use mogakso.Server.Slots.Valid.{find_free-some}
use mogakso.Server.Invariant.Table.{update-cases}
use mogakso.Server.Invariant.{Quiet}
use mogakso.Common.{leb, Bool-cases, Option-cases, ℤ, pos, negsuc, ℕ, ◌≡◌, refl, inl, inr, true}
use mogakso.Server.State.{ServerContext, max_fd_limit, sizeof_parser, logged, handle_error}
use mogakso.Server.Slots.{
  find_free, placed, unplaced, place_client, add_accepted, add_client, no_events,
}
use mogakso.Os.{opened, Os}

module _ {Q : Type 0} (os : Os) where
  abbrev pub Calm : ServerContext Q → ServerContext Q → Type 0
  Calm stx stx' = Quiet stx' × (stx'.max_clients ≡ stx.max_clients)

  placed-Calm :
      (stx : ServerContext Q) (fd j : ℕ)
      → Quiet stx
      → (stx.pollers j).fd ≡ negsuc 0
      → Calm stx (place_client os stx fd j)
  unfolding place_client placed unplaced handle_error
  placed-Calm stx fd j q free = elim (Bool-cases (os.calloc_ok stx.log sizeof_parser)) [
    | inl memory ↦ rw memory (
      λ k.
          update-cases (λ p. p.fd ≡ negsuc 0 → p.revents ≡ no_events) stx.pollers j
            (record (stx.pollers j) { fd = pos fd; events = true }) k (λ e. absurd (cc)) (q k),
      refl,
    )
    | inr none_left ↦ rw none_left (
      λ k.
          update-cases (λ p. p.fd ≡ negsuc 0 → p.revents ≡ no_events) stx.pollers j
            (record (stx.pollers j) { fd = negsuc 0; events = true }) k (λ e. q j free) (q k),
      refl,
    )
  ]

  accepted-Calm : (stx : ServerContext Q) (fd : ℕ) → Quiet stx → Calm stx (add_accepted os stx fd)
  unfolding add_accepted handle_error
  accepted-Calm stx fd q = elim (Bool-cases (leb max_fd_limit fd)) [
    | inl large ↦ rw large (q, refl)
    | inr small ↦ elim (Bool-cases (leb stx.max_clients stx.client_count)) [
      | inl full ↦ rw (small, full) (q, refl)
      | inr room ↦
          rw (small, room)
            (elim (Option-cases (find_free stx.max_clients 3 stx.pollers)) [
              | inl no_slot ↦ rw (no_slot, add_accepted) (q, refl)
              | inr (j, slot) ↦
                  rw (slot, add_accepted)
                    (placed-Calm stx fd j q (find_free-some stx.max_clients 3 j stx.pollers slot).2)
            ])
    ]
  ]

  -- Nor does a free slot come to have events, nor does the number of slots change.
  pub add_client-Calm : (stx : ServerContext Q) → Quiet stx → Calm stx (add_client os stx)
  unfolding add_client handle_error
  add_client-Calm stx q = answered (os.accept stx.log) refl
    where
      answered : (a : ℤ) → os.accept stx.log ≡ a → Calm stx (add_client os stx)
      answered (negsuc n) e = rw (e, add_client) (q, refl)
      answered (pos fd) e = rw (e, add_client) (accepted-Calm (logged stx (opened (pos fd))) fd q)
