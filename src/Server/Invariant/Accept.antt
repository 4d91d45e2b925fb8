-- ===== src/Server/Invariant/Accept.antt =====
-- `_add_client` keeps the invariant.
use mogakso.Server.Slots.Valid.{find_free-some}
use mogakso.Server.Slots.AddRemove.{IsValid-frame, add_accepted-IsValid}
use mogakso.Protocol.Parser.{StreamParser, init_parser}
use mogakso.Server.Invariant.Table.{update-cases, with_log-IsTracked, closed-IsTracked}
use mogakso.Server.Invariant.{IsTracked, IsGood}
use mogakso.Common.{
  leb, ◌==◌, eq→==, ne→==_false, Bool-cases, Option-cases, ℤ, pos, negsuc, is_neg, ℕ, ◌-◌, ◌≡◌,
  refl, sym, ap, ◌∙◌, subst, inl, inr, true, false, none, some, ◌∷◌, arith,
}
use mogakso.Server.State.{
  Fifo, ServerContext, max_fd_limit, sizeof_parser, update, logged, handle_error,
}
use mogakso.Server.Slots.{
  find_free, new_client, placed, unplaced, place_client, add_accepted, add_client,
}
use mogakso.Os.{opened, error_callback, is_open, Proper, Os, Sane}
use mogakso.Protocol.Parser.Live.{view, view-init_parser}
use mogakso.Server.Receive.Delivery.{Bytes}

module _ {Q : Type 0} (fifo : Fifo Q) (os : Os) where
  opened-IsTracked :
      (stx : ServerContext Q) (fd : ℕ)
      → IsTracked fifo stx
      → IsTracked fifo (logged stx (opened (pos fd)))
  opened-IsTracked stx fd t = record {
    bytes = t.bytes;
    mapped_open = λ g i e. elim (Bool-cases (fd == g)) [
      | inl same ↦ rw same
      | inr other ↦ rw other (t.mapped_open g i e)
    ];
    sound = t.sound;
  }

  new-Bytes :
      (stx : ServerContext Q) (fd : ℕ) (p : StreamParser)
      → some init_parser ≡ some p
      → Bytes (view p)
  new-Bytes stx fd p e =
      let at : init_parser ≡ p = cc in
      subst (λ q. Bytes (view q)) at (subst Bytes (sym view-init_parser) tt)

  placed-IsTracked :
      (stx : ServerContext Q) (fd j : ℕ)
      → IsTracked fifo stx
      → is_open (pos fd) stx.log ≡ true
      → IsTracked fifo (placed os stx fd j)
  unfolding placed
  placed-IsTracked stx fd j t is_new = record {
    bytes = λ i.
        update-cases (λ c. (q : StreamParser) → c.client_parser ≡ some q → Bytes (view q))
          stx.clients (j - 3) (record (new_client os stx fd) { client_parser = some init_parser }) i
          (new-Bytes stx fd) (t.bytes i);
    mapped_open = λ g i e. elim (Bool-cases (fd == g)) [
      | inl same ↦
          let at : fd ≡ g = ground arith in subst (λ n. is_open (pos n) stx.log ≡ true) at is_new
      | inr other ↦ t.mapped_open g i (rw other at e)
    ];
    sound = t.sound;
  }

  unplaced-IsTracked :
      (stx : ServerContext Q) (fd j : ℕ)
      → IsTracked fifo stx
      → stx.client_map fd ≡ none
      → IsTracked fifo (unplaced os stx fd j)
  unfolding unplaced handle_error
  unplaced-IsTracked stx fd j t new =
      closed-IsTracked fifo
        (record stx {
          pollers = update stx.pollers j (record (stx.pollers j) { fd = negsuc 0; events = true });
          clients = update stx.clients (j - 3) (new_client os stx fd);
          log = error_callback 12 ∷ stx.log;
        })
        fd
        (record {
          bytes = λ i.
              update-cases (λ c. (q : StreamParser) → c.client_parser ≡ some q → Bytes (view q))
                stx.clients (j - 3) (new_client os stx fd) i (λ q e. absurd (cc)) (t.bytes i);
          mapped_open = t.mapped_open;
          sound = t.sound;
        })
        new

  add_accepted-IsTracked :
      (stx : ServerContext Q) (fd : ℕ)
      → IsTracked fifo stx
      → stx.client_map fd ≡ none
      → is_open (pos fd) stx.log ≡ true
      → IsTracked fifo (add_accepted os stx fd)
  unfolding add_accepted place_client handle_error
  add_accepted-IsTracked stx fd t new is_new = elim (Bool-cases (leb max_fd_limit fd)) [
    | inl large ↦
        rw large (
          closed-IsTracked fifo (logged stx _) fd (with_log-IsTracked fifo stx _ t (λ g. refl)) new)
    | inr small ↦ elim (Bool-cases (leb stx.max_clients stx.client_count)) [
      | inl full ↦
          rw (small, full)
            (closed-IsTracked fifo (logged stx _) fd (with_log-IsTracked fifo stx _ t (λ g. refl))
              new)
      | inr room ↦
          rw (small, room)
            (elim (Option-cases (find_free stx.max_clients 3 stx.pollers)) [
              | inl no_slot ↦ rw (no_slot, add_accepted) (closed-IsTracked fifo stx fd t new)
              | inr (j, slot) ↦
                  rw (slot, add_accepted)
                    (elim (Bool-cases (os.calloc_ok stx.log sizeof_parser)) [
                      | inl memory ↦ rw memory (placed-IsTracked stx fd j t is_new)
                      | inr none_left ↦ rw none_left (unplaced-IsTracked stx fd j t new)
                    ])
            ])
    ]
  ]

  add_accepted-Proper :
      (stx : ServerContext Q) (fd : ℕ)
      → is_open (pos fd) stx.log ≡ true
      → Proper stx.log
      → Proper (add_accepted os stx fd).log
  unfolding add_accepted place_client placed unplaced handle_error
  add_accepted-Proper stx fd op pr = elim (Bool-cases (leb max_fd_limit fd)) [
    | inl large ↦ rw large (op, (tt, pr))
    | inr small ↦ elim (Bool-cases (leb stx.max_clients stx.client_count)) [
      | inl full ↦ rw (small, full) (op, (op, pr))
      | inr room ↦
          rw (small, room)
            (elim (Option-cases (find_free stx.max_clients 3 stx.pollers)) [
              | inl no_slot ↦ rw (no_slot, add_accepted) (op, pr)
              | inr (j, slot) ↦
                  rw (slot, add_accepted)
                    (elim (Bool-cases (os.calloc_ok stx.log sizeof_parser)) [
                      | inl memory ↦ rw memory (op, pr)
                      | inr none_left ↦ rw none_left (op, (tt, pr))
                    ])
            ])
    ]
  ]

  add_accepted_first :
      (stx : ServerContext Q) (fd : ℕ)
      → ((add_accepted os stx fd).pollers 1).fd ≡ (stx.pollers 1).fd
  unfolding add_accepted place_client placed unplaced handle_error
  add_accepted_first stx fd = elim (Bool-cases (leb max_fd_limit fd)) [
    | inl large ↦ rw large refl
    | inr small ↦ elim (Bool-cases (leb stx.max_clients stx.client_count)) [
      | inl full ↦ rw (small, full) refl
      | inr room ↦
          rw (small, room)
            (elim (Option-cases (find_free stx.max_clients 3 stx.pollers)) [
              | inl no_slot ↦ rw (no_slot, add_accepted) refl
              | inr (j, slot) ↦
                  let low = (find_free-some stx.max_clients 3 j stx.pollers slot).0 in
                  rw (slot, add_accepted)
                    (elim (Bool-cases (os.calloc_ok stx.log sizeof_parser)) [
                      | inl memory ↦ rw (memory, ne→==_false j 1 (omega (arith, low))) refl
                      | inr none_left ↦ rw (none_left, ne→==_false j 1 (omega (arith, low))) refl
                    ])
            ])
    ]
  ]

  -- A descriptor that is not open is no client's.
  unmapped :
      (stx : ServerContext Q) (fd : ℕ)
      → IsTracked fifo stx
      → is_open (pos fd) stx.log ≡ false
      → stx.client_map fd ≡ none
  unmapped stx fd t shut = elim (Option-cases (stx.client_map fd)) [
    | inl e ↦ e
    | inr (i, e) ↦ cc (t.mapped_open fd i e, shut)
  ]

  accepted-IsGood :
      (stx : ServerContext Q) (fd : ℕ)
      → IsGood fifo stx
      → is_open (pos fd) stx.log ≡ false
      → IsGood fifo (add_accepted os (logged stx (opened (pos fd))) fd)
  accepted-IsGood stx fd g shut =
      let stx1 = logged stx (opened (pos fd)) in
      let new = unmapped stx fd g.track shut in
      record {
        table =
            add_accepted-IsValid os stx1 fd
              (IsValid-frame stx stx1 refl refl refl refl refl g.table) new;
        track =
            add_accepted-IsTracked stx1 fd (opened-IsTracked stx fd g.track) new
              (rw (eq→== fd fd refl));
        proper = add_accepted-Proper stx1 fd (rw (eq→== fd fd refl)) (shut, g.proper);
        stop_polled = ap is_neg (add_accepted_first stx1 fd) ∙ g.stop_polled;
      }

  after_accept :
      (stx : ServerContext Q) (answer : ℤ)
      → os.accept stx.log ≡ answer
      → Sane os
      → IsGood fifo stx
      → IsGood fifo (add_client os stx)
  unfolding add_client handle_error
  after_accept stx (negsuc n) e sane g =
      rw (e, add_client)
        (record {
          table = IsValid-frame stx _ refl refl refl refl refl g.table;
          track = with_log-IsTracked fifo stx _ g.track (λ fd. refl);
          proper = (tt, g.proper);
          stop_polled = g.stop_polled;
        })
  after_accept stx (pos fd) e sane g =
      rw (e, add_client) (accepted-IsGood stx fd g (sane.accept_new stx.log fd e))

  -- `_add_client`, on every branch, keeps the invariant: `accept` fails, the descriptor is too large,
  -- the server is full, there is no slot or no memory, or the client is added.
  pub add_client-IsGood :
      (stx : ServerContext Q) → Sane os → IsGood fifo stx → IsGood fifo (add_client os stx)
  add_client-IsGood stx sane g = after_accept stx (os.accept stx.log) refl sane g
