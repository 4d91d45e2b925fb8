-- ===== src/Server/Invariant/Table.antt =====
-- Reading from a client and removing it keep the invariant.
use mogakso.Protocol.Parser.{StreamParser}
use mogakso.Server.Slots.Valid.{Occupied}
use mogakso.Server.Slots.Changes.{Occupied-frame}
use mogakso.Server.Receive.{store_parser}
use mogakso.Server.Invariant.{IsTracked, IsGood, Quiet}
use mogakso.Common.{
  ◌==◌, lt→ltb, ne→==_false, Bool-cases, pos, negsuc, is_neg, ℕ, ◌+◌, ◌-◌, ◌≤◌, ◌<◌, ◌≡◌, refl, sym,
  ap, ◌∙◌, subst, inl, inr, true, none, some, List, arith,
}
use mogakso.Server.State.{Fifo, ServerContext, max_fd_limit, update, logged}
use mogakso.Os.{Event, closed, is_open, SameOpen, Proper}
use mogakso.Server.Receive.Table.{Outcome, unchanged, stored, removed, Outcome-IsValid}
use mogakso.Server.Receive.Delivery.{Bytes, with_log}
use mogakso.Server.Slots.{no_events, zero_client, remove_fd, remove_client}
use mogakso.Protocol.Parser.Live.{view}

-- One value of a function has been replaced: what holds of it and of the others holds.
pub update-cases {ℓ κ} :
    {A : Type ℓ} (P : A → Type κ) (f : ℕ → A) (i : ℕ) (a : A) (k : ℕ)
    → P a
    → P (f k)
    → P (update f i a k)
update-cases P f i a k new old = elim (Bool-cases (i == k)) [
  | inl same ↦ rw same new
  | inr other ↦ rw other old
]

module _ {Q : Type 0} (fifo : Fifo Q) where
  pub with_log-IsTracked :
      (stx : ServerContext Q) (l : List Event)
      → IsTracked fifo stx
      → SameOpen stx.log l
      → IsTracked fifo (with_log stx l)
  with_log-IsTracked stx l t same = record {
    bytes = t.bytes;
    mapped_open = λ fd i e. same (pos fd) ∙ t.mapped_open fd i e;
    sound = t.sound;
  }

  -- A descriptor that is no client's may be closed.
  pub closed-IsTracked :
      (stx : ServerContext Q) (fd : ℕ)
      → IsTracked fifo stx
      → stx.client_map fd ≡ none
      → IsTracked fifo (logged stx (closed (pos fd)))
  closed-IsTracked stx fd t free = record {
    bytes = t.bytes;
    mapped_open = λ g i e. elim (Bool-cases (fd == g)) [
      | inl same ↦ let at : fd ≡ g = ground arith in cc (free, e, ap stx.client_map at)
      | inr other ↦ rw other (t.mapped_open g i e)
    ];
    sound = t.sound;
  }

  stored-IsTracked :
      (stx : ServerContext Q) (l : List Event) (k : ℕ) (p : StreamParser)
      → IsTracked fifo stx
      → Bytes (view p)
      → SameOpen stx.log l
      → IsTracked fifo (store_parser (with_log stx l) k (some p))
  stored-IsTracked stx l k p t h same = record {
    bytes = λ i.
        update-cases (λ c. (q : StreamParser) → c.client_parser ≡ some q → Bytes (view q))
          stx.clients k (record (stx.clients k) { client_parser = some p }) i
          (λ q e. let at : p ≡ q = cc in subst (λ r. Bytes (view r)) at h) (t.bytes i);
    mapped_open = λ fd i e. same (pos fd) ∙ t.mapped_open fd i e;
    sound = t.sound;
  }

  removed_fd-IsTracked :
      (stx : ServerContext Q) (j fd : ℕ)
      → fd < max_fd_limit
      → IsTracked fifo stx
      → IsTracked fifo (remove_fd stx j (pos fd))
  unfolding remove_fd
  removed_fd-IsTracked stx j fd small t = record {
    bytes = λ i.
        update-cases (λ c. (q : StreamParser) → c.client_parser ≡ some q → Bytes (view q))
          stx.clients (j - 3) zero_client i (λ q e. absurd (cc)) (t.bytes i);
    mapped_open = λ g i e. elim (Bool-cases (fd == g)) [
      | inl same ↦ absurd (cc (rw (lt→ltb fd max_fd_limit small, same) at e))
      | inr other ↦ rw other (t.mapped_open g i (rw (lt→ltb fd max_fd_limit small, other) at e))
    ];
    sound = t.sound;
  }

  removed-IsTracked :
      (stx : ServerContext Q) (j fd : ℕ)
      → Occupied stx j fd
      → IsTracked fifo stx
      → IsTracked fifo (remove_client stx j)
  unfolding remove_client
  removed-IsTracked stx j fd o t =
      subst (λ a. IsTracked fifo (remove_fd stx j a)) (sym o.polled)
        (removed_fd-IsTracked stx j fd o.below t)

  -- The client's descriptor is closed last.
  removed-Proper :
      (stx : ServerContext Q) (j fd : ℕ) (l : List Event)
      → Occupied stx j fd
      → is_open (pos fd) l ≡ true
      → Proper l
      → Proper (remove_client (with_log stx l) j).log
  unfolding remove_client remove_fd
  removed-Proper stx j fd l o op pr =
      subst (λ a. Proper (remove_fd (with_log stx l) j a).log) (sym o.polled) (op, pr)

  removed_first :
      (stx : ServerContext Q) (j fd : ℕ) (l : List Event)
      → Occupied stx j fd
      → 3 ≤ j
      → ((remove_client (with_log stx l) j).pollers 1).fd ≡ (stx.pollers 1).fd
  unfolding remove_client remove_fd
  removed_first stx j fd l o lo = rw (o.polled, ne→==_false j 1 (omega arith)) refl

  -- Whatever `_handle_client_data` leaves of a client's slot, the invariant holds.
  pub Outcome-IsGood :
      (stx : ServerContext Q) (j fd : ℕ) (stx' : ServerContext Q)
      → IsGood fifo stx
      → 3 ≤ j
      → j < stx.max_clients + 3
      → Occupied stx j fd
      → Outcome stx j stx'
      → IsGood fifo stx'
  Outcome-IsGood stx j fd stx' g lo hi o out = record {
    table = Outcome-IsValid stx j fd stx' g.table lo hi o out;
    track = track_of out;
    proper = proper_of out;
    stop_polled = ap is_neg (first_of out) ∙ g.stop_polled;
  }
    where
      first_of : Outcome stx j stx' → (stx'.pollers 1).fd ≡ (stx.pollers 1).fd
      first_of (unchanged e) = ap (λ s. (s.pollers 1).fd) e
      first_of (stored l p e live h same) = ap (λ s. (s.pollers 1).fd) e
      first_of (removed l e same) = ap (λ s. (s.pollers 1).fd) e ∙ removed_first stx j fd l o lo

      fd_open : is_open (pos fd) stx.log ≡ true
      fd_open = g.track.mapped_open fd (j - 3) o.mapped

      slot_open : is_open (stx.clients (j - 3)).socket_fd stx.log ≡ true
      slot_open = subst (λ a. is_open a stx.log ≡ true) (sym o.known) fd_open

      proper_of : Outcome stx j stx' → Proper stx'.log
      proper_of (unchanged e) = subst (λ s. Proper s.log) (sym e) g.proper
      proper_of (stored l p e live h same) =
          subst (λ s. Proper s.log) (sym e) (same.1 slot_open g.proper)
      proper_of (removed l e same) =
          subst (λ s. Proper s.log) (sym e)
            (removed-Proper stx j fd l o (same.0 (pos fd) ∙ fd_open) (same.1 slot_open g.proper))

      track_of : Outcome stx j stx' → IsTracked fifo stx'
      track_of (unchanged e) = subst (IsTracked fifo) (sym e) g.track
      track_of (stored l p e live h same) =
          subst (IsTracked fifo) (sym e) (stored-IsTracked stx l (j - 3) p g.track h same.0)
      track_of (removed l e same) = subst (IsTracked fifo) (sym e) (
          removed-IsTracked (with_log stx l) j fd
            (Occupied-frame stx (with_log stx l) j fd refl refl refl o)
            (with_log-IsTracked stx l g.track same.0))

  removed-Quiet :
      (stx : ServerContext Q) (j fd : ℕ)
      → Quiet stx
      → Quiet (remove_fd stx j (pos fd))
        × ((remove_fd stx j (pos fd)).max_clients ≡ stx.max_clients)
  unfolding remove_fd
  removed-Quiet stx j fd q = (
    λ k.
        update-cases (λ p. p.fd ≡ negsuc 0 → p.revents ≡ no_events) stx.pollers j
          (record (stx.pollers j) { fd = negsuc 0; revents = no_events }) k (λ e. refl) (q k),
    refl,
  )

  -- Nor does a free slot come to have events, nor does the number of slots change.
  pub Outcome-Quiet :
      (stx : ServerContext Q) (j fd : ℕ) (stx' : ServerContext Q)
      → Occupied stx j fd
      → Quiet stx
      → Outcome stx j stx'
      → Quiet stx' × (stx'.max_clients ≡ stx.max_clients)
  unfolding remove_client
  Outcome-Quiet stx j fd stx' o q (unchanged e) =
      subst (λ s. Quiet s × (s.max_clients ≡ stx.max_clients)) (sym e) (q, refl)
  Outcome-Quiet stx j fd stx' o q (stored l p e live h same) =
      subst (λ s. Quiet s × (s.max_clients ≡ stx.max_clients)) (sym e) (q, refl)
  Outcome-Quiet stx j fd stx' o q (removed l e same) =
      subst (λ s. Quiet s × (s.max_clients ≡ stx.max_clients)) (sym e)
        (subst
          (λ a.
            Quiet (remove_fd (with_log stx l) j a)
            × ((remove_fd (with_log stx l) j a).max_clients ≡ stx.max_clients))
          (sym o.polled) (removed-Quiet (with_log stx l) j fd q))
