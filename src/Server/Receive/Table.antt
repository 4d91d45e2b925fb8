-- ===== src/Server/Receive/Table.antt =====
-- `_handle_client_data` on every branch, and the slot table.
use mogakso.Protocol.Parser.Live.{IsLive, view}
use mogakso.Protocol.Parser.{StreamParser}
use mogakso.Server.Slots.Valid.{Occupied, IsValid}
use mogakso.Server.Slots.Changes.{
  update-same, update_self, update-twice, Occupied-frame, slots-change,
}
use mogakso.Server.Slots.AddRemove.{IsValid-frame, remove_client-IsValid}
use mogakso.Server.Receive.Data.{Accepts, handle_client_data-Accepts}
use mogakso.Server.Slots.{zero_client, remove_fd, remove_client}
use mogakso.Server.State.{Fifo, ServerContext, handle_error}
use mogakso.Server.Receive.{store_parser, after_recv, handle_client_data}
use mogakso.Common.{
  Bool-cases, pos, Run, done, ℕ, ◌+◌, ◌-◌, ◌≤◌, ◌<◌, ◌≡◌, refl, sym, ap, ◌∙◌, subst, inl, inr, true,
  Option, some, List, ◌∷◌,
}
use mogakso.Server.Receive.Delivery.{Bytes, with_log}
use mogakso.Os.{
  Received, got_bytes, end_of_stream, recv_failed, Event, error_callback, is_open, SameOpen, Proper,
  Os, Sane,
}
use mogakso.Protocol.Parser.Reader.{Fed, reading, refused, Kept, feed-Kept}

module _ {Q : Type 0} where
  -- The parser's place in the slot may be written: the table stays valid.
  store_parser-IsValid :
      (stx : ServerContext Q) (l : List Event) (j fd : ℕ) (p : StreamParser)
      → IsValid stx
      → 3 ≤ j
      → Occupied stx j fd
      → IsLive p
      → IsValid (store_parser (with_log stx l) (j - 3) (some p))
  store_parser-IsValid stx l j fd p v lo o live = record {
    slots =
        slots-change stx (store_parser (with_log stx l) (j - 3) (some p)) v j (stx.pollers j)
          (record (stx.clients (j - 3)) { client_parser = some p }) lo
          (sym (update_self stx.pollers j)) refl refl (λ fd' k ne le o'. refl) (inr (fd, at_slot));
    map_back = v.map_back;
    count = v.count;
  }
    where
      at_slot : Occupied (store_parser (with_log stx l) (j - 3) (some p)) j fd
      at_slot = record {
        polled = o.polled;
        known = ap (λ c. c.socket_fd) (update-same stx.clients (j - 3) _) ∙ o.known;
        below = o.below;
        mapped = o.mapped;
        parser = p;
        has_parser = ap (λ c. c.client_parser) (update-same stx.clients (j - 3) _);
        live = live;
      }

  -- Removing a client forgets its parser.
  remove-stored :
      (stx : ServerContext Q) (j fd : ℕ) (p : Option StreamParser)
      → Occupied stx j fd
      → remove_client (store_parser stx (j - 3) p) j ≡ remove_client stx j
  unfolding remove_client
  remove-stored stx j fd p o =
      rw (o.polled, remove_fd, update-twice stx.clients (j - 3) _ zero_client) refl

-- Between two logs no descriptor was opened or closed, and the events between them were allowed, if
-- the descriptor of the client of slot `j` was open.
abbrev pub Goes : {Q : Type 0} → ServerContext Q → ℕ → List Event → Type 0
Goes stx j l =
    SameOpen stx.log l
    × (is_open (stx.clients (j - 3)).socket_fd stx.log ≡ true → Proper stx.log → Proper l)

-- What a call on the slot of a client leaves: nothing is changed, or the parser has read some bytes,
-- or the client is removed. No descriptor is opened, and only the client's is closed.
pub data Outcome {Q : Type 0} (stx : ServerContext Q) (j : ℕ) (stx' : ServerContext Q)
    : Type 0 where
  unchanged : stx' ≡ stx → Outcome stx j stx'
  stored :
      (l : List Event) (p : StreamParser)
      → stx' ≡ store_parser (with_log stx l) (j - 3) (some p)
      → IsLive p
      → Bytes (view p)
      → Goes stx j l
      → Outcome stx j stx'
  removed :
      (l : List Event) → stx' ≡ remove_client (with_log stx l) j → Goes stx j l → Outcome stx j stx'

module _ {Q : Type 0} (os : Os) (fifo : Fifo Q) (retries : ℕ) (sane : Sane os)
    (stx : ServerContext Q) (j fd : ℕ) (o : Occupied stx j fd) where
  abbrev Ends : Run (ServerContext Q) → Type 0
  Ends r = (stx' : ServerContext Q) × (r ≡ done stx') × Outcome stx j stx'

  client_open :
      is_open (stx.clients (j - 3)).socket_fd stx.log ≡ true → is_open (pos fd) stx.log ≡ true
  client_open op = subst (λ a. is_open a stx.log ≡ true) o.known op

  accepted-Ends :
      (x : Fed (List Event)) (r : Run (ServerContext Q))
      → Accepts stx j x r
      → Kept (Goes stx j) x
      → Ends r
  unfolding handle_error
  accepted-Ends (reading f l) r (p, e, live, v, h) same = (_, e, stored l p refl live (rw v h) same)
  accepted-Ends (refused l) r (p, e) same = (
    _,
    e,
    removed (error_callback 0 ∷ l)
        (remove-stored (with_log stx (error_callback 0 ∷ l)) j fd (some p)
          (Occupied-frame stx (with_log stx (error_callback 0 ∷ l)) j fd refl refl refl o))
        (same.0, λ op pr. (tt, same.1 op pr)),
  )

  received-Ends :
      (r : Received)
      → os.recv stx.log (pos fd) ≡ r
      → (stx.pollers j).revents.pollin ≡ true
      → Bytes (view o.parser)
      → Ends (handle_client_data os fifo retries stx j)
  unfolding handle_client_data after_recv handle_error
  received-Ends (got_bytes b bs) e ready h =
      accepted-Ends _ _ (handle_client_data-Accepts os fifo retries sane stx j fd b bs o ready e h)
        (feed-Kept _ _ (Goes stx j)
          (λ type payload len w goes.
            (goes.0, λ op pr. (goes.0 (pos fd) ∙ client_open op, goes.1 op pr)))
          (view o.parser) (b ∷ bs) _ (λ g. refl, λ op pr. (client_open op, pr)))
  received-Ends end_of_stream e ready h =
      rw (ready, o.known, e, after_recv)
        (_, refl, removed _ refl (λ g. refl, λ op pr. (op, (op, pr))))
  received-Ends recv_failed e ready h =
      rw (ready, o.known, e, after_recv)
        (_, refl, removed _ refl (λ g. refl, λ op pr. (op, (tt, (op, pr)))))

  -- `_handle_client_data` on the slot of a client, whose parser holds bytes, ends without a fault on
  -- every branch, and leaves one of the outcomes.
  pub handle_client_data-Outcome :
      Bytes (view o.parser)
      → (stx' : ServerContext Q) × (handle_client_data os fifo retries stx j ≡ done stx')
        × Outcome stx j stx'
  unfolding handle_client_data handle_error
  handle_client_data-Outcome h = elim (Bool-cases (stx.pollers j).revents.pollin) [
    | inl ready ↦ received-Ends (os.recv stx.log (pos fd)) refl ready h
    | inr idle ↦ elim (Bool-cases (stx.pollers j).revents.broken) [
      | inl broken ↦
          rw (idle, broken) (_, refl, removed _ refl (λ g. refl, λ op pr. (op, (tt, pr))))
      | inr quiet ↦ rw (idle, quiet) (stx, refl, unchanged refl)
    ]
  ]

module _ {Q : Type 0} where
  pub Outcome-IsValid :
      (stx : ServerContext Q) (j fd : ℕ) (stx' : ServerContext Q)
      → IsValid stx
      → 3 ≤ j
      → j < stx.max_clients + 3
      → Occupied stx j fd
      → Outcome stx j stx'
      → IsValid stx'
  Outcome-IsValid stx j fd stx' v lo hi o (unchanged e) = subst IsValid (sym e) v
  Outcome-IsValid stx j fd stx' v lo hi o (stored l p e live h same) =
      subst IsValid (sym e) (store_parser-IsValid stx l j fd p v lo o live)
  Outcome-IsValid stx j fd stx' v lo hi o (removed l e same) =
      subst IsValid (sym e)
        (remove_client-IsValid (with_log stx l) j
          (IsValid-frame stx (with_log stx l) refl refl refl refl refl v) lo hi).0

  -- `_handle_client_data` on the slot of a client ends without a fault and keeps the slot table
  -- valid, whatever `poll` and `recv` report: bytes, an end of the stream, an error, or nothing.
  pub handle_client_data-IsValid :
      (os : Os) (fifo : Fifo Q) (retries : ℕ) (sane : Sane os) (stx : ServerContext Q) (j fd : ℕ)
      (v : IsValid stx) (lo : 3 ≤ j) (hi : j < stx.max_clients + 3) (o : Occupied stx j fd)
      → Bytes (view o.parser)
      → (stx' : ServerContext Q) × (handle_client_data os fifo retries stx j ≡ done stx')
        × IsValid stx'
  handle_client_data-IsValid os fifo retries sane stx j fd v lo hi o h =
      let (stx', e, out) = handle_client_data-Outcome os fifo retries sane stx j fd o h in
      (stx', e, Outcome-IsValid stx j fd stx' v lo hi o out)
