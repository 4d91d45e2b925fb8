-- ===== src/Server/Receive/Data.antt =====
-- `_handle_client_data` on received bytes.
use mogakso.Server.Slots.Valid.{Occupied}
use mogakso.Protocol.Parser.Refine.{Agrees, parse_stream-Agrees}
use mogakso.Protocol.Parser.{StreamParser, parse_stream}
use mogakso.Server.Receive.Delivery.{Bytes, app_callback, KeepsBytes, with_log, lifted, feed-lifted}
use mogakso.Server.Slots.{remove_client}
use mogakso.Os.{got_bytes, Event, received, Os, Sane}
use mogakso.Server.Receive.{
  store_parser, parse_outcome, on_internal_parse_complete, can_calloc, after_recv,
  handle_client_data,
}
use mogakso.Common.{ℤ, pos, Run, done, ◌>>=◌, ℕ, ◌-◌, ◌≡◌, subst, true, Option, some, List, ◌∷◌}
use mogakso.Server.State.{Fifo, ServerContext, handle_error}
use mogakso.Protocol.Parser.Reader.{Fed, reading, refused, feed}
use mogakso.Protocol.Parser.Live.{IsLive, view}

module _ {Q : Type 0} where
  -- What a call leaves of slot `j`, by what the reader makes of the bytes.
  abbrev pub Accepts : ServerContext Q → ℕ → Fed (List Event) → Run (ServerContext Q) → Type 0
  Accepts stx j (reading f l) r =
      (p : StreamParser) × (r ≡ done (store_parser (with_log stx l) (j - 3) (some p)))
      × IsLive p
      × (view p ≡ f)
      × Bytes f
  Accepts stx j (refused l) r =
      (p : StreamParser) × (r
        ≡ done (remove_client (handle_error (store_parser (with_log stx l) (j - 3) (some p)) 0) j))

  abbrev parsed :
      ServerContext Q
      → ℕ
      → Run (ℤ × Option StreamParser × Run (ServerContext Q))
      → Run (ServerContext Q)
  parsed stx j r = do
    (result, p, w) ← r
    stx' ← w
    done (parse_outcome j result (store_parser stx' (j - 3) p))

  after_parse :
      (stx : ServerContext Q) (j : ℕ) (x : Fed (List Event))
      (r : Run (ℤ × Option StreamParser × Run (ServerContext Q)))
      → Agrees (lifted stx x) r
      → KeepsBytes x
      → Accepts stx j x (parsed stx j r)
  unfolding parse_outcome
  after_parse stx j (reading f l) r (p, e, live, v) h = (p, rw e, live, v, h)
  after_parse stx j (refused l) r (p, e, stuck) h = (p, rw e)

module _ {Q : Type 0} (os : Os) (fifo : Fifo Q) (retries : ℕ) (sane : Sane os)
    (stx : ServerContext Q) (j fd b : ℕ) (bs : List ℕ) where
  -- The log once the bytes have been received.
  abbrev pub fetched : List Event
  fetched = received (pos fd) (got_bytes b bs) ∷ stx.log

  -- What the reader makes of the bytes, with the application's callback and the parser's open frame.
  abbrev pub read_by : StreamParser → Fed (List Event)
  read_by p = feed (λ l n. os.calloc_ok l n) (app_callback (pos fd)) (view p) (b ∷ bs) fetched

  -- When the poller of a client's slot is readable and `recv` gives bytes, `_handle_client_data` ends
  -- without a fault and does what the reader does with the bytes: it hands each message that is
  -- completed to the application's callback and nothing to the queue, and keeps the open frame in
  -- the slot's parser; if memory for a payload is refused, it removes the client.
  pub handle_client_data-Accepts :
      (o : Occupied stx j fd)
      → (stx.pollers j).revents.pollin ≡ true
      → os.recv stx.log (pos fd) ≡ got_bytes b bs
      → Bytes (view o.parser)
      → Accepts stx j (read_by o.parser) (handle_client_data os fifo retries stx j)
  unfolding handle_client_data after_recv
  handle_client_data-Accepts o ready bytes open_bytes =
      let cb = on_internal_parse_complete os fifo retries (pos fd) in
      let run =
        parse_stream (can_calloc os fifo retries) (some o.parser) (some (b ∷ bs)) (some cb)
          (done (with_log stx fetched)) in
      let fed =
        feed-lifted os fifo retries (pos fd) stx (view o.parser) (b ∷ bs) fetched open_bytes
          (sane.recv_bytes stx.log (pos fd) b bs bytes) in
      rw (ready, o.known, bytes, after_recv, o.has_parser, o.known, bytes)
        (after_parse stx j (read_by o.parser) run
          (subst (λ x. Agrees x run) fed.0
            (parse_stream-Agrees (can_calloc os fifo retries) cb o.parser (b ∷ bs)
              (done (with_log stx fetched)) o.live))
          fed.1)
