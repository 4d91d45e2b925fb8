-- ===== src/Server/Receive/Session.antt =====
-- What the application hears of one client over many calls of `_handle_client_data`.
use mogakso.Protocol.Parser.Pieces.{feed-append}
use mogakso.Protocol.Parser.RoundTrip.{flatten, frames, deliver_all, feed-frames}
use mogakso.Protocol.Parser.Live.{view}
use mogakso.Protocol.Parser.Worlds.{image, feed-image, feed-Reads}
use mogakso.Protocol.Parser.{StreamParser, Callback}
use mogakso.Server.Slots.Valid.{Occupied}
use mogakso.Server.Slots.Changes.{update-same}
use mogakso.Server.Receive.Data.{Accepts, fetched, read_by, handle_client_data-Accepts}
use mogakso.Server.Receive.Delivery.{Bytes, app_callback, with_log}
use mogakso.Server.State.{Fifo, ServerContext}
use mogakso.Server.Receive.{store_parser, handle_client_data}
use mogakso.Common.{
  if◌then◌else◌, length, All, ℤ, pos, eqb_ℤ, done, ℕ, ◌-◌, ◌^◌, ◌<◌, ◌≡◌, refl, sym, ap, ◌∙◌, subst,
  Bool, true, Option, none, some, List, [], ◌∷◌, ◌++◌, arith,
}
use mogakso.Protocol.Parser.Reader.{Fed, reading, refused, continue, feed}
use mogakso.Os.{got_bytes, Event, message_callback, Os, Sane}

-- A message as the callback is given it: type, payload, length.
abbrev pub Heard : Type 0
Heard = List (ℕ × Option (List ℕ) × ℕ)

abbrev said : ℤ → Event → Option (ℕ × Option (List ℕ) × ℕ)
said fd (message_callback g type payload len) =
    if eqb_ℤ g fd then some (type, payload, len) else none
said fd _ = none

abbrev push : Heard → Option (ℕ × Option (List ℕ) × ℕ) → Heard
push got none = got
push got (some m) = got ++ m ∷ []

-- The messages of a client, in order.
abbrev pub heard : ℤ → List Event → Heard
heard fd [] = []
heard fd (e ∷ log) = push (heard fd log) (said fd e)

abbrev pub collect : Callback Heard
collect type payload len got = got ++ (type, payload, len) ∷ []

abbrev always : Heard → ℕ → Bool
always got n = true

-- The calls for slot `j` that receive some pieces of bytes, one after the other. In between, anything
-- may happen that leaves the slot's client, and what was heard of it.
pub data Fetches {Q : Type 0} (os : Os) (fifo : Fifo Q) (retries j fd : ℕ)
    : ServerContext Q → List (List ℕ) → ServerContext Q → Type 0 where
  over : (stx : ServerContext Q) → Fetches os fifo retries j fd stx [] stx
  meanwhile :
      (stx stx1 stx' : ServerContext Q) (pieces : List (List ℕ))
      → stx1.clients (j - 3) ≡ stx.clients (j - 3)
      → heard (pos fd) stx1.log ≡ heard (pos fd) stx.log
      → Fetches os fifo retries j fd stx1 pieces stx'
      → Fetches os fifo retries j fd stx pieces stx'
  fetch :
      (stx stx1 stx' : ServerContext Q) (b : ℕ) (bs : List ℕ) (pieces : List (List ℕ))
      → Occupied stx j fd
      → (stx.pollers j).revents.pollin ≡ true
      → os.recv stx.log (pos fd) ≡ got_bytes b bs
      → handle_client_data os fifo retries stx j ≡ done stx1
      → Fetches os fifo retries j fd stx1 pieces stx'
      → Fetches os fifo retries j fd stx ((b ∷ bs) ∷ pieces) stx'

abbrev world_of : Fed Heard → Heard
world_of (reading f w) = w
world_of (refused w) = w

module _ {Q : Type 0} (os : Os) (fifo : Fifo Q) (retries j fd : ℕ) (sane : Sane os)
    (given : (log : List Event) (n : ℕ) → os.calloc_ok log n ≡ true) where
  heard_call :
      (type : ℕ) (payload : Option (List ℕ)) (len : ℕ) (log : List Event)
      → collect type payload len (heard (pos fd) log)
        ≡ heard (pos fd) (app_callback (pos fd) type payload len log)
  heard_call type payload len log =
      let self : eqb_ℤ (pos fd) (pos fd) ≡ true = ground arith in rw self

  -- The reader on what is heard goes on with the parser's open frame.
  abbrev Hears : ServerContext Q → List (List ℕ) → ServerContext Q → StreamParser → Type 0
  Hears stx pieces stx' p =
      (p' : StreamParser) × ((stx'.clients (j - 3)).client_parser ≡ some p')
      × (feed always collect (view p) (flatten pieces) (heard (pos fd) stx.log)
          ≡ reading (view p') (heard (pos fd) stx'.log))

  -- One call.
  fetched-Hears :
      (stx stx1 : ServerContext Q) (b : ℕ) (bs : List ℕ) (o : Occupied stx j fd)
      → (stx.pollers j).revents.pollin ≡ true
      → os.recv stx.log (pos fd) ≡ got_bytes b bs
      → Bytes (view o.parser)
      → handle_client_data os fifo retries stx j ≡ done stx1
      → (p1 : StreamParser) × ((stx1.clients (j - 3)).client_parser ≡ some p1)
        × Bytes (view p1)
        × (feed always collect (view o.parser) (b ∷ bs) (heard (pos fd) stx.log)
            ≡ reading (view p1) (heard (pos fd) stx1.log))
  fetched-Hears stx stx1 b bs o ready bytes h ran =
      let read = read_by os fifo retries sane stx j fd b bs o.parser in
      let (f, l, e) =
        feed-Reads (λ l n. os.calloc_ok l n) (app_callback (pos fd)) given (view o.parser) (b ∷ bs)
          (fetched os fifo retries sane stx j fd b bs) in
      let accepted : Accepts stx j (reading f l) (handle_client_data os fifo retries stx j) =
        subst (λ x. Accepts stx j x (handle_client_data os fifo retries stx j)) e
          (handle_client_data-Accepts os fifo retries sane stx j fd b bs o ready bytes h) in
      let (p1, ends, live, v, h1) = accepted in
      let at : store_parser (with_log stx l) (j - 3) (some p1) ≡ stx1 = cc (ends, ran) in
      (
        p1,
        subst (λ s. (s.clients (j - 3)).client_parser ≡ some p1) at
            (ap (λ c. c.client_parser) (update-same stx.clients (j - 3) _)),
        rw v h1,
        feed-image (heard (pos fd)) (λ l n. os.calloc_ok l n) always (app_callback (pos fd)) collect
              (λ log n. sym (given log n)) heard_call (view o.parser) (b ∷ bs) _
            ∙ ap (image (heard (pos fd))) e
            ∙ subst (λ s. reading f (heard (pos fd) l) ≡ reading f (heard (pos fd) s.log)) at refl
            ∙ ap (λ g. reading g (heard (pos fd) stx1.log)) (sym v),
      )

  flatten_cons :
      (f : List ℕ) (b : ℕ) (bs : List ℕ) (pieces : List (List ℕ)) (w w1 : Heard) (f1 : List ℕ)
      → feed always collect f (b ∷ bs) w ≡ reading f1 w1
      → feed always collect f ((b ∷ bs) ++ flatten pieces) w
        ≡ feed always collect f1 (flatten pieces) w1
  flatten_cons f b bs pieces w w1 f1 e =
      feed-append always collect f (b ∷ bs) (flatten pieces) w
      ∙ ap (λ x. continue x (λ f' w'. feed always collect f' (flatten pieces) w')) e

  Fetches-Hears :
      (stx stx' : ServerContext Q) (pieces : List (List ℕ)) (p : StreamParser)
      → Fetches os fifo retries j fd stx pieces stx'
      → (stx.clients (j - 3)).client_parser ≡ some p
      → Bytes (view p)
      → Hears stx pieces stx' p
  unfolding feed
  Fetches-Hears stx stx' pieces p (over _) has h = (p, has, refl)
  Fetches-Hears stx stx' pieces p (meanwhile _ stx1 _ _ same same_heard rest) has h =
      let (p', e, hears) =
        Fetches-Hears stx1 stx' pieces p rest (ap (λ c. c.client_parser) same ∙ has) h in
      (
        p',
        e,
        subst
            (λ w.
              feed always collect (view p) (flatten pieces) w
              ≡ reading (view p') (heard (pos fd) stx'.log))
            same_heard hears,
      )
  Fetches-Hears stx stx' _ p (fetch _ stx1 _ b bs pieces o ready bytes ran rest) has h =
      let at : o.parser ≡ p = cc (o.has_parser) in
      let (p1, has1, h1, one) = fetched-Hears stx stx1 b bs o ready bytes (rw at h) ran in
      let (p', e, hears) = Fetches-Hears stx1 stx' pieces p1 rest has1 h1 in
      (
        p',
        e,
        subst
            (λ q.
              feed always collect (view q) ((b ∷ bs) ++ flatten pieces) (heard (pos fd) stx.log)
              ≡ reading (view p') (heard (pos fd) stx'.log))
            at
            (flatten_cons (view o.parser) b bs pieces (heard (pos fd) stx.log)
                (heard (pos fd) stx1.log) (view p1) one
              ∙ hears),
      )

  -- However the calls of `recv` cut the frames of some messages of a client whose parser has no open
  -- frame, and whatever happens between the calls of `_handle_client_data` that leaves the client's
  -- slot alone, the application's callback hears of that client what it had heard and then each
  -- message once, in order, with the low byte of its type and its payload. The server is given
  -- memory.
  pub Fetches-frames :
      (stx stx' : ServerContext Q) (pieces : List (List ℕ)) (p : StreamParser)
      (ms : List (ℕ × List ℕ))
      → Fetches os fifo retries j fd stx pieces stx'
      → (stx.clients (j - 3)).client_parser ≡ some p
      → view p ≡ []
      → flatten pieces ≡ frames ms
      → All (λ (_, payload). length payload < 2 ^ 32) ms
      → heard (pos fd) stx'.log ≡ deliver_all collect ms (heard (pos fd) stx.log)
  Fetches-frames stx stx' pieces p ms runs has fresh cut small =
      let (p', e, hears) = Fetches-Hears stx stx' pieces p runs has (subst Bytes (sym fresh) tt) in
      let start = heard (pos fd) stx.log in
      ap world_of (
        sym hears
        ∙ ap (λ f. feed always collect f (flatten pieces) start) fresh
        ∙ ap (λ xs. feed always collect [] xs start) cut
        ∙ feed-frames always collect ms start small (λ v n. refl))
