-- ===== src/EndToEnd/Broadcasting.antt =====
-- From `server_broadcast_message` to the parsers of the clients.
use mogakso.Server.Commands.{in_context, server_broadcast_message, is_addressed, process_commands}
use mogakso.Command.Blocks.{create_command-copies}
use mogakso.Protocol.Parser.{Callback}
use mogakso.Server.Slots.Valid.{Occupied, IsValid}
use mogakso.Server.EventLoop.Retries.{Settles}
use mogakso.Server.Commands.Api.{Queued, submit-Queued}
use mogakso.Server.Commands.Broadcast.{run_command-Broadcasts, is_addressed-IsValid}
use mogakso.Server.State.{Fifo, ServerContext, sizeof_command}
use mogakso.Os.{Event, Os, Sane}
use mogakso.Command.{broadcast_message}
use mogakso.EndToEnd.{Network, Arrives, whole-Arrives, frames-snoc, IsSmall}
use mogakso.Common.{
  lt→ltb, length, take, All, take-all, All-snoc, ℤ, pos, eqb_ℤ, done, ℕ, ◌+◌, ◌≤◌, ◌<◌, ◌≡◌, refl,
  sym, ap, ◌∙◌, inl, inr, Bool, true, false, some, List, [], ◌∷◌, ◌++◌, arith,
}
use mogakso.EndToEnd.ToClient.{Provides, process_one}
use mogakso.Os.Send.{stream}
use mogakso.Protocol.Parser.RoundTrip.{frames}
use mogakso.Protocol.Framing.{frame}

module _ {Q : Type 0} where
  Occupied-moved :
      (stx : ServerContext Q) (q : Q) (log : List Event) (j fd : ℕ)
      → Occupied stx j fd
      → Occupied (record stx { command_queue = q; log = log }) j fd
  Occupied-moved stx q log j fd o = record {
    polled = o.polled;
    known = o.known;
    below = o.below;
    mapped = o.mapped;
    parser = o.parser;
    has_parser = o.has_parser;
    live = o.live;
  }

  -- The slot table does not know the queue or the log.
  IsValid-moved :
      (stx : ServerContext Q) (q : Q) (log : List Event)
      → IsValid stx
      → IsValid (record stx { command_queue = q; log = log })
  IsValid-moved stx q log v = record {
    slots = λ j lo hi. elim (v.slots j lo hi) [
      | inl free ↦ inl free
      | inr (fd, o) ↦ inr (fd, Occupied-moved stx q log j fd o)
    ];
    map_back = v.map_back;
    count = v.count;
  }

module _ {Q : Type 0} (os : Os) (fifo : Fifo Q) (retries : ℕ) (given : Provides os)
    (settles : Settles os retries) where
  broadcast-Queued :
      (stx : ServerContext Q) (exclude : ℤ) (type b : ℕ) (bs : List ℕ)
      → Queued os fifo retries stx
          (broadcast_message type (some (b ∷ bs)) (length (b ∷ bs)) exclude)
          (server_broadcast_message os fifo retries
            (some stx)
            type
            (some (b ∷ bs))
            (length (b ∷ bs))
            exclude)
  unfolding server_broadcast_message
  broadcast-Queued stx exclude type b bs =
      let made = (create_command-copies exclude type (b ∷ bs) (length (b ∷ bs)) (omega arith)).1 in
      rw
        (
          given.memory stx.log sizeof_command,
          given.memory stx.log (length (b ∷ bs)),
          made,
          lt→ltb 0 (length (b ∷ bs)) (omega arith),
          take-all (length (b ∷ bs)) (b ∷ bs) (omega arith),
        )
        (submit-Queued os fifo retries settles stx
          (broadcast_message type (some (b ∷ bs)) (length (b ∷ bs)) exclude))

  addressed_other :
      (stx : ServerContext Q) (exclude a : ℤ)
      → is_addressed os stx exclude a ≡ true
      → eqb_ℤ a exclude ≡ false
  unfolding is_addressed
  addressed_other stx exclude a h = ground arith

  -- A message of 1 to 4091 bytes is broadcast from a valid slot table, where the queue takes the
  -- command and holds no other. The API function returns 0, and `_process_commands` ends without a
  -- fault, leaves the queue empty and writes nothing to the excluded descriptor. For every client in
  -- a slot but the excluded one, to which whole messages were sent so far: an error is reported, or,
  -- however the network cuts the bytes, the client's parser, if it is given memory, has called back
  -- with those messages and with this one, once and last, and is left with no open frame. The server
  -- is given memory for the command, and of any `retries` writes in a row one is not interrupted.
  pub server_broadcast-Arrives :
      {World : Type 0} (net : Network) (calloc_ok : World → ℕ → Bool) (cb : Callback World)
      (w : World) (stx : ServerContext Q) (exclude : ℤ) (type b : ℕ) (bs : List ℕ) (j fd : ℕ)
      (ms : List (ℕ × List ℕ))
      → Sane os
      → IsValid stx
      → fifo.contents (
          fifo.push stx.command_queue
            (broadcast_message type (some (b ∷ bs)) (length (b ∷ bs)) exclude))
        ≡ broadcast_message type (some (b ∷ bs)) (length (b ∷ bs)) exclude ∷ []
      → length (b ∷ bs) ≤ 4091
      → 3 ≤ j
      → j < stx.max_clients + 3
      → (stx.pollers j).fd ≡ pos fd
      → eqb_ℤ (pos fd) exclude ≡ false
      → stream (pos fd) stx.log ≡ frames ms
      → All IsSmall ms
      → ((v : World) (n : ℕ) → calloc_ok v n ≡ true)
      → (stx1 stx2 : ServerContext Q) × (server_broadcast_message os fifo retries
            (some stx)
            type
            (some (b ∷ bs))
            (length (b ∷ bs))
            exclude
          ≡ done (pos 0, in_context stx1))
        × (process_commands os fifo 1 stx1 ≡ done stx2)
        × (fifo.contents stx2.command_queue ≡ [])
        × (stream exclude stx2.log ≡ stream exclude stx.log)
        × Arrives net calloc_ok cb fd (ms ++ (type, b ∷ bs) ∷ []) w stx1.log stx2.log
  server_broadcast-Arrives net calloc_ok cb w stx exclude type b bs j fd ms sane v took small lo hi
        polled other before below memory =
      let cmd = broadcast_message type (some (b ∷ bs)) (length (b ∷ bs)) exclude in
      let queued = broadcast-Queued stx exclude type b bs in
      let stx1 : ServerContext Q = record stx {
        command_queue = fifo.push stx.command_queue cmd;
        log = queued.log2;
      } in
      let q = (fifo.pop stx1.command_queue).1 in
      let stx2 : ServerContext Q = record stx1 { command_queue = q } in
      let v2 = IsValid-moved stx q queued.log2 v in
      let heard = run_command-Broadcasts os stx2 exclude type (b ∷ bs) sane small v2 in
      let addressed = is_addressed-IsValid os stx2 exclude j fd v2 lo hi polled in
      let (k, bytes, whole) =
        heard.reached j fd lo (omega arith) (polled, rw addressed (rw other refl)) in
      (
        stx1,
        record stx1 { command_queue = q; log = heard.log' },
        queued.returns,
        process_one os fifo retries given settles 0 stx1 cmd heard.log' took heard.ends,
        (fifo.pop_cons stx1.command_queue cmd [] took).1,
        heard.spared exclude (λ j' fd' le lt a. addressed_other stx2 exclude (pos fd') a.1)
            ∙ queued.same_stream exclude,
        elim whole [
          | inr report ↦ inl report
          | inl all ↦
              whole-Arrives net calloc_ok cb fd (ms ++ (type, b ∷ bs) ∷ []) w stx1.log heard.log'
                (bytes
                  ∙ ap (λ xs. xs ++ take k (frame type (b ∷ bs)))
                      (queued.same_stream (pos fd) ∙ before)
                  ∙ ap (λ xs. frames ms ++ xs) all
                  ∙ sym (frames-snoc ms type (b ∷ bs)))
                (All-snoc IsSmall ms (type, b ∷ bs) below (omega (arith, small))) memory
        ],
      )
