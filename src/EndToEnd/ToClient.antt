-- ===== src/EndToEnd/ToClient.antt =====
-- From `server_send_payload_to_client` to the client's parser.
use mogakso.Server.Commands.{
  internal_send_frame, in_context, server_send_payload_to_client, run_command, process_popped,
  process_commands,
}
use mogakso.Server.Commands.Api.{Queued, submit-Queued}
use mogakso.Server.EventLoop.Retries.{Settles}
use mogakso.Command.Blocks.{create_command-copies}
use mogakso.Protocol.Parser.{Callback}
use mogakso.Server.Commands.SendFrame.{internal_send_frame-Delivers}
use mogakso.Server.Slots.{is_valid_client}
use mogakso.Server.State.{Fifo, ServerContext, sizeof_command}
use mogakso.Os.{Event, Os, Sane}
use mogakso.Command.{Command, send_message}
use mogakso.EndToEnd.{Network, Arrives, whole-Arrives, frames-snoc, IsSmall}
use mogakso.Common.{
  lt→ltb, length, take, All, take-all, All-snoc, pos, done, ℕ, zero, suc, ◌≤◌, ◌≡◌, sym, ap, ◌∙◌,
  inl, inr, Bool, true, some, List, [], ◌∷◌, ◌++◌, arith,
}
use mogakso.Os.Send.{stream}
use mogakso.Protocol.Framing.{frame}
use mogakso.Protocol.Parser.RoundTrip.{frames}

-- `calloc` and `malloc` give memory.
pub record Provides (os : Os) : Type 0 where
  pub memory : (log : List Event) (n : ℕ) → os.calloc_ok log n ≡ true

module _ {Q : Type 0} (os : Os) (fifo : Fifo Q) (retries : ℕ) (given : Provides os)
    (settles : Settles os retries) where
  send-Queued :
      (stx : ServerContext Q) (fd type b : ℕ) (bs : List ℕ)
      → Queued os fifo retries stx (send_message (pos fd) type (some (b ∷ bs)) (length (b ∷ bs))) (
          server_send_payload_to_client os fifo retries
            (some stx)
            (pos fd)
            type
            (some (b ∷ bs))
            (length (b ∷ bs)))
  unfolding server_send_payload_to_client
  send-Queued stx fd type b bs =
      let made = (create_command-copies (pos fd) type (b ∷ bs) (length (b ∷ bs)) (omega arith)).0 in
      rw
        (
          given.memory stx.log sizeof_command,
          given.memory stx.log (length (b ∷ bs)),
          made,
          lt→ltb 0 (length (b ∷ bs)) (omega arith),
          take-all (length (b ∷ bs)) (b ∷ bs) (omega arith),
        )
        (submit-Queued os fifo retries settles stx
          (send_message (pos fd) type (some (b ∷ bs)) (length (b ∷ bs))))

  process_none :
      (fuel : ℕ) (stx : ServerContext Q)
      → fifo.is_empty stx.command_queue ≡ true
      → process_commands os fifo fuel stx ≡ done stx
  unfolding process_commands
  process_none zero stx e = rw e
  process_none (suc fuel) stx e = rw (e, process_commands)

  -- One queued command; any fuel is enough.
  pub process_one :
      (fuel : ℕ) (stx : ServerContext Q) (cmd : Command) (log' : List Event)
      → fifo.contents stx.command_queue ≡ cmd ∷ []
      → run_command os (record stx { command_queue = (fifo.pop stx.command_queue).1 }) cmd
        ≡ done log'
      → process_commands os fifo (suc fuel) stx
        ≡ done (record stx { command_queue = (fifo.pop stx.command_queue).1; log = log' })
  unfolding process_commands process_popped
  process_one fuel stx cmd log' waits ran =
      let (got, rest) = fifo.pop_cons stx.command_queue cmd [] waits in
      rw (fifo.is_empty_cons stx.command_queue cmd [] waits, process_commands, got, ran)
        (process_none fuel _ (fifo.is_empty_nil (fifo.pop stx.command_queue).1 rest))

  -- A queued message for a connected client.
  run_sent :
      (stx : ServerContext Q) (fd type : ℕ) (payload : List ℕ) (log' : List Event)
      → is_valid_client stx (pos fd) ≡ true
      → internal_send_frame os (pos fd) type (some payload) (length payload) stx.log ≡ done log'
      → run_command os stx (send_message (pos fd) type (some payload) (length payload)) ≡ done log'
  unfolding run_command
  run_sent stx fd type payload log' connected e = rw connected e

  -- A message of 1 to 4091 bytes for a connected client to which whole messages, or nothing, were sent
  -- so far, where the queue takes the command and holds no other: the API function returns 0, and
  -- `_process_commands` ends without a fault and leaves the queue empty; and either it reports an
  -- error, or, however the network cuts the bytes, the client's parser, if it is given memory, has
  -- called back with those messages and with this one, once and last, and is left with no open
  -- frame. The server is given memory for the command, and of any `retries` writes in a row to a
  -- pipe, one is not interrupted.
  pub server_send-Arrives :
      {World : Type 0} (net : Network) (calloc_ok : World → ℕ → Bool) (cb : Callback World)
      (w : World) (stx : ServerContext Q) (fd type b : ℕ) (bs : List ℕ) (ms : List (ℕ × List ℕ))
      → Sane os
      → is_valid_client stx (pos fd) ≡ true
      → fifo.contents (
          fifo.push stx.command_queue
            (send_message (pos fd) type (some (b ∷ bs)) (length (b ∷ bs))))
        ≡ send_message (pos fd) type (some (b ∷ bs)) (length (b ∷ bs)) ∷ []
      → length (b ∷ bs) ≤ 4091
      → stream (pos fd) stx.log ≡ frames ms
      → All IsSmall ms
      → ((v : World) (n : ℕ) → calloc_ok v n ≡ true)
      → (stx1 stx2 : ServerContext Q) × (server_send_payload_to_client os fifo retries
            (some stx)
            (pos fd)
            type
            (some (b ∷ bs))
            (length (b ∷ bs))
          ≡ done (pos 0, in_context stx1))
        × (process_commands os fifo 1 stx1 ≡ done stx2)
        × (fifo.contents stx2.command_queue ≡ [])
        × Arrives net calloc_ok cb fd (ms ++ (type, b ∷ bs) ∷ []) w stx1.log stx2.log
  unfolding is_valid_client
  server_send-Arrives net calloc_ok cb w stx fd type b bs ms sane connected took small before below
        memory =
      let cmd = send_message (pos fd) type (some (b ∷ bs)) (length (b ∷ bs)) in
      let queued = send-Queued stx fd type b bs in
      let stx1 : ServerContext Q = record stx {
        command_queue = fifo.push stx.command_queue cmd;
        log = queued.log2;
      } in
      let d = internal_send_frame-Delivers os fd type (b ∷ bs) queued.log2 sane small in
      let q = (fifo.pop stx1.command_queue).1 in
      let ran =
        process_one 0 stx1 cmd d.log' took
          (run_sent (record stx1 { command_queue = q }) fd type (b ∷ bs) d.log' connected d.ends) in
      (
        stx1,
        record stx1 { command_queue = q; log = d.log' },
        queued.returns,
        ran,
        (fifo.pop_cons stx1.command_queue cmd [] took).1,
        elim d.whole [
          | inr report ↦ inl report
          | inl all ↦
              whole-Arrives net calloc_ok cb fd (ms ++ (type, b ∷ bs) ∷ []) w stx1.log d.log'
                (d.prefix
                  ∙ ap (λ xs. xs ++ take d.count (frame type (b ∷ bs)))
                      (queued.same_stream (pos fd) ∙ before)
                  ∙ ap (λ xs. frames ms ++ xs) all
                  ∙ sym (frames-snoc ms type (b ∷ bs)))
                (All-snoc IsSmall ms (type, b ∷ bs) below (omega (arith, small))) memory
        ],
      )
