-- ===== src/Server/Commands/Api.antt =====
-- `server_send_payload_to_client` and `server_broadcast_message`, on every branch.
use mogakso.Server.EventLoop.Retries.{Settles, Signals, Signals-stream, write_signal-Signals}
use mogakso.Common.{
  ltb, if◌then◌else◌, Bool-cases, length, take, ℤ, pos, negsuc, is_neg, eqb_ℤ, Run, done, ℕ, ◌≤◌,
  ◌≡◌, refl, ◌∙◌, inl, inr, Bool, true, false, not, ◌&&◌, ◌||◌, Option, none, some, List, [], ◌∷◌,
  append-nil,
}
use mogakso.Server.Commands.{
  CallEnd, in_context, on_stderr, submit, server_send_payload_to_client, server_broadcast_message,
}
use mogakso.Os.{Event, error_callback, error_stderr, Os}
use mogakso.Os.Send.{stream}
use mogakso.Server.State.{Fifo, ServerContext, einval, sizeof_command, handle_error}
use mogakso.Command.Blocks.{create_command-branches}
use mogakso.Command.{Command, send_message, broadcast_message}

module _ {Q : Type 0} (os : Os) (fifo : Fifo Q) (retries : ℕ) where
  -- The command is queued; then one byte is written into the command pipe, again as long as a signal
  -- interrupts that; and an error that the last write gave is reported. No client is written to.
  pub record Queued (stx : ServerContext Q) (cmd : Command) (r : Run (ℤ × CallEnd Q)) : Type 0 where
    pub result : ℤ
    pub log1 : List Event
    pub log2 : List Event
    pub writes : Signals os stx.command_write stx.log result log1
    pub reports :
        log2 ≡ (if eqb_ℤ result (negsuc 0) then error_callback (os.errno log1) ∷ log1 else log1)
    pub returns :
        r
        ≡ done (
          pos 0,
          in_context (record stx { command_queue = fifo.push stx.command_queue cmd; log = log2 }),
        )
    pub same_stream : (g : ℤ) → stream g log2 ≡ stream g stx.log

  -- What a call answers, by whether its arguments are valid and there is memory for the command.
  abbrev pub Answers :
      ServerContext Q → (valid memory : Bool) → Command → Run (ℤ × CallEnd Q) → Type 0
  Answers stx false memory cmd r = r ≡ done (negsuc 0, in_context (handle_error stx einval))
  Answers stx true false cmd r =
      r ≡ done (negsuc 0, in_context (handle_error stx (os.errno stx.log)))
  Answers stx true true cmd r = Queued stx cmd r

  -- Memory for the command, and for the copy of a payload that is not empty.
  abbrev pub memory_for : ServerContext Q → ℕ → Bool
  memory_for stx len =
      os.calloc_ok stx.log sizeof_command && (not (ltb 0 len) || os.calloc_ok stx.log len)

module _ {Q : Type 0} (os : Os) (fifo : Fifo Q) (retries : ℕ) (settles : Settles os retries) where
  pub submit-Queued :
      (stx : ServerContext Q) (cmd : Command)
      → Queued os fifo retries stx cmd (submit os fifo retries stx (some cmd))
  unfolding submit handle_error
  submit-Queued stx cmd =
      let (n, log', ends, tried) =
        write_signal-Signals os retries settles stx.command_write stx.log in
      let same = Signals-stream os stx.command_write stx.log n log' tried in
      elim (Bool-cases (eqb_ℤ n (negsuc 0))) [
        | inl broken ↦ record {
          result = n;
          log1 = log';
          log2 = error_callback (os.errno log') ∷ log';
          writes = tried;
          reports = rw broken refl;
          returns = rw (ends, broken) refl;
          same_stream = λ g. append-nil (stream g log') ∙ same g;
        }
        | inr woken ↦ record {
          result = n;
          log1 = log';
          log2 = log';
          writes = tried;
          reports = rw woken refl;
          returns = rw (ends, woken) refl;
          same_stream = same;
        }
      ]

  submit-Answers :
      (stx : ServerContext Q) (memory : Bool) (cmd : Command)
      → Answers os fifo retries stx true memory cmd
          (submit os fifo retries stx (if memory then some cmd else none))
  unfolding submit
  submit-Answers stx true cmd = submit-Queued stx cmd
  submit-Answers stx false cmd = refl

  send-Answers :
      (stx : ServerContext Q) (a : ℤ) (type : ℕ) (payload : List ℕ) (len : ℕ)
      → len ≤ length payload
      → Answers os fifo retries stx
          (not (is_neg a))
          (memory_for os fifo retries stx len)
          (send_message a type (if ltb 0 len then some (take len payload) else none) len)
          (server_send_payload_to_client os fifo retries (some stx) a type (some payload) len)
  unfolding server_send_payload_to_client
  send-Answers stx (negsuc n) type payload len held = refl
  send-Answers stx (pos fd) type payload len held =
      let made =
        (create_command-branches (os.calloc_ok stx.log sizeof_command) (os.calloc_ok stx.log len)
          (pos fd) type payload len held).0 in
      rw made (submit-Answers stx (memory_for os fifo retries stx len) _)

  broadcast-Answers :
      (stx : ServerContext Q) (exclude : ℤ) (type : ℕ) (payload : List ℕ) (len : ℕ)
      → len ≤ length payload
      → Answers os fifo retries stx true
          (memory_for os fifo retries stx len)
          (broadcast_message type (if ltb 0 len then some (take len payload) else none) len exclude)
          (server_broadcast_message os fifo retries (some stx) type (some payload) len exclude)
  unfolding server_broadcast_message
  broadcast-Answers stx exclude type payload len held =
      let made =
        (create_command-branches (os.calloc_ok stx.log sizeof_command) (os.calloc_ok stx.log len)
          exclude type payload len held).1 in
      rw made (submit-Answers stx (memory_for os fifo retries stx len) _)

  -- The two functions of the API, on every branch. With a NULL context they return -1 and report
  -- EINVAL on `stderr`; with a NULL payload or a negative descriptor to send to they return -1 and
  -- report EINVAL to the context; without memory for the command they return -1 and report an error;
  -- in these cases the queue is as it was and nothing is written to the command pipe. Otherwise they
  -- return 0 and push a command with a copy of the first `len` bytes, or NULL for none; then they write
  -- one byte into the command pipe, again only while a signal interrupts the write, and report the
  -- error if the last write fails, still returning 0. Nothing is written to a client. The payload has
  -- at least `len` bytes; of any `retries` writes in a row one is not interrupted.
  pub api-Answers :
      (stx : ServerContext Q) (a : ℤ) (type : ℕ) (payload : List ℕ) (len : ℕ)
      → len ≤ length payload
      → let kept : Option (List ℕ) = if ltb 0 len then some (take len payload) else none in
        Answers os fifo retries stx
          (not (is_neg a))
          (memory_for os fifo retries stx len)
          (send_message a type kept len)
          (server_send_payload_to_client os fifo retries (some stx) a type (some payload) len)
        × Answers os fifo retries stx true
            (memory_for os fifo retries stx len)
            (broadcast_message type kept len a)
            (server_broadcast_message os fifo retries (some stx) type (some payload) len a)
        × (server_send_payload_to_client os fifo retries (some stx) a type none len
            ≡ done (negsuc 0, in_context (handle_error stx einval)))
        × (server_broadcast_message os fifo retries (some stx) type none len a
            ≡ done (negsuc 0, in_context (handle_error stx einval)))
        × ((p : Option (List ℕ))
            → server_send_payload_to_client os fifo retries none a type p len
              ≡ done (negsuc 0, on_stderr (error_stderr einval ∷ [])))
        × ((p : Option (List ℕ))
            → server_broadcast_message os fifo retries none type p len a
              ≡ done (negsuc 0, on_stderr (error_stderr einval ∷ [])))
  unfolding server_send_payload_to_client server_broadcast_message
  api-Answers stx a type payload len held = (
    send-Answers stx a type payload len held,
    broadcast-Answers stx a type payload len held,
    refl,
    refl,
    λ p. refl,
    λ p. refl,
  )
