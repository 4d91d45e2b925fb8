-- ===== src/Server/Commands.antt =====
-- The sending half of chat_server.c: the two functions that put a command into the queue, and
-- `_process_commands`, which the event loop runs.
pub mod SendFrame
pub mod Rounds
pub mod Broadcast
pub mod Process
pub mod Order
pub mod Keeps
pub mod Api
use mogakso.Common.{
  if◌then◌else◌, length, take, replicate, ℤ, pos, negsuc, is_neg, eqb_ℤ, Run, done, fault,
  out_of_fuel, ◌>>=◌, ℕ, zero, suc, ◌+◌, Bool, true, false, ◌&&◌, ◌||◌, Option, none, some, List,
  [], ◌∷◌,
}
use mogakso.Os.{Event, signalled, error_stderr, Os, buffer_size}
use mogakso.Os.Send.{SendOutcome, complete, peer_closed, send_failed, send_loop}
use mogakso.Command.{
  Command, send_message, broadcast_message, create_send_command, create_broadcast_command,
}
use mogakso.Protocol.Wire.{code}
use mogakso.Protocol.Framing.{frame_message}
use mogakso.Server.State.{Fifo, ServerContext, first_slot, einval, sizeof_command, handle_error}
use mogakso.Server.Slots.{is_valid_client}

-- `do … while (bytes_written == -1 && errno == EINTR)`, on fuel. The outcome is the last result.
unfoldable pub write_signal : Os → ℕ → ℤ → List Event → Run (ℤ × List Event)
write_signal os zero fd log = out_of_fuel
write_signal os (suc fuel) fd log =
    let n = os.write log fd in
    let log' = signalled fd n ∷ log in
    elim (eqb_ℤ n (negsuc 0) && os.interrupted log') [
      | true ↦ write_signal os fuel fd log'
      | false ↦ done (n, log')
    ]

-- The local `frame_buffer`; what it holds at first is not sent.
unfoldable pub frame_buffer : List ℕ
frame_buffer = replicate buffer_size 0

-- The bytes of the frame in the buffer: `frame_len` is not negative where this is used.
abbrev pub front_bytes : ℤ → Option (List ℕ) → List ℕ
front_bytes (pos n) (some buffer) = take n buffer
front_bytes (pos n) none = []
front_bytes (negsuc n) buffer = []

-- Errors of a send go to `stderr`: the call passes no context.
unfoldable pub report_send : SendOutcome → List Event → List Event
report_send complete log = log
report_send peer_closed log = error_stderr 0 ∷ log
report_send (send_failed code) log = error_stderr code ∷ log

unfoldable pub send_framed : Os → ℤ → ℤ → Option (List ℕ) → List Event → Run (List Event)
send_framed os client_fd frame_len buffer log =
    if is_neg frame_len then done (error_stderr 0 ∷ log) else (do
      let frame_bytes = front_bytes frame_len buffer
      (outcome, log') ← send_loop os (length frame_bytes) client_fd frame_bytes log
      done (report_send outcome log'))

unfoldable pub internal_send_frame :
    Os → ℤ → ℕ → Option (List ℕ) → ℕ → List Event → Run (List Event)
internal_send_frame os client_fd msg_type none payload_len log = done (error_stderr einval ∷ log)
internal_send_frame os client_fd msg_type (some payload) payload_len log =
    if is_neg client_fd then done (error_stderr einval ∷ log) else (do
      (frame_len, buffer) ←
          frame_message msg_type (some payload) payload_len (some frame_buffer) buffer_size
      send_framed os client_fd frame_len buffer log)

-- What a call of the API leaves: the context, or, of a NULL context, what went to `stderr`.
pub data CallEnd (Q : Type 0) : Type 0 where
  in_context : ServerContext Q → CallEnd Q
  on_stderr : List Event → CallEnd Q

module _ {Q : Type 0} (os : Os) (fifo : Fifo Q) (retries : ℕ) where
  -- Both API functions end so: the command is queued and the loop is woken through the pipe.
  unfoldable pub submit : ServerContext Q → Option Command → Run (ℤ × CallEnd Q)
  submit stx none = done (negsuc 0, in_context (handle_error stx (os.errno stx.log)))
  submit stx (some cmd) = do
    let stx' = record stx { command_queue = fifo.push stx.command_queue cmd }
    (n, log') ← write_signal os retries stx'.command_write stx'.log
    let woken = record stx' { log = log' }
    done (
      pos 0,
      in_context (if eqb_ℤ n (negsuc 0) then handle_error woken (os.errno log') else woken),
    )

  unfoldable pub server_send_payload_to_client :
      Option (ServerContext Q) → ℤ → ℕ → Option (List ℕ) → ℕ → Run (ℤ × CallEnd Q)
  server_send_payload_to_client none client_fd msg_type payload payload_len =
      done (negsuc 0, on_stderr (error_stderr einval ∷ []))
  server_send_payload_to_client (some stx) client_fd msg_type none payload_len =
      done (negsuc 0, in_context (handle_error stx einval))
  server_send_payload_to_client (some stx) client_fd msg_type (some payload) payload_len =
      if is_neg client_fd then done (negsuc 0, in_context (handle_error stx einval)) else (do
        cmd ←
            create_send_command (os.calloc_ok stx.log sizeof_command)
              (os.calloc_ok stx.log payload_len) client_fd msg_type (some payload) payload_len
        submit stx cmd)

  unfoldable pub server_broadcast_message :
      Option (ServerContext Q) → ℕ → Option (List ℕ) → ℕ → ℤ → Run (ℤ × CallEnd Q)
  server_broadcast_message none msg_type payload payload_len exclude_fd =
      done (negsuc 0, on_stderr (error_stderr einval ∷ []))
  server_broadcast_message (some stx) msg_type none payload_len exclude_fd =
      done (negsuc 0, in_context (handle_error stx einval))
  server_broadcast_message (some stx) msg_type (some payload) payload_len exclude_fd = do
    cmd ←
        create_broadcast_command (os.calloc_ok stx.log sizeof_command)
          (os.calloc_ok stx.log payload_len) msg_type (some payload) payload_len exclude_fd
    submit stx cmd

module _ {Q : Type 0} (os : Os) where
  -- Whether a broadcast goes to a descriptor of `pollers`.
  unfoldable pub is_addressed : ServerContext Q → ℤ → ℤ → Bool
  is_addressed stx exclude_fd client_fd =
      if is_neg client_fd || eqb_ℤ client_fd exclude_fd
      then false
      else is_valid_client stx client_fd

  -- The rounds of the broadcast's loop from slot `i` on.
  unfoldable pub broadcast_loop :
      ServerContext Q → ℤ → ℕ → Option (List ℕ) → ℕ → ℕ → ℕ → List Event → Run (List Event)
  broadcast_loop stx exclude_fd msg_type payload payload_len zero i log = done log
  broadcast_loop stx exclude_fd msg_type payload payload_len (suc rounds) i log =
      (if is_addressed stx exclude_fd (stx.pollers i).fd
        then internal_send_frame os (stx.pollers i).fd msg_type payload payload_len log
        else done log)
      >>= broadcast_loop stx exclude_fd msg_type payload payload_len rounds (i + 1)

  unfoldable pub run_command : ServerContext Q → Command → Run (List Event)
  run_command stx (send_message target_client_fd msg_type payload payload_len) =
      if is_valid_client stx target_client_fd
      then internal_send_frame os target_client_fd msg_type payload payload_len stx.log
      else done stx.log
  run_command stx (broadcast_message msg_type payload payload_len exclude_client_fd) =
      broadcast_loop stx exclude_client_fd msg_type payload payload_len stx.max_clients first_slot
        stx.log

  -- A popped NULL would be dereferenced.
  unfoldable pub process_popped : ServerContext Q → Option Command × Q → Run (ServerContext Q)
  process_popped stx (none, q) = fault
  process_popped stx (some cmd, q) = do
    log' ← run_command (record stx { command_queue = q }) cmd
    done (record stx { command_queue = q; log = log' })

  -- `while (!queue_is_empty(…))`, on fuel; the number of queued commands is enough.
  unfoldable pub process_commands : Fifo Q → ℕ → ServerContext Q → Run (ServerContext Q)
  process_commands fifo zero stx = if fifo.is_empty stx.command_queue then done stx else out_of_fuel
  process_commands fifo (suc fuel) stx = elim (fifo.is_empty stx.command_queue) [
    | true ↦ done stx
    | false ↦ process_popped stx (fifo.pop stx.command_queue) >>= process_commands fifo fuel
  ]
