-- ===== src/Server/Receive.antt =====
-- `_handle_client_data` and `_on_internal_parse_complete_cb` of chat_server.c: from the bytes of one
-- `recv` to the application's callback.
pub mod Delivery
pub mod Data
pub mod Table
pub mod Session
use mogakso.Server.Commands.{CallEnd, in_context, on_stderr, server_send_payload_to_client}
use mogakso.Protocol.Parser.{StreamParser, Callback, parse_stream}
use mogakso.Server.Slots.{remove_client}
use mogakso.Server.State.{Fifo, ServerContext, first_slot, update, logged, handle_error}
use mogakso.Os.{
  Received, got_bytes, end_of_stream, recv_failed, received, disconnect_callback, message_callback,
  Os,
}
use mogakso.Common.{
  ◌==◌, if◌then◌else◌, ℤ, is_neg, Run, done, fault, out_of_fuel, ◌>>=◌, ℕ, ◌-◌, Bool, false, Option,
  none, some, ◌∷◌,
}
use mogakso.Protocol.Wire.{ping, pong, code}

-- A world is what the run has come to, so that a fault inside the callback is a fault of the call.
abbrev pub msg_type_ping : ℕ
msg_type_ping = code ping

module _ {Q : Type 0} where
  abbrev pub kept_context : ServerContext Q → ℤ × CallEnd Q → ServerContext Q
  kept_context stx (n, on_stderr log) = stx
  kept_context stx (n, in_context stx') = stx'

  -- The parser that `parse_stream` has changed in place.
  abbrev pub store_parser : ServerContext Q → ℕ → Option StreamParser → ServerContext Q
  store_parser stx client_index p = record stx {
    clients =
        update stx.clients client_index (record (stx.clients client_index) { client_parser = p });
  }

  unfoldable pub parse_outcome : ℕ → ℤ → ServerContext Q → ServerContext Q
  unfolding handle_error remove_client
  parse_outcome poller_index result stx =
      if is_neg result then remove_client (handle_error stx 0) poller_index else stx

module _ {Q : Type 0} (os : Os) (fifo : Fifo Q) (retries : ℕ) where
  -- A ping is answered through the queue, any other message goes to `on_complete_message_cb`.
  unfoldable pub on_internal_parse_complete : ℤ → Callback (Run (ServerContext Q))
  on_internal_parse_complete client_fd msg_type payload len w = do
    stx ← w
    if msg_type == msg_type_ping
        then (do
          r ← server_send_payload_to_client os fifo retries (some stx) client_fd (code pong) none 0
          done (kept_context stx r))
        else done (logged stx (message_callback client_fd msg_type payload len))

  abbrev pub can_calloc : Run (ServerContext Q) → ℕ → Bool
  can_calloc (done stx) n = os.calloc_ok stx.log n
  can_calloc fault n = false
  can_calloc out_of_fuel n = false

  unfoldable pub after_recv : ServerContext Q → ℕ → Received → Run (ServerContext Q)
  after_recv stx poller_index (got_bytes b bs) = do
    let client_index = poller_index - first_slot
    let client = stx.clients client_index
    (result, p, w) ←
        parse_stream can_calloc client.client_parser (some (b ∷ bs))
          (some (on_internal_parse_complete client.socket_fd)) (done stx)
    stx' ← w
    done (parse_outcome poller_index result (store_parser stx' client_index p))
  after_recv stx poller_index end_of_stream = done (
      remove_client
        (logged stx (disconnect_callback (stx.clients (poller_index - first_slot)).socket_fd))
        poller_index)
  after_recv stx poller_index recv_failed = done (
      remove_client
        (logged (handle_error stx (os.errno stx.log))
          (disconnect_callback (stx.clients (poller_index - first_slot)).socket_fd))
        poller_index)

  unfoldable pub handle_client_data : ServerContext Q → ℕ → Run (ServerContext Q)
  handle_client_data stx poller_index =
      let client_fd = (stx.clients (poller_index - first_slot)).socket_fd in
      let r = os.recv stx.log client_fd in
      if (stx.pollers poller_index).revents.pollin
      then after_recv (logged stx (received client_fd r)) poller_index r
      else if (stx.pollers poller_index).revents.broken
      then done
          (remove_client (logged (handle_error stx 0) (disconnect_callback client_fd)) poller_index)
      else done stx
