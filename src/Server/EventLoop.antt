-- ===== src/Server/EventLoop.antt =====
-- The event loop and the states of the server in chat_server.c: `server_start`, `server_shutdown`,
-- `_server_run`.
--
-- The loop's turns are an explicit sequence: what `poll` answers, and what another thread puts into
-- the queue between two polls. A call of `server_shutdown` is given the turns that the loop takes from
-- the signal on, since it waits for the loop's end.
pub mod States
pub mod Retries
use mogakso.Server.Slots.{add_client, no_events}
use mogakso.Server.Receive.{handle_client_data}
use mogakso.Common.{
  ◌==◌, if◌then◌else◌, length, ℤ, pos, negsuc, is_neg, eqb_ℤ, Run, done, out_of_fuel, ◌>>=◌, ℕ,
  zero, suc, ◌+◌, true, false, ◌&&◌, ◌||◌, Option, none, some, List, [], ◌∷◌,
}
use mogakso.Command.{Command}
use mogakso.Os.{Event, drained, joined, Os}
use mogakso.Server.State.{
  ServerState, stopped, shutting_down, running, Revents, Fifo, ServerContext, first_slot, logged,
  handle_error,
}
use mogakso.Server.Commands.{write_signal, process_commands}

abbrev pub ealready : ℕ
ealready = 114

pub data Turn : Type 0 where
  poll_interrupted : Turn
  poll_failed : Turn
  polled : (ℕ → Revents) → Turn
  queued : Command → Turn

-- After the turns, the loop waits in `poll`, or the thread has left it.
pub data Loop (Q : Type 0) : Type 0 where
  waiting : ServerContext Q → Loop Q
  finished : ServerContext Q → Loop Q

-- `do … while (bytes_read == -1 && errno == EINTR)`, on fuel.
unfoldable pub read_signal : Os → ℕ → ℤ → List Event → Run (List Event)
read_signal os zero fd log = out_of_fuel
read_signal os (suc fuel) fd log =
    let n = os.read log fd in
    let log' = drained fd n ∷ log in
    elim (eqb_ℤ n (negsuc 0) && os.interrupted log') [
      | true ↦ read_signal os fuel fd log'
      | false ↦ done log'
    ]

module _ {Q : Type 0} where
  -- `create_err` is what `pthread_create` returns.
  unfoldable pub start_from :
      ServerState → ServerContext Q → (create_err : ℕ) → ℤ × Option (ServerContext Q)
  start_from stopped stx create_err =
      if create_err == 0
      then (pos 0, some (record stx { server_state = running; has_thread = true }))
      else (negsuc 0, some (record (handle_error stx create_err) { server_state = stopped }))
  start_from shutting_down stx create_err = (negsuc 0, some (handle_error stx ealready))
  start_from running stx create_err = (negsuc 0, some (handle_error stx ealready))

  unfoldable pub server_start :
      Option (ServerContext Q) → (create_err : ℕ) → ℤ × Option (ServerContext Q)
  server_start none create_err = (negsuc 0, none)
  server_start (some stx) create_err = start_from stx.server_state stx create_err

module _ {Q : Type 0} (os : Os) (fifo : Fifo Q) (retries : ℕ) where
  -- `for (int i = 3; i < max_clients + 3; ++i)`, from slot `i` on.
  unfoldable pub serve_clients : ℕ → ℕ → ServerContext Q → Run (ServerContext Q)
  serve_clients zero i stx = done stx
  serve_clients (suc rounds) i stx =
      (if (stx.pollers i).revents.pollin || (stx.pollers i).revents.broken
        then handle_client_data os fifo retries stx i
        else done stx)
      >>= serve_clients rounds (i + 1)

  -- The pipe is drained and the queued commands are run; one round for each of them.
  unfoldable pub serve_commands : ServerContext Q → Run (ServerContext Q)
  serve_commands stx =
      if (stx.pollers 2).revents.pollin
      then (do
        log' ← read_signal os retries stx.command_read stx.log
        process_commands os fifo (length (fifo.contents stx.command_queue))
            (record stx { log = log' }))
      else done stx

  unfoldable pub serve_listener : ServerContext Q → ServerContext Q
  serve_listener stx = if (stx.pollers 0).revents.pollin then add_client os stx else stx

  -- What `poll` writes: nothing is reported of a descriptor that is negative.
  abbrev pub with_revents : ServerContext Q → (ℕ → Revents) → ServerContext Q
  with_revents stx events = record stx {
    pollers = λ i. record (stx.pollers i) {
      revents = if is_neg (stx.pollers i).fd then no_events else events i;
    };
  }

  -- A turn of the loop whose `poll` succeeded.
  unfoldable pub serve_round : ServerContext Q → Run (Loop Q)
  serve_round stx =
      if (stx.pollers 1).revents.pollin
      then (do
        log' ← read_signal os retries stx.shutdown_read stx.log
        done (finished (record stx { log = log' })))
      else (do
        stx1 ← serve_commands stx
        let stx2 = serve_listener stx1
        stx3 ← serve_clients stx2.max_clients first_slot stx2
        done (waiting stx3))

  unfoldable pub serve_turn : ServerContext Q → Turn → Run (Loop Q)
  serve_turn stx poll_interrupted = done (waiting stx)
  serve_turn stx poll_failed = done (finished (handle_error stx (os.errno stx.log)))
  serve_turn stx (polled events) = serve_round (with_revents stx events)
  serve_turn stx (queued cmd) =
      done (waiting (record stx { command_queue = fifo.push stx.command_queue cmd }))

  abbrev pub stop_server : ServerContext Q → ServerContext Q
  stop_server stx = record stx { server_state = stopped }

  -- `_server_run` on a sequence of turns; what comes after the loop has ended is not used.
  unfoldable pub server_run : List Turn → ServerContext Q → Run (Loop Q)
  server_run [] stx = done (waiting stx)
  server_run (turn ∷ turns) stx = serve_turn stx turn >>= λ l. elim l [
    | waiting stx' ↦ server_run turns stx'
    | finished stx' ↦ done (finished (stop_server stx'))
  ]

  -- `pthread_join` on the loop's thread, which takes these turns meanwhile: it returns once the loop
  -- has ended, with the state that the loop has written; else the call is still waiting.
  unfoldable pub join_thread : List Turn → ServerContext Q → Run (Loop Q)
  join_thread turns stx = server_run turns stx >>= λ l. elim l [
    | waiting stx' ↦ done (waiting stx')
    | finished stx' ↦ done (finished (logged stx' joined))
  ]

  -- What `server_shutdown` leaves of a server that runs when it begins to wait.
  unfoldable pub signal_shutdown : ServerContext Q → Run (ServerContext Q)
  signal_shutdown stx = do
    (n, log') ← write_signal os retries stx.shutdown_write stx.log
    let signalled_stx = record stx { server_state = shutting_down; log = log' }
    done (if eqb_ℤ n (negsuc 0) then handle_error signalled_stx (os.errno log') else signalled_stx)

  -- The call has returned (`finished`), or waits for the loop.
  unfoldable pub shutdown_from : List Turn → ServerState → ServerContext Q → Run (Loop Q)
  shutdown_from turns stopped stx = done (finished stx)
  shutdown_from turns shutting_down stx = done (finished stx)
  shutdown_from turns running stx = do
    reported ← signal_shutdown stx
    if reported.has_thread then join_thread turns reported else done (finished reported)

  unfoldable pub server_shutdown : List Turn → Option (ServerContext Q) → Run (Option (Loop Q))
  server_shutdown turns none = done none
  server_shutdown turns (some stx) = do l ← shutdown_from turns stx.server_state stx; done (some l)
