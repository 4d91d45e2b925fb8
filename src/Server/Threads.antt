-- ===== src/Server/Threads.antt =====
-- The threads around the command queue of chat_server.c: any number of threads that call
-- `server_send_payload_to_client` or `server_broadcast_message`, and the thread of `_server_run`, in
-- any order.
--
-- A step is one access to what the threads share. `queue_push`, `queue_is_empty` and `queue_pop` hold
-- the queue's mutex and are one step each; a call that a signal interrupted is repeated without an
-- effect and is no step, and so is a call of the API that is refused before it pushes. The callbacks
-- of the application run in the loop's thread while it serves the listening socket and the clients,
-- and may call the API there. `pipe` and `shutdown` count the bytes that stand in the two pipes.
pub mod Invariant
pub mod Signals
pub mod Kept
pub mod Moves
pub mod Work
pub mod Drains
pub mod Sequential
use mogakso.Server.State.{handle_error}
use mogakso.Server.State.{Fifo, ServerContext, update}
use mogakso.Server.Commands.{run_command}
use mogakso.Os.{Event, Os}
use mogakso.Command.{Command, create_send_command, create_broadcast_command}
use mogakso.Common.{
  length, ℤ, done, ℕ, ◌+◌, ◌-◌, ◌^◌, ◌≤◌, ◌<◌, ◌≡◌, true, false, none, some, List, [], ◌∷◌, ◌++◌,
}

-- Where a thread stands in a call of the API.
pub data Producer : Type 0 where
  idle : Producer
  made : (cmd : Command) → Producer  -- before `queue_push`
  pushed : Producer  -- before `write`

-- Where the thread of `_server_run` stands.
pub data LoopPoint : Type 0 where
  at_poll : LoopPoint
  at_read : LoopPoint  -- `poll` has reported the command pipe
  at_check : LoopPoint  -- before `queue_is_empty`
  at_pop : LoopPoint  -- before `queue_pop`
  at_command : (cmd : Command) → LoopPoint
  at_rest : LoopPoint  -- the listening socket and the clients, up to the next `poll`
  at_push : (cmd : Command) → LoopPoint  -- a callback's call of the API, before `queue_push`
  at_write : LoopPoint  -- a callback's call of the API, before `write`
  at_failed : LoopPoint  -- the loop is left: `poll` has failed
  at_end : LoopPoint  -- the loop is left: there was a byte in the shutdown pipe
  at_null : LoopPoint  -- a popped NULL is dereferenced

-- `queued` and `ran` record every command that was put into the queue and every command that was
-- run, oldest first; `missed` counts the writes into the command pipe that have failed since the loop
-- last read from it. No step reads these three.
pub record Shared (Q : Type 0) : Type 0 where
  pub stx : ServerContext Q
  pub pipe : ℕ
  pub shutdown : ℕ
  pub missed : ℕ
  pub queued : List Command
  pub ran : List Command

pub record System (Q : Type 0) : Type 0 where
  pub mem : Shared Q
  pub producers : ℕ → Producer
  pub loop : LoopPoint

module _ {Q : Type 0} where
  abbrev pub with_queue : Shared Q → Q → Shared Q
  with_queue m q = record m { stx = record m.stx { command_queue = q } }

  abbrev pub contents_of : Fifo Q → Shared Q → List Command
  contents_of fifo m = fifo.contents m.stx.command_queue

module _ {Q : Type 0} (fifo : Fifo Q) (capacity : ℕ) where
  -- A step of a thread in a call of the API. A push without memory goes unnoticed; a `write` waits
  -- while the pipe is full.
  pub data ProducerMove (m : Shared Q) : Producer → Shared Q → Producer → Type 0 where
    call_send :
        (fd : ℤ) (type len : ℕ) (payload : List ℕ) {cmd : Command}
        → len ≤ length payload
        → len < 2 ^ 63
        → create_send_command true true fd type (some payload) len ≡ done (some cmd)
        → ProducerMove m idle m (made cmd)
    call_broadcast :
        (exclude : ℤ) (type len : ℕ) (payload : List ℕ) {cmd : Command}
        → len ≤ length payload
        → len < 2 ^ 63
        → create_broadcast_command true true type (some payload) len exclude ≡ done (some cmd)
        → ProducerMove m idle m (made cmd)
    push_command :
        {cmd : Command}
        → fifo.contents (fifo.push m.stx.command_queue cmd) ≡ contents_of fifo m ++ cmd ∷ []
        → ProducerMove m
            (made cmd)
            (record (with_queue m (fifo.push m.stx.command_queue cmd)) {
              queued = m.queued ++ cmd ∷ [];
            })
            pushed
    push_dropped :
        {cmd : Command}
        → fifo.contents (fifo.push m.stx.command_queue cmd) ≡ contents_of fifo m
        → ProducerMove m (made cmd) (with_queue m (fifo.push m.stx.command_queue cmd)) pushed
    write_byte : m.pipe < capacity → ProducerMove m pushed (record m { pipe = m.pipe + 1 }) idle
    write_failed :
        (code : ℕ)
        → ProducerMove m pushed
            (record m { stx = handle_error m.stx code; missed = m.missed + 1 })
            idle

-- Where the loop's thread stands in a call of the API that a callback makes.
abbrev pub in_call : Producer → LoopPoint
in_call idle = at_rest
in_call (made cmd) = at_push cmd
in_call pushed = at_write

module _ {Q : Type 0} (os : Os) (fifo : Fifo Q) where
  -- A step of the event loop, but for the calls of the API in its callbacks. `poll` returns without a
  -- pipe only if that is empty; `read` of a pipe that `poll` has reported does not fail, and takes what
  -- there is, up to `char buf[8]`. A byte in the shutdown pipe, or a failure of `poll`, ends the loop,
  -- whatever the queue holds.
  pub data LoopMove (m : Shared Q) : LoopPoint → Shared Q → LoopPoint → Type 0 where
    poll_failed :
        (code : ℕ) → LoopMove m at_poll (record m { stx = handle_error m.stx code }) at_failed
    poll_shutdown :
        {n : ℕ}
        → 0 < n
        → n ≤ 8
        → n ≤ m.shutdown
        → LoopMove m at_poll (record m { shutdown = m.shutdown - n }) at_end
    poll_command : m.shutdown ≡ 0 → 0 < m.pipe → LoopMove m at_poll m at_read
    poll_other : m.shutdown ≡ 0 → m.pipe ≡ 0 → LoopMove m at_poll m at_rest
    read_bytes :
        {n : ℕ}
        → 0 < n
        → n ≤ 8
        → n ≤ m.pipe
        → LoopMove m at_read (record m { pipe = m.pipe - n; missed = 0 }) at_check
    find_more : fifo.is_empty m.stx.command_queue ≡ false → LoopMove m at_check m at_pop
    find_empty : fifo.is_empty m.stx.command_queue ≡ true → LoopMove m at_check m at_rest
    pop_command :
        {cmd : Command}
        → (fifo.pop m.stx.command_queue).0 ≡ some cmd
        → LoopMove m at_pop (with_queue m (fifo.pop m.stx.command_queue).1) (at_command cmd)
    pop_null :
        (fifo.pop m.stx.command_queue).0 ≡ none
        → LoopMove m at_pop (with_queue m (fifo.pop m.stx.command_queue).1) at_null
    finish_command :
        {cmd : Command} {log' : List Event}
        → run_command os m.stx cmd ≡ done log'
        → LoopMove m
            (at_command cmd)
            (record m { stx = record m.stx { log = log' }; ran = m.ran ++ cmd ∷ [] })
            at_check
    finish_turn :
        (stx' : ServerContext Q)
        → stx'.command_queue ≡ m.stx.command_queue
        → LoopMove m at_rest (record m { stx = stx' }) at_poll

module _ {Q : Type 0} (os : Os) (fifo : Fifo Q) (capacity : ℕ) where
  pub data Step (s : System Q) : System Q → Type 0 where
    produce :
        (i : ℕ) {m : Shared Q} {p : Producer}
        → ProducerMove fifo capacity s.mem (s.producers i) m p
        → Step s (record s { mem = m; producers = update s.producers i p })
    turn :
        {m : Shared Q} {l : LoopPoint}
        → LoopMove os fifo s.mem s.loop m l
        → Step s (record s { mem = m; loop = l })
    callback :
        {p p' : Producer} {m : Shared Q}
        → s.loop ≡ in_call p
        → ProducerMove fifo capacity s.mem p m p'
        → Step s (record s { mem = m; loop = in_call p' })
    request_shutdown : Step s (record s { mem = record s.mem { shutdown = s.mem.shutdown + 1 } })

  -- The server has been started on a context with no command in its queue, nothing in its pipes.
  abbrev pub initial : ServerContext Q → System Q
  initial stx = record {
    mem = record { stx = stx; pipe = 0; shutdown = 0; missed = 0; queued = []; ran = [] };
    producers = λ i. idle;
    loop = at_poll;
  }

  pub data Reach (stx : ServerContext Q) : System Q → Type 0 where
    start : fifo.contents stx.command_queue ≡ [] → Reach stx (initial stx)
    later : {s t : System Q} → Reach stx s → Step s t → Reach stx t
