-- ===== src/Examples/Running.antt =====
-- Whole runs of the server and of the client at concrete inputs.
use mogakso.Server.EventLoop.{
  Turn, poll_interrupted, polled, queued, Loop, server_start, server_run,
}
use mogakso.Server.State.{running, Revents, ServerContext}
use mogakso.Server.Lifecycle.{new_context}
use mogakso.Common.{
  ◌==◌, if◌then◌else◌, pos, negsuc, done, ℕ, ◌≡◌, refl, some, List, [], ◌∷◌, ◌++◌, arith,
}
use mogakso.Examples.Queueing.{empty_heap, one_more}
use mogakso.Server.HeapQueue.{HeapQueue, heap_fifo}
use mogakso.Server.Invariant.Capacity.{new_context-IsGood, Within, server_run-Within}
use mogakso.Server.Invariant.Runs.{GoodEnd, server_run-IsGood, Stops, server_run-Stops}
use mogakso.Server.Slots.{no_events}
use mogakso.Server.Invariant.{IsGood}
use mogakso.Command.{Command, broadcast_message}
use mogakso.Examples.Fixtures.{obliging, obliging-Sane, obliging-Settles, list_fifo, text_waits}

-- A new server with two slots and an empty queue.
abbrev no_commands : List Command
no_commands = []

abbrev fresh_server : ServerContext (List Command)
fresh_server = new_context (pos 3) (pos 4, pos 5) (pos 6, pos 9) no_commands 8080 2

fresh_server-IsGood : IsGood list_fifo fresh_server
fresh_server-IsGood =
    new_context-IsGood list_fifo (pos 3) (pos 4, pos 5) (pos 6, pos 9) [] 8080 2 refl refl

-- A client connects and sends, a broadcast is queued and run, and the server is told to stop.
abbrev listener_ready : ℕ → Revents
listener_ready i = if i == 0 then text_waits else no_events

abbrev client_ready : ℕ → Revents
client_ready i = if i == 3 then text_waits else if i == 2 then text_waits else no_events

abbrev stop_ready : ℕ → Revents
stop_ready i = if i == 1 then text_waits else no_events

abbrev some_turns : List Turn
some_turns =
    polled listener_ready
    ∷ queued (broadcast_message 1 (some (104 ∷ [])) 1 (negsuc 0))
    ∷ polled client_ready
    ∷ poll_interrupted
    ∷ polled stop_ready
    ∷ []

server_run-IsGood_example :
    (l : Loop (List Command)) × (server_run obliging list_fifo 1 some_turns fresh_server ≡ done l)
    × GoodEnd obliging list_fifo 1 obliging-Sane obliging-Settles 2 l
server_run-IsGood_example =
    server_run-IsGood obliging list_fifo 1 obliging-Sane obliging-Settles some_turns fresh_server
      fresh_server-IsGood (tt, ((refl, omega arith), (tt, (tt, (tt, tt)))))

server_run-Within_example :
    (up : ServerContext (List Command)) × (l : Loop (List Command)) × (server_start
        (some fresh_server)
        0
      ≡ (pos 0, some up))
    × (up.server_state ≡ running)
    × (server_run obliging list_fifo 1 some_turns up ≡ done l)
    × Within list_fifo 2 l
server_run-Within_example =
    server_run-Within list_fifo obliging 1 obliging-Sane obliging-Settles (pos 3) (pos 4, pos 5)
      (pos 6, pos 9) no_commands 8080 2 some_turns refl refl
      (tt, ((refl, omega arith), (tt, (tt, (tt, tt)))))

-- The same turns without the last, and then the signal.
abbrev first_turns : List Turn
first_turns = polled listener_ready ∷ polled client_ready ∷ []

server_run-Stops_example :
    Stops obliging list_fifo 1 obliging-Sane obliging-Settles
      (server_run obliging list_fifo 1 (first_turns ++ polled stop_ready ∷ []) fresh_server)
server_run-Stops_example =
    server_run-Stops obliging list_fifo 1 obliging-Sane obliging-Settles first_turns [] stop_ready
      fresh_server fresh_server-IsGood (tt, (tt, tt)) refl

-- The same run on the queue in the heap.
heap_run :
    (up : ServerContext HeapQueue) × (l : Loop HeapQueue) × (server_start
        (some (new_context (pos 3) (pos 4, pos 5) (pos 6, pos 9) empty_heap 8080 2))
        0
      ≡ (pos 0, some up))
    × (up.server_state ≡ running)
    × (server_run obliging (heap_fifo one_more) 1 some_turns up ≡ done l)
    × Within (heap_fifo one_more) 2 l
heap_run =
    server_run-Within (heap_fifo one_more) obliging 1 obliging-Sane obliging-Settles (pos 3)
      (pos 4, pos 5) (pos 6, pos 9) empty_heap 8080 2 some_turns refl refl
      (tt, ((refl, omega arith), (tt, (tt, (tt, tt)))))
