-- ===== src/Lib.antt =====
-- A verification library for the C chat library, C_chat_lib: a wire protocol, a command queue, a
-- server that serves its clients from one event loop, and a client.
--
-- Parts and files. Each file opens with a comment that names the code it is about.
--   Common: shared names, tests, lists over native numbers, integers, checked memory access.
--   Protocol: C_chat_lib/common/src/protocol.c. Framing is `frame_message`; Parser is
--   `parse_stream` with its parser as a record, and its children relate it to a reader that takes
--   one byte at a time (Reader), by an invariant of the parser (Live) and one lemma for each kind
--   of round (HeaderRound, PayloadRound). Forgetting is the parser up to the bytes of its open frame.
--   CommandQueue: C_chat_lib/common/src/command_queue.c, in a heap that is a function from
--   addresses to nodes; Chain is the shape of the list. Locked is the same operations under their
--   mutex, one statement at a time, in any number of threads.
--   Command: C_chat_lib/common/src/command.c.
--   Os: what the system answers, as a function of the events so far, and the log of events; Os/Send
--   is the loop that both sides send with, Os/Keeps what a run keeps of the log.
--   Server: C_chat_lib/server_lib/src/chat_server.c. State is the context, Slots `_add_client` and
--   `_remove_client`, Commands the API that queues commands and `_process_commands`, Receive
--   `_handle_client_data` and many calls of it (Session), EventLoop `server_start`,
--   `server_shutdown` and `_server_run`, Lifecycle `server_create`, `server_destroy` and the
--   cleanup, as the descriptors they close, Defaults the default callbacks, as the text they print.
--   The server uses the queue behind the interface `Fifo`, which HeapQueue fills from CommandQueue.
--   Threads is the same queue and command pipe under any number of threads that call the API while
--   the event loop runs, as steps that interleave; Turnover is `server_start`, `server_shutdown` and
--   the loops that they start and stop, likewise.
--   Invariant is what holds of the context between the turns of the event loop: of the slot table,
--   the parsers, the open descriptors and the queue.
--   Sockets: C_chat_lib/socket_lib/src/socket_utils.c, which both sides make their sockets with.
--   Client: C_chat_lib/client_lib/src/chat_client.c; Chunks is a file of any size, Chat is
--   connecting, shutdown and the chat loop.
--   EndToEnd: from one side's API through the network to the parsers of the other side.
--   Examples: the theorems at concrete inputs.
--
-- How the code is modelled. A run is `done` with a result, a `fault` (an access outside an object
-- or through a null pointer) or `out_of_fuel`. A `size_t` wraps at 2 ^ 64. What the program does
-- outside itself is appended to a log, and the system's answers are functions of the log, so that
-- any sequence of answers can occur. The laws of `Sane` are documented behaviour of `send`, `recv`
-- and `accept`; `Settles` and `Provides` add, where a theorem says so, that signals do not interrupt
-- a call for ever and that there is memory. The arrays of the server are functions of the index, and
-- the pointers in `client_map` are indices of `clients`. The text of an error message is not
-- modelled: an error is its code.
--
-- Fuel. The parser needs one round for each byte and one more, a send loop one for each byte, the
-- queue's destruction one for each node and one more, the command loop one for each command, the
-- file loop one for each byte: these are shown to be enough. A loop that repeats a call that was
-- interrupted by a signal takes its bound as an argument, and `Settles` is that this is enough. The
-- event loop and the chat loop run on the list of turns that they take.
--
-- `server_shutdown` is given the turns that the loop takes while the call waits in `pthread_join`, and
-- has not returned as long as these do not end the loop.
--
-- In Threads a write into the command pipe may fail and leave its command without a signal, `poll` may
-- fail, and a byte in the shutdown pipe ends the loop whatever is queued. Callbacks that the loop makes
-- while it serves sockets may call the API; what the error callback does after a failed `poll`, when
-- the loop is left, is not followed.
--
-- Not modelled: threads but for the interleavings of Locked, Threads and Turnover and the order of
-- turns, calls of the API inside a callback but for Threads, the tests, the Java server and the
-- Python client, and what CMake generates.
pub mod Common
pub mod Protocol
pub mod CommandQueue
pub mod Command
pub mod Os
pub mod Sockets
pub mod Server
pub mod Client
pub mod EndToEnd
pub mod Examples
