-- ===== src/Server.antt =====
-- C_chat_lib/server_lib/include/chat_server.h and C_chat_lib/server_lib/src/chat_server.c, by part:
-- the context and its helpers (State), descriptors and slots (Slots), sending and the command queue
-- (Commands), data from clients (Receive), the event loop and the states (EventLoop), the life of
-- a context (Lifecycle), the default callbacks (Defaults), what holds between the turns of the loop
-- (Invariant), the queue of command_queue.c behind the interface that the server uses (HeapQueue),
-- the threads that share the queue (Threads), and those that start and stop the server (Turnover).
pub mod State
pub mod Slots
pub mod Commands
pub mod Receive
pub mod HeapQueue
pub mod EventLoop
pub mod Invariant
pub mod Lifecycle
pub mod Defaults
pub mod Threads
pub mod Turnover
