-- ===== src/Client/Chat.antt =====
-- chat_client.c: `client_connect`, the cleanup, `client_shutdown` and the chat loop.
pub mod Reading
pub mod Connecting
pub mod Loop
use mogakso.Sockets.{SocketCalls, create_tcp_socket}
use mogakso.Protocol.Parser.{init_parser, Callback, parse_stream}
use mogakso.Client.{ClientContext, client_handle_error}
use mogakso.Common.{
  if◌then◌else◌, length, ℤ, negsuc, is_neg, eqb_ℤ, codes, Run, done, ◌>>=◌, ℕ, Bool, true, false,
  not, ◌&&◌, Option, none, some, List, [], ◌∷◌, ◌++◌,
}
use mogakso.Server.Commands.{write_signal}
use mogakso.Server.State.{builtin}
use mogakso.Server.Lifecycle.{closes, failed}
use mogakso.Os.{
  Received, got_bytes, end_of_stream, recv_failed, Event, closed, received, message_callback, Os,
}

-- What the calls in `client_connect` answer.
pub record ConnectAnswers : Type 0 where
  pub context_ok : Bool
  pub sockets : SocketCalls
  pub address_ok : Bool
  pub connect_ok : Bool
  pub ip_copied : Bool
  pub new_pipe : Option (ℤ × ℤ)
  pub parser_ok : Bool

-- `ctx->socket_fd`.
abbrev pub client_socket : ConnectAnswers → ℤ
client_socket answers = create_tcp_socket answers.sockets

-- The descriptors that `_cleanup_client_context` closes, in order; it also frees what it finds.
unfoldable pub cleanup_client_context : (shutdown : ℤ × ℤ) → (socket : ℤ) → List ℤ
cleanup_client_context shutdown socket = closes shutdown.0 ++ (closes shutdown.1 ++ closes socket)

unfoldable pub client_disconnect : ClientContext → List ℤ
unfolding cleanup_client_context
client_disconnect ctx = cleanup_client_context (ctx.shutdown_read, ctx.shutdown_write) ctx.socket_fd

-- The context, or the descriptors that the cleanup closed.
pub data Connected : Type 0 where
  connected : ClientContext → Connected
  not_connected : List ℤ → Connected

abbrev pub new_client_context : ℤ → (ℤ × ℤ) → List ℕ → ℕ → ClientContext
new_client_context socket shutdown ip port = record {
  socket_fd = socket;
  server_ip = ip;
  server_port = port;
  shutdown_read = shutdown.0;
  shutdown_write = shutdown.1;
  on_complete_message = record { handler = builtin; user_data = none };
  on_error = record { handler = builtin; user_data = none };
  client_parser = some init_parser;
}

-- From the shutdown pipe on.
unfoldable pub connect_pipe : ConnectAnswers → List ℕ → ℕ → Connected
unfolding cleanup_client_context
connect_pipe answers ip port = elim answers.new_pipe [
  | none ↦ not_connected (cleanup_client_context (negsuc 0, negsuc 0) (client_socket answers))
  | some shutdown ↦
      if answers.parser_ok
      then connected (new_client_context (client_socket answers) shutdown ip port)
      else not_connected (cleanup_client_context shutdown (client_socket answers))
]

unfoldable pub client_connect : ConnectAnswers → List ℕ → ℕ → Connected
unfolding cleanup_client_context connect_pipe
client_connect answers ip port =
    if answers.context_ok
    then (if not (is_neg (client_socket answers))
          && answers.address_ok
          && answers.connect_ok
          && answers.ip_copied
        then connect_pipe answers ip port
        else not_connected (cleanup_client_context (negsuc 0, negsuc 0) (client_socket answers)))
    else not_connected []

unfoldable pub client_shutdown :
    Os → (retries : ℕ) → Option ClientContext → List Event → Run (List Event)
unfolding client_handle_error
client_shutdown os retries none log = done log
client_shutdown os retries (some ctx) log = do
  (n, log') ← write_signal os retries ctx.shutdown_write log
  done (if eqb_ℤ n (negsuc 0) then client_handle_error (some ctx) (os.errno log') log' else log')

-- `_on_client_parse_complete_cb` passes the message on.
abbrev pub on_client_parse_complete : ℤ → Callback (List Event)
on_client_parse_complete fd msg_type payload len log =
    message_callback fd msg_type payload len ∷ log

-- What `poll` answers: an error, or the events of the socket and of the pipe. `readable` stands for
-- POLLIN or POLLHUP.
pub data ChatTurn : Type 0 where
  chat_poll_failed : ChatTurn
  chat_polled : (readable signalled_stop : Bool) → ChatTurn

-- After the turns, the loop waits in `poll`, or has ended.
pub data Chat : Type 0 where
  chatting : ClientContext → List Event → Chat
  ended : ClientContext → List Event → Chat

-- The text for the application when the connection is over: type 0.
abbrev pub farewell : ClientContext → List ℕ → List Event → Chat
farewell ctx msg log = ended ctx (message_callback ctx.socket_fd 0 (some msg) (length msg) ∷ log)

unfoldable pub chat_recv : Os → ClientContext → Received → List Event → Run Chat
unfolding client_handle_error
chat_recv os ctx (got_bytes b bs) log = do
  (n, p, log') ←
      parse_stream (λ l size. os.calloc_ok l size) ctx.client_parser (some (b ∷ bs))
        (some (on_client_parse_complete ctx.socket_fd)) log
  let ctx' = record ctx { client_parser = p }
  done
      (if is_neg n then ended ctx' (client_handle_error (some ctx') 0 log') else chatting ctx' log')
chat_recv os ctx end_of_stream log =
    done (farewell ctx (codes "client_start_chat: connection closed by server.") log)
chat_recv os ctx recv_failed log =
    done (farewell ctx (codes "client_start_chat: recv() failed.") log)

-- The shutdown pipe is looked at after the socket.
abbrev pub check_stop : Bool → Chat → Chat
check_stop true (chatting ctx log) = ended ctx log
check_stop false (chatting ctx log) = chatting ctx log
check_stop stop (ended ctx log) = ended ctx log

unfoldable pub chat_turn : Os → ClientContext → List Event → ChatTurn → Run Chat
unfolding client_handle_error chat_recv
chat_turn os ctx log chat_poll_failed =
    done (ended ctx (client_handle_error (some ctx) (os.errno log) log))
chat_turn os ctx log (chat_polled readable stop) = do
  let r = os.recv log ctx.socket_fd
  c ←
      (if readable
        then chat_recv os ctx r (received ctx.socket_fd r ∷ log)
        else done (chatting ctx log))
  done (check_stop stop c)

-- `client_start_chat` on a sequence of turns.
unfoldable pub client_start_chat : Os → List ChatTurn → ClientContext → List Event → Run Chat
unfolding chat_turn
client_start_chat os [] ctx log = done (chatting ctx log)
client_start_chat os (turn ∷ turns) ctx log = chat_turn os ctx log turn >>= λ c. elim c [
  | chatting ctx' log' ↦ client_start_chat os turns ctx' log'
  | ended ctx' log' ↦ done (ended ctx' log')
]
