-- ===== src/Server/Lifecycle.antt =====
-- `server_create`, `_cleanup_server_context` and `server_destroy` of chat_server.c. What matters of
-- the cleanup is which descriptors it closes, in order; it also frees what it finds.
pub mod Closing
pub mod Fresh
use mogakso.Sockets.{SocketCalls, create_tcp_socket, set_socket_reusable}
use mogakso.Common.{
  ◌==◌, if◌then◌else◌, replicate, ℤ, pos, negsuc, is_neg, ℕ, zero, suc, ◌+◌, Bool, true, false, not,
  ◌&&◌, Option, none, some, List, [], ◌∷◌, ◌++◌,
}
use mogakso.Server.State.{
  ServerState, stopped, shutting_down, running, Poller, builtin, Registration, ServerContext,
}
use mogakso.Server.Slots.{no_events, zero_client}

-- What the calls in `server_create` answer.
pub record CreateAnswers (Q : Type 0) : Type 0 where
  pub context_ok : Bool
  pub sockets : SocketCalls
  pub bind_ok : Bool
  pub listen_ok : Bool
  pub clients_ok : Bool
  pub pollers_ok : Bool
  pub shutdown_pipe : Option (ℤ × ℤ)
  pub command_pipe : Option (ℤ × ℤ)
  pub new_queue : Option Q
  pub mutex_ok : Bool

-- `stx->listening_socket_fd`.
abbrev pub new_socket : {Q : Type 0} → CreateAnswers Q → ℤ
new_socket answers = create_tcp_socket answers.sockets

-- The listening socket is made, and is listening.
abbrev pub listens : {Q : Type 0} → CreateAnswers Q → Bool
listens answers =
    not (is_neg (new_socket answers))
    && not (is_neg (set_socket_reusable answers.sockets (new_socket answers)))
    && answers.bind_ok
    && answers.listen_ok

-- The fields that the cleanup closes. No `clients` stands for the null pointer.
pub record Resources : Type 0 where
  pub client_fds : List ℤ
  pub shutdown_fds : ℤ × ℤ
  pub command_fds : ℤ × ℤ
  pub listening_fd : ℤ

abbrev pub closes : ℤ → List ℤ
closes (pos n) = pos n ∷ []
closes (negsuc n) = []

abbrev pub closes_all : List ℤ → List ℤ
closes_all [] = []
closes_all (fd ∷ fds) = closes fd ++ closes_all fds

unfoldable pub cleanup_server_context : Resources → List ℤ
cleanup_server_context r =
    closes_all r.client_fds
    ++ (closes r.shutdown_fds.0
        ++ (closes r.shutdown_fds.1
            ++ (closes r.command_fds.0 ++ (closes r.command_fds.1 ++ closes r.listening_fd))))

-- `client_fds` of the first slots.
abbrev pub fds_of : {Q : Type 0} → ServerContext Q → ℕ → ℕ → List ℤ
fds_of stx zero i = []
fds_of stx (suc rounds) i = (stx.clients i).socket_fd ∷ fds_of stx rounds (i + 1)

abbrev pub resources_of : {Q : Type 0} → ServerContext Q → Resources
resources_of stx = record {
  client_fds = fds_of stx stx.max_clients 0;
  shutdown_fds = (stx.shutdown_read, stx.shutdown_write);
  command_fds = (stx.command_read, stx.command_write);
  listening_fd = stx.listening_socket_fd;
}

-- The descriptors that are closed, or that the context stays.
abbrev pub destroy_from : ServerState → Resources → Option (List ℤ)
destroy_from stopped r = some (cleanup_server_context r)
destroy_from shutting_down r = none
destroy_from running r = none

unfoldable pub server_destroy : {Q : Type 0} → ServerContext Q → Option (List ℤ)
server_destroy stx = destroy_from stx.server_state (resources_of stx)

-- The context, or the descriptors that the cleanup closed.
pub data Created (Q : Type 0) : Type 0 where
  created : ServerContext Q → Created Q
  failed : List ℤ → Created Q

abbrev quiet_registration : Registration
quiet_registration = record { handler = builtin; user_data = none }

abbrev pub no_fds : ℤ × ℤ
no_fds = (negsuc 0, negsuc 0)

-- After `calloc`, every descriptor is 0.
abbrev pub zeroed : Resources
zeroed = record {
  client_fds = [];
  shutdown_fds = (pos 0, pos 0);
  command_fds = (pos 0, pos 0);
  listening_fd = pos 0;
}

abbrev pub first_pollers : (listening shutdown command : ℤ) → ℕ → Poller
first_pollers listening shutdown command i =
    if i == 0
    then record { fd = listening; events = true; revents = no_events }
    else if i == 1
    then record { fd = shutdown; events = true; revents = no_events }
    else if i == 2
    then record { fd = command; events = true; revents = no_events }
    else record { fd = negsuc 0; events = false; revents = no_events }

-- The context at the end of `server_create`.
abbrev pub new_context : {Q : Type 0} → ℤ → (ℤ × ℤ) → (ℤ × ℤ) → Q → ℕ → ℕ → ServerContext Q
new_context socket shutdown command queue port max_clients = record {
  listening_socket_fd = socket;
  port = port;
  clients = λ i. zero_client;
  client_map = λ fd. none;
  max_clients = max_clients;
  client_count = 0;
  pollers = first_pollers socket shutdown.0 command.0;
  shutdown_read = shutdown.0;
  shutdown_write = shutdown.1;
  command_read = command.0;
  command_write = command.1;
  command_queue = queue;
  has_thread = false;
  server_state = stopped;
  on_connect = quiet_registration;
  on_complete_message = quiet_registration;
  on_disconnect = quiet_registration;
  on_error = quiet_registration;
  log = [];
}

module _ {Q : Type 0} (answers : CreateAnswers Q) (port max_clients : ℕ) where
  abbrev pub held : (has_clients : Bool) → (shutdown command : ℤ × ℤ) → Resources
  held has_clients shutdown command = record {
    client_fds = if has_clients then replicate max_clients (pos 0) else [];
    shutdown_fds = shutdown;
    command_fds = command;
    listening_fd = new_socket answers;
  }

  -- From the pipes on.
  unfoldable pub create_pipes : Created Q
  unfolding cleanup_server_context
  create_pipes = elim answers.shutdown_pipe [
    | none ↦ failed (cleanup_server_context (held true no_fds no_fds))
    | some shutdown ↦ elim answers.command_pipe [
      | none ↦ failed (cleanup_server_context (held true shutdown no_fds))
      | some command ↦ elim answers.new_queue [
        | none ↦ failed (cleanup_server_context (held true shutdown command))
        | some queue ↦
            if answers.mutex_ok
            then created (new_context (new_socket answers) shutdown command queue port max_clients)
            else failed (cleanup_server_context (held true shutdown command))
      ]
    ]
  ]

  -- From the listening socket on.
  unfoldable pub create_socket : Created Q
  unfolding cleanup_server_context create_pipes
  create_socket =
      if listens answers
      then (if answers.clients_ok && answers.pollers_ok
          then create_pipes
          else failed (cleanup_server_context (held answers.clients_ok no_fds no_fds)))
      else failed (cleanup_server_context (held false no_fds no_fds))

-- `max_clients` is an `int`.
unfoldable pub server_create : {Q : Type 0} → CreateAnswers Q → ℕ → ℤ → Created Q
unfolding cleanup_server_context create_socket
server_create answers port (negsuc n) =
    failed (if answers.context_ok then cleanup_server_context zeroed else [])
server_create answers port (pos zero) =
    failed (if answers.context_ok then cleanup_server_context zeroed else [])
server_create answers port (pos (suc n)) =
    if answers.context_ok then create_socket answers port (suc n) else failed []
