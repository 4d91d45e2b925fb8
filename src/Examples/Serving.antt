-- ===== src/Examples/Serving.antt =====
-- The server at concrete inputs.
use mogakso.Server.Commands.{
  in_context, on_stderr, server_send_payload_to_client, server_broadcast_message, run_command,
  process_commands,
}
use mogakso.Os.{Event, error_stderr}
use mogakso.Sockets.{create_tcp_socket, set_socket_reusable}
use mogakso.Server.Commands.Api.{Answers, api-Answers}
use mogakso.Server.Commands.Rounds.{Broadcasts}
use mogakso.Server.Commands.Order.{run_all, process_commands-ordered}
use mogakso.Server.Lifecycle.Fresh.{Fresh, server_create-Fresh}
use mogakso.Server.Lifecycle.{CreateAnswers, server_create}
use mogakso.Examples.Fixtures.{
  obliging, obliging-Sane, obliging-Settles, list_fifo, one_client, one_client-IsValid,
}
use mogakso.Server.Commands.Broadcast.{run_command-Broadcasts}
use mogakso.Command.{Command, send_message, broadcast_message}
use mogakso.Common.{
  ltb, if◌then◌else◌, take, pos, negsuc, done, ℕ, ◌≡◌, refl, true, Option, none, some, List, [],
  ◌∷◌, arith,
}
use mogakso.Server.State.{ServerContext, einval, handle_error}

abbrev hello : List ℕ
hello = 104 ∷ 105 ∷ []

run_command-Broadcasts_example :
    Broadcasts obliging obliging-Sane one_client
      (negsuc 0)
      1
      hello
      (omega arith)
      2
      3
      []
      (run_command obliging one_client (broadcast_message 1 (some hello) 2 (negsuc 0)))
run_command-Broadcasts_example =
    run_command-Broadcasts obliging one_client (negsuc 0) 1 hello obliging-Sane (omega arith)
      one_client-IsValid

abbrev one_command : List Command
one_command = send_message (pos 7) 1 (some hello) 2 ∷ []

abbrev busy : ServerContext (List Command)
busy = record one_client { command_queue = one_command }

-- Every call succeeds.
abbrev all_well : CreateAnswers (List Command)
all_well = record {
  context_ok = true;
  sockets = record {
    socket = λ domain kind protocol. pos 3;
    setsockopt = λ sockfd level option value. pos 0;
    close = λ sockfd. pos 0;
  };
  bind_ok = true;
  listen_ok = true;
  clients_ok = true;
  pollers_ok = true;
  shutdown_pipe = some (pos 4, pos 5);
  command_pipe = some (pos 6, pos 9);
  new_queue = some [];
  mutex_ok = true;
}

server_create-Fresh_example :
    Fresh 2
      (pos 0 ∷ pos 0 ∷ [])
      (pos 4 ∷ pos 5 ∷ pos 6 ∷ pos 9 ∷ pos 3 ∷ [])
      (server_create all_well 8080 (pos 2))
unfolding create_tcp_socket set_socket_reusable
server_create-Fresh_example = server_create-Fresh all_well 8080 1 refl

abbrev two_commands : List Command
two_commands =
    send_message (pos 7) 1 (some hello) 2 ∷ broadcast_message 1 (some hello) 2 (negsuc 0) ∷ []

abbrev busier : ServerContext (List Command)
busier = record one_client { command_queue = two_commands }

process_commands-ordered_example :
    (q : List Command) × (log : List Event) × (run_all obliging busier two_commands [] ≡ done log)
    × (process_commands obliging list_fifo 2 busier
        ≡ done (record busier { command_queue = q; log = log }))
    × (q ≡ [])
process_commands-ordered_example =
    process_commands-ordered obliging obliging-Sane list_fifo two_commands busier refl
      ((refl, omega arith), ((refl, omega arith), tt))

api-Answers_example :
    let kept : Option (List ℕ) = if ltb 0 1 then some (take 1 hello) else none in
    Answers obliging list_fifo 1 one_client true true (send_message (pos 7) 1 kept 1) (
      server_send_payload_to_client obliging list_fifo 1 (some one_client) (pos 7) 1 (some hello) 1)
    × Answers obliging list_fifo 1 one_client true true
        (broadcast_message 1 kept 1 (pos 7))
        (server_broadcast_message obliging list_fifo 1 (some one_client) 1 (some hello) 1 (pos 7))
    × (server_send_payload_to_client obliging list_fifo 1 (some one_client) (pos 7) 1 none 1
        ≡ done (negsuc 0, in_context (handle_error one_client einval)))
    × (server_broadcast_message obliging list_fifo 1 (some one_client) 1 none 1 (pos 7)
        ≡ done (negsuc 0, in_context (handle_error one_client einval)))
    × ((p : Option (List ℕ))
        → server_send_payload_to_client obliging list_fifo 1 none (pos 7) 1 p 1
          ≡ done (negsuc 0, on_stderr (error_stderr einval ∷ [])))
    × ((p : Option (List ℕ))
        → server_broadcast_message obliging list_fifo 1 none 1 p 1 (pos 7)
          ≡ done (negsuc 0, on_stderr (error_stderr einval ∷ [])))
api-Answers_example =
    api-Answers obliging list_fifo 1 obliging-Settles one_client (pos 7) 1 hello 1 (omega arith)
