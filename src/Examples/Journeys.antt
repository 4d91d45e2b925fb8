-- ===== src/Examples/Journeys.antt =====
-- Messages from side to side, and connections, at concrete inputs.
use mogakso.Server.Commands.{
  in_context, server_send_payload_to_client, server_broadcast_message, process_commands,
}
use mogakso.EndToEnd.Broadcasting.{server_broadcast-Arrives}
use mogakso.Os.Send.{stream}
use mogakso.Protocol.Parser.RoundTrip.{flatten, frames}
use mogakso.Server.Slots.{is_valid_client}
use mogakso.Sockets.{create_tcp_socket}
use mogakso.EndToEnd.ToServer.{send_all, send_all-Arrives}
use mogakso.EndToEnd.ToClient.{server_send-Arrives}
use mogakso.Client.Chat.Connecting.{ClosesAll, client_connect-ClosesAll}
use mogakso.Client.Chat.Loop.{Stops, client_start_chat-Stops}
use mogakso.Client.Chat.{ConnectAnswers, client_connect, ChatTurn, chat_polled, client_start_chat}
use mogakso.Protocol.Parser.Live.{init_parser-IsLive}
use mogakso.Protocol.Parser.{init_parser, Callback}
use mogakso.Server.State.{ServerContext}
use mogakso.Os.{Event}
use mogakso.EndToEnd.{Network, Arrives}
use mogakso.Command.{Command}
use mogakso.Common.{
  pos, done, ℕ, ◌≡◌, refl, ap, Bool, true, false, Option, none, some, List, [], ◌∷◌, ◌++◌,
  append-nil, arith,
}
use mogakso.Examples.Fixtures.{
  obliging, obliging-Sane, obliging-Settles, list_fifo, one_client, one_client-IsValid,
}
use mogakso.Examples.Sending.{client}

-- A network that gives the bytes in one piece, and one that cuts them into single bytes.
abbrev one_piece : Network
one_piece = record { cut = λ bytes. bytes ∷ []; keeps = λ bytes. append-nil bytes }

abbrev singles : List ℕ → List (List ℕ)
singles [] = []
singles (b ∷ bs) = (b ∷ []) ∷ singles bs

flatten-singles : (bytes : List ℕ) → flatten (singles bytes) ≡ bytes
flatten-singles [] = refl
flatten-singles (b ∷ bs) = ap (◌∷◌ b) (flatten-singles bs)

abbrev byte_by_byte : Network
byte_by_byte = record { cut = singles; keeps = flatten-singles }

abbrev two_messages : List (ℕ × List ℕ)
two_messages = (1, 104 ∷ 105 ∷ []) ∷ (12, []) ∷ []

-- The messages that a callback was given.
abbrev Got : Type 0
Got = List (ℕ × Option (List ℕ))

abbrev collect : Callback Got
collect type payload len got = got ++ (type, payload) ∷ []

abbrev always : Got → ℕ → Bool
always got n = true

abbrev nothing_got : Got
nothing_got = []

send_all-Arrives_example :
    (log' : List Event) × (send_all obliging client two_messages [] ≡ done log')
    × Arrives byte_by_byte always collect 7 two_messages nothing_got [] log'
send_all-Arrives_example =
    send_all-Arrives obliging obliging-Sane client 7 refl byte_by_byte always collect two_messages
      nothing_got [] refl (omega arith, (omega arith, tt)) (λ v n. refl)

server_send-Arrives_example :
    (stx1 stx2 : ServerContext (List Command)) × (server_send_payload_to_client obliging list_fifo 1
        (some one_client)
        (pos 7)
        1
        (some (104 ∷ 105 ∷ []))
        2
      ≡ done (pos 0, in_context stx1))
    × (process_commands obliging list_fifo 1 stx1 ≡ done stx2)
    × (list_fifo.contents stx2.command_queue ≡ [])
    × Arrives one_piece always collect 7 ((1, 104 ∷ 105 ∷ []) ∷ []) nothing_got stx1.log stx2.log
unfolding is_valid_client frames
server_send-Arrives_example =
    server_send-Arrives obliging list_fifo 1 (record { memory = λ log n. refl }) obliging-Settles
      one_piece always collect nothing_got one_client 7 1 104 (105 ∷ []) [] obliging-Sane refl refl
      (omega arith) refl tt (λ v n. refl)

server_broadcast-Arrives_example :
    (stx1 stx2 : ServerContext (List Command)) × (server_broadcast_message obliging list_fifo 1
        (some one_client)
        1
        (some (104 ∷ 105 ∷ []))
        2
        (pos 9)
      ≡ done (pos 0, in_context stx1))
    × (process_commands obliging list_fifo 1 stx1 ≡ done stx2)
    × (list_fifo.contents stx2.command_queue ≡ [])
    × (stream (pos 9) stx2.log ≡ stream (pos 9) one_client.log)
    × Arrives byte_by_byte always collect 7 ((1, 104 ∷ 105 ∷ []) ∷ []) nothing_got stx1.log stx2.log
unfolding frames
server_broadcast-Arrives_example =
    server_broadcast-Arrives obliging list_fifo 1 (record { memory = λ log n. refl })
      obliging-Settles byte_by_byte always collect nothing_got one_client (pos 9) 1 104 (105 ∷ []) 3
      7 [] obliging-Sane one_client-IsValid refl (omega arith) (omega arith) (omega arith) refl refl
      refl tt (λ v n. refl)

-- The third call of `client_connect` fails: there is no pipe.
abbrev no_pipe_left : ConnectAnswers
no_pipe_left = record {
  context_ok = true;
  sockets = record {
    socket = λ domain kind protocol. pos 7;
    setsockopt = λ sockfd level option value. pos 0;
    close = λ sockfd. pos 0;
  };
  address_ok = true;
  connect_ok = true;
  ip_copied = true;
  new_pipe = none;
  parser_ok = true;
}

client_connect-ClosesAll_example :
    ClosesAll no_pipe_left (pos 7 ∷ []) (client_connect no_pipe_left [] 8080)
unfolding create_tcp_socket
client_connect-ClosesAll_example = client_connect-ClosesAll no_pipe_left [] 8080

abbrev chat_turns : List ChatTurn
chat_turns = chat_polled true false ∷ chat_polled false false ∷ []

client_start_chat-Stops_example :
    Stops obliging (client_start_chat obliging (chat_turns ++ chat_polled true true ∷ []) client [])
client_start_chat-Stops_example =
    client_start_chat-Stops obliging chat_turns [] true client []
      (init_parser, refl, init_parser-IsLive)
