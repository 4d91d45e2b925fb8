-- ===== src/Examples/Sending.antt =====
-- What the client sends, at concrete inputs.
use mogakso.Client.Chunks.{last_chunk, chunk_frame, chunk_errors, client_send_file-sends}
use mogakso.Client.Chat.Reading.{Reads, chat_recv-Reads}
use mogakso.Client.Chat.{on_client_parse_complete, chat_recv}
use mogakso.Protocol.Parser.Reader.{feed}
use mogakso.Protocol.Parser.Live.{view, init_parser-IsLive}
use mogakso.Os.{got_bytes, Event, error_stderr}
use mogakso.Server.State.{einval}
use mogakso.Examples.Fixtures.{obliging, obliging-Sane, quiet}
use mogakso.Client.File.{client_send_file-overreads}
use mogakso.Protocol.Parser.{init_parser}
use mogakso.Server.Commands.SendFrame.{internal_send_frame-drops}
use mogakso.Server.Commands.{internal_send_frame}
use mogakso.Client.{ClientContext, announcement, client_send_file}
use mogakso.Common.{
  length, replicate, length-replicate, pos, decimal, done, fault, ℕ, ◌+◌, ◌*◌, ◌/◌, ◌≤◌, ◌<◌, ◌≡◌,
  refl, ◌⊎◌, none, some, List, [], ◌∷◌, ◌++◌, arith,
}
use mogakso.Os.Send.{send_loop, stream, reports, Sends, send_loop-Sends}
use mogakso.Protocol.Framing.{frame}

abbrev pub client : ClientContext
client = record {
  socket_fd = pos 7;
  server_ip = [];
  server_port = 8080;
  shutdown_read = pos 8;
  shutdown_write = pos 9;
  on_complete_message = quiet;
  on_error = quiet;
  client_parser = some init_parser;
}

abbrev hi : List ℕ
hi = 104 ∷ 105 ∷ []

send_loop-Sends_example : Sends (pos 7) hi [] (send_loop obliging 2 (pos 7) hi [])
send_loop-Sends_example = send_loop-Sends obliging 2 (pos 7) hi [] obliging-Sane (omega arith)

abbrev three : List ℕ
three = 1 ∷ 2 ∷ 3 ∷ []

abbrev one_page : List ℕ
one_page = replicate (4096 * 1) 0

abbrev long_path : List ℕ
long_path = replicate 300 97

three-fits : length (announcement hi (length three)) < 256
unfolding announcement decimal
three-fits = omega arith

one_page-size : length one_page ≡ 4096 * 1
one_page-size = length-replicate {A = ℕ} (4096 * 1) 0

one_page-fits : length (announcement hi (length one_page)) < 256
unfolding announcement decimal
one_page-fits = omega arith

long_path-size :
    (256 < length (announcement long_path (length three)))
    × (length (announcement long_path (length three)) ≤ 4091)
unfolding announcement decimal
long_path-size = omega arith

client_send_file-overreads_example :
    client_send_file obliging (some client) long_path (some three) [] ≡ fault
client_send_file-overreads_example =
    client_send_file-overreads obliging client long_path three [] (long_path-size.0)
      (long_path-size.1)

abbrev too_long : List ℕ
too_long = replicate 5000 0

internal_send_frame-drops_example :
    (internal_send_frame obliging (pos 7) 1 (some too_long) (length too_long) []
      ≡ done (error_stderr 0 ∷ []))
    × (internal_send_frame obliging (pos 7) 1 none 0 [] ≡ done (error_stderr einval ∷ []))
internal_send_frame-drops_example =
    internal_send_frame-drops obliging 7 1 too_long []
      (omega (arith, length-replicate {A = ℕ} 5000 0))
      (omega (arith, length-replicate {A = ℕ} 5000 0))

chat_recv-Reads_example :
    Reads client
      (feed
        (λ l size. obliging.calloc_ok l size)
        (on_client_parse_complete (pos 7))
        (view init_parser)
        (1 ∷ 0 ∷ 0 ∷ 0 ∷ 1 ∷ 104 ∷ [])
        [])
      (chat_recv obliging client (got_bytes 1 (0 ∷ 0 ∷ 0 ∷ 1 ∷ 104 ∷ [])) [])
chat_recv-Reads_example =
    chat_recv-Reads obliging client init_parser 1 (0 ∷ 0 ∷ 0 ∷ 1 ∷ 104 ∷ []) [] refl
      init_parser-IsLive

client_send_file-sends_example :
    let errors = length one_page / 4096 + chunk_errors (last_chunk one_page) in
    (log' : List Event) × (client_send_file obliging (some client) hi (some one_page) []
      ≡ done (pos 0, log'))
    × (0 + errors ≤ reports log')
    × ((stream (pos 7) log'
          ≡ (([] ++ frame 10 (announcement hi (length one_page)))
              ++ chunk_frame (last_chunk one_page))
            ++ frame 12 [])
        ⊎ (0 + errors < reports log'))
client_send_file-sends_example =
    client_send_file-sends obliging obliging-Sane client 7 refl hi one_page one_page-fits []
