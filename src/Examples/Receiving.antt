-- ===== src/Examples/Receiving.antt =====
-- What the server makes of received bytes, at concrete inputs.
use mogakso.Protocol.Parser.RoundTrip.{flatten, frames, deliver_all}
use mogakso.Server.Receive.Session.{heard, collect, over, fetch, Fetches-frames}
use mogakso.Protocol.Framing.{header_bytes, frame}
use mogakso.Server.Receive.Table.{handle_client_data-IsValid}
use mogakso.Examples.Fixtures.{
  obliging, obliging-Sane, list_fifo, one_client, client_slot, one_client-IsValid,
}
use mogakso.Protocol.Parser.Live.{view-init_parser}
use mogakso.Protocol.Parser.{init_parser}
use mogakso.Server.Slots.Valid.{IsValid}
use mogakso.Server.Receive.Data.{Accepts, read_by, handle_client_data-Accepts}
use mogakso.Command.{Command}
use mogakso.Common.{pos, done, ℕ, ◌≡◌, refl, List, [], ◌∷◌, arith}
use mogakso.Server.State.{ServerContext}
use mogakso.Server.Receive.{handle_client_data}

handle_client_data-Accepts_example :
    Accepts one_client 3
      (read_by obliging list_fifo 1 obliging-Sane one_client 3 7 1
        (0 ∷ 0 ∷ 0 ∷ 1 ∷ 104 ∷ [])
        init_parser)
      (handle_client_data obliging list_fifo 1 one_client 3)
handle_client_data-Accepts_example =
    handle_client_data-Accepts obliging list_fifo 1 obliging-Sane one_client 3 7 1
      (0 ∷ 0 ∷ 0 ∷ 1 ∷ 104 ∷ []) client_slot refl refl (rw view-init_parser tt)

-- What one call leaves, in which the frame of a text arrives whole.
abbrev served_once :
    (stx' : ServerContext (List Command)) × (handle_client_data obliging list_fifo 1 one_client 3
      ≡ done stx')
    × IsValid stx'
served_once =
    handle_client_data-IsValid obliging list_fifo 1 obliging-Sane one_client 3 7 one_client-IsValid
      (omega arith) (omega arith) client_slot (rw view-init_parser tt)

abbrev whole_frame : List (List ℕ)
whole_frame = (1 ∷ 0 ∷ 0 ∷ 0 ∷ 1 ∷ 104 ∷ []) ∷ []

whole_frame-cut : flatten whole_frame ≡ frames ((1, 104 ∷ []) ∷ [])
unfolding frames frame header_bytes
whole_frame-cut = refl

Fetches-frames_example :
    heard (pos 7) served_once.0.log
    ≡ deliver_all collect ((1, 104 ∷ []) ∷ []) (heard (pos 7) one_client.log)
Fetches-frames_example =
    Fetches-frames obliging list_fifo 1 3 7 obliging-Sane (λ log n. refl) one_client served_once.0
      whole_frame init_parser ((1, 104 ∷ []) ∷ [])
      (fetch one_client served_once.0 served_once.0 1 (0 ∷ 0 ∷ 0 ∷ 1 ∷ 104 ∷ []) [] client_slot refl
        refl served_once.1 (over served_once.0))
      refl view-init_parser whole_frame-cut (omega arith, tt)
