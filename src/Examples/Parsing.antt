-- ===== src/Examples/Parsing.antt =====
-- Framing and parsing at concrete inputs.
use mathlib.Core.Quot
use native.Mathlib.Nat.{ℕ_set}
use mogakso.Protocol.Parser.Forgetting.{LiveParser, onward, receive, Shows, parse_stream-Shows}
use mogakso.Protocol.Parser.Refine.{Agrees, parse_stream-Agrees}
use mogakso.Protocol.Parser.{StreamParser, init_parser, Callback, parse_stream}
use mogakso.Common.{
  length, pos, done, fault, ℕ, ◌+◌, ◌-◌, ◌^◌, ◌≡◌, refl, Bool, true, Option, some, List, [], ◌∷◌,
  arith,
}
use mogakso.Protocol.Framing.{
  header_bytes, frame_message, frame, frame_message-frame, frame_message_overflow,
}
use mogakso.Protocol.Parser.RoundTrip.{
  flatten, frames, deliver_all, parse_pieces, parse_pieces-Agrees, parse_pieces-frames,
}
use mogakso.Protocol.Parser.Reader.{feed}
use mogakso.Protocol.Parser.Live.{IsLive, view, init_parser-IsLive}

abbrev Deliveries : Type 0
Deliveries = List (ℕ × Option (List ℕ) × ℕ)

abbrev collect : Callback Deliveries
collect type payload len w = (type, payload, len) ∷ w

abbrev always : Deliveries → ℕ → Bool
always w n = true

-- A text of two bytes, and an empty ping.
abbrev messages : List (ℕ × List ℕ)
messages = (1, 104 ∷ 105 ∷ []) ∷ (900, []) ∷ []

abbrev pieces : List (List ℕ)
pieces = (1 ∷ 0 ∷ 0 ∷ []) ∷ (0 ∷ 2 ∷ 104 ∷ []) ∷ (105 ∷ 132 ∷ 0 ∷ 0 ∷ 0 ∷ 0 ∷ []) ∷ []

pieces-frames : flatten pieces ≡ frames messages
unfolding frames frame header_bytes
pieces-frames = refl

parse_pieces-frames_example :
    (p : StreamParser) × (parse_pieces always collect pieces (some init_parser) []
      ≡ done (pos 0, some p, deliver_all collect messages []))
    × IsLive p
    × (view p ≡ [])
parse_pieces-frames_example =
    parse_pieces-frames always collect messages pieces [] pieces-frames
      (omega arith, (omega arith, tt)) (λ v n. refl)

parse_pieces-Agrees_example :
    Agrees
      (feed always collect (view init_parser) (flatten pieces) [])
      (parse_pieces always collect pieces (some init_parser) [])
parse_pieces-Agrees_example =
    parse_pieces-Agrees always collect pieces init_parser [] init_parser-IsLive

parse_stream-Agrees_example :
    Agrees (feed always collect (view init_parser) (1 ∷ 0 ∷ 0 ∷ 0 ∷ 1 ∷ 104 ∷ 7 ∷ []) []) (
      parse_stream always
        (some init_parser)
        (some (1 ∷ 0 ∷ 0 ∷ 0 ∷ 1 ∷ 104 ∷ 7 ∷ []))
        (some collect)
        [])
parse_stream-Agrees_example =
    parse_stream-Agrees always collect init_parser (1 ∷ 0 ∷ 0 ∷ 0 ∷ 1 ∷ 104 ∷ 7 ∷ []) []
      init_parser-IsLive

abbrev eight : List ℕ
eight = 9 ∷ 9 ∷ 9 ∷ 9 ∷ 9 ∷ 9 ∷ 9 ∷ 9 ∷ []

frame_message-frame_example :
    frame_message 1 (some (104 ∷ 105 ∷ [])) 2 (some eight) 8
    ≡ done (pos 7, some (1 ∷ 0 ∷ 0 ∷ 0 ∷ 2 ∷ 104 ∷ 105 ∷ 9 ∷ []))
frame_message-frame_example =
    frame_message-frame 1 (104 ∷ 105 ∷ []) eight 8 (omega arith) (omega arith) (omega arith)

frame_message_overflow_example :
    frame_message 1 (some (104 ∷ [])) (2 ^ 64 - 1) (some eight) (length eight) ≡ fault
frame_message_overflow_example =
    frame_message_overflow 1 (104 ∷ []) eight (2 ^ 64 - 1) (omega arith) (omega arith) (omega arith)
      (omega arith)

-- The callback counts the messages.
abbrev count_messages : Callback ℕ
count_messages type payload len n = n + 1

abbrev plenty : ℕ → ℕ → Bool
plenty w n = true

abbrev fresh_parser : LiveParser
fresh_parser = (init_parser, init_parser-IsLive)

parse_stream-Shows_example :
    Shows ℕ_set plenty count_messages
      (receive ℕ_set plenty count_messages (Quot.mk fresh_parser) (1 ∷ 0 ∷ []) 0)
      (parse_stream plenty (some init_parser) (some (1 ∷ 0 ∷ [])) (some count_messages) 0)
    × (receive ℕ_set plenty count_messages (Quot.mk fresh_parser) (1 ∷ 0 ∷ 0 ∷ 0 ∷ 1 ∷ 104 ∷ []) 0
        ≡ onward
            (receive ℕ_set plenty count_messages (Quot.mk fresh_parser) (1 ∷ 0 ∷ []) 0)
            (λ q' w'. receive ℕ_set plenty count_messages q' (0 ∷ 0 ∷ 1 ∷ 104 ∷ []) w'))
parse_stream-Shows_example =
    parse_stream-Shows ℕ_set plenty count_messages fresh_parser (1 ∷ 0 ∷ []) (0 ∷ 0 ∷ 1 ∷ 104 ∷ [])
      0
