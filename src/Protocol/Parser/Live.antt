-- ===== src/Protocol/Parser/Live.antt =====
-- The parser's invariant, the open frame that a parser holds, and the state after a refused
-- allocation.
use mogakso.Common.{
  length, get_or, take, ℕ, ◌<◌, ◌≡◌, refl, sym, ap, subst, Option, none, some, List, [], ◌++◌,
  arith,
}
use mogakso.Protocol.Parser.{
  ParserState, want_header, want_payload, StreamParser, init_parser, reset_parser,
}
use mogakso.Protocol.Parser.Reader.{announced}

abbrev pub LiveIn : ParserState → StreamParser → Type 0
LiveIn want_header p =
    (length p.header_buffer ≡ 5)
    × (p.header_bytes_received < 5)
    × (p.payload_buffer ≡ none)
    × (p.payload_bytes_received ≡ 0)
LiveIn want_payload p =
    (length p.header_buffer ≡ 5)
    × (p.pending_msg_type ≡ get_or p.header_buffer 0 0)
    × (p.pending_msg_len ≡ announced p.header_buffer)
    × (p.payload_bytes_received < p.pending_msg_len)
    × (buffer : List ℕ) × (p.payload_buffer ≡ some buffer)
    × (length buffer ≡ p.pending_msg_len)

-- Between calls a parser waits for a byte of a header, and holds no payload buffer, or for a byte
-- of a payload, and holds a buffer of the announced length.
abbrev pub IsLive : StreamParser → Type 0
IsLive p = LiveIn p.parser_state p

-- After a refused allocation the complete header stays behind.
pub record IsStuck (p : StreamParser) : Type 0 where
  pub waits : p.parser_state ≡ want_header
  pub full : p.header_bytes_received ≡ 5
  pub size : length p.header_buffer ≡ 5
  pub no_payload : p.payload_buffer ≡ none

abbrev pub bytes_of : Option (List ℕ) → List ℕ
bytes_of none = []
bytes_of (some bytes) = bytes

abbrev pub view_in : ParserState → StreamParser → List ℕ
view_in want_header p = take p.header_bytes_received p.header_buffer
view_in want_payload p =
    p.header_buffer ++ take p.payload_bytes_received (bytes_of p.payload_buffer)

-- The bytes of the frame that is not complete yet.
abbrev pub view : StreamParser → List ℕ
view p = view_in p.parser_state p

pub init_parser-IsLive : IsLive init_parser
unfolding init_parser
init_parser-IsLive = (refl, omega arith, refl, refl)

pub view-init_parser : view init_parser ≡ []
unfolding init_parser
view-init_parser = refl

pub reset_parser-IsLive : (p : StreamParser) → length p.header_buffer ≡ 5 → IsLive (reset_parser p)
unfolding reset_parser
reset_parser-IsLive p h = (h, omega arith, refl, refl)

pub view-reset_parser : (p : StreamParser) → view (reset_parser p) ≡ []
unfolding reset_parser
view-reset_parser p = refl

pub IsLive-in : {st : ParserState} (p : StreamParser) → p.parser_state ≡ st → LiveIn st p → IsLive p
IsLive-in p s h = subst (λ t. LiveIn t p) (sym s) h

pub view-in : {st : ParserState} (p : StreamParser) → p.parser_state ≡ st → view p ≡ view_in st p
view-in p s = ap (λ t. view_in t p) s
