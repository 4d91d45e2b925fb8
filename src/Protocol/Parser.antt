-- ===== src/Protocol/Parser.antt =====
-- protocol.c: the incremental parser. `parse_stream` is a loop over the bytes that are left; a
-- round copies one piece into the header or the payload buffer.
--
-- `World` is what the completion callback and the allocator work on: the callback is a function on
-- it, and whether `calloc` gives a buffer of some size is read off it.
pub mod Reader
pub mod Pieces
pub mod Live
pub mod HeaderRound
pub mod PayloadRound
pub mod Refine
pub mod RoundTrip
pub mod Worlds
pub mod Forgetting
use mogakso.Common.{
  ltb, ◌==◌, if◌then◌else◌, length, get_or, take, drop, replicate, ℤ, pos, negsuc, Run, done, fault,
  out_of_fuel, ◌>>=◌, memcpy, ℕ, zero, suc, ◌+◌, ◌-◌, ◌%◌, ◌^◌, Bool, Option, none, some, List, [],
  ◌∷◌,
}
use mogakso.Protocol.Wire.{header_size, ntohl_bytes}

pub data ParserState : Type 0 where
  want_header want_payload : ParserState

pub record StreamParser : Type 0 where
  pub parser_state : ParserState
  pub header_buffer : List ℕ
  pub header_bytes_received : ℕ
  pub pending_msg_type : ℕ
  pub pending_msg_len : ℕ
  pub payload_buffer : Option (List ℕ)
  pub payload_bytes_received : ℕ
  pub user_data : Option ℕ

-- What `init_parser` leaves in the structure.
unfoldable pub init_parser : StreamParser
init_parser = record {
  parser_state = want_header;
  header_buffer = replicate 5 0;
  header_bytes_received = 0;
  pending_msg_type = 0;
  pending_msg_len = 0;
  payload_buffer = none;
  payload_bytes_received = 0;
  user_data = none;
}

unfoldable pub destroy_parser : StreamParser → StreamParser
destroy_parser p = record p { payload_buffer = none }

unfoldable pub reset_parser : StreamParser → StreamParser
reset_parser p = record p {
  parser_state = want_header;
  header_bytes_received = 0;
  pending_msg_len = 0;
  payload_buffer = none;
  payload_bytes_received = 0;
}

-- How many bytes a round copies: what is needed, or what is left of the input if that is less.
abbrev pub bytes_to_copy : ℕ → ℕ → ℕ
bytes_to_copy left needed = if ltb left needed then left else needed

-- What a round leaves to do: go on with the rest of the input, or return -1.
pub data Round (World : Type 0) : Type 0 where
  next : StreamParser → List ℕ → World → Round World
  give_up : StreamParser → World → Round World

-- `on_complete_callback`: what a completed message (type, data, length) does to the world.
abbrev pub Callback : Type 0 → Type 0
Callback World = ℕ → Option (List ℕ) → ℕ → World → World

-- What is still wanted: a `size_t` difference.
abbrev pub bytes_needed : ℕ → ℕ → ℕ
bytes_needed total received = (total + 2 ^ 64 - received) % 2 ^ 64

module _ {World : Type 0} (calloc_ok : World → ℕ → Bool) (on_complete_cb : Callback World) where
  -- The header is complete: its fields are read, and an empty message is delivered at once.
  pub header_complete : StreamParser → List ℕ → World → Round World
  header_complete p rest w =
      let msg_type = get_or p.header_buffer 0 0 in
      let msg_len = ntohl_bytes (drop 1 p.header_buffer) in
      let p' = record p { pending_msg_type = msg_type; pending_msg_len = msg_len } in
      if msg_len == 0
      then next (reset_parser p') rest (on_complete_cb msg_type none 0 w)
      else if calloc_ok w msg_len
      then next
          (record p' {
            payload_buffer = some (replicate msg_len 0);
            payload_bytes_received = 0;
            parser_state = want_payload;
          })
          rest w
      else give_up (record p' { payload_buffer = none }) w

  -- `n` bytes are copied into the header.
  pub header_piece : StreamParser → ℕ → List ℕ → World → Run (Round World)
  header_piece p n rest w = do
    buffer ← memcpy p.header_buffer p.header_bytes_received (take n rest)
    let received = p.header_bytes_received + n
    let p' = record p { header_buffer = buffer; header_bytes_received = received }
    if received == header_size
        then done (header_complete p' (drop n rest) w)
        else done (next p' (drop n rest) w)

  pub header_round : StreamParser → List ℕ → World → Run (Round World)
  header_round p rest w =
      header_piece p
        (bytes_to_copy (length rest) (bytes_needed header_size p.header_bytes_received)) rest w

  -- A missing payload buffer is a null pointer that `memcpy` would write through.
  pub payload_copy : Option (List ℕ) → ℕ → List ℕ → Run (List ℕ)
  payload_copy none offset bytes = fault
  payload_copy (some buffer) offset bytes = memcpy buffer offset bytes

  -- `n` bytes are copied into the payload.
  pub payload_piece : StreamParser → ℕ → List ℕ → World → Run (Round World)
  payload_piece p n rest w = do
    buffer ← payload_copy p.payload_buffer p.payload_bytes_received (take n rest)
    let received = p.payload_bytes_received + n
    let p' = record p { payload_buffer = some buffer; payload_bytes_received = received }
    if received == p.pending_msg_len
        then done (
            next (reset_parser p') (drop n rest)
              (on_complete_cb p.pending_msg_type (some buffer) p.pending_msg_len w))
        else done (next p' (drop n rest) w)

  pub payload_round : StreamParser → List ℕ → World → Run (Round World)
  payload_round p rest w =
      payload_piece p
        (bytes_to_copy (length rest) (bytes_needed p.pending_msg_len p.payload_bytes_received)) rest
        w

  pub parse_round : StreamParser → ParserState → List ℕ → World → Run (Round World)
  parse_round p want_header rest w = header_round p rest w
  parse_round p want_payload rest w = payload_round p rest w

  -- `while (bytes_processed < len)`, on fuel.
  pub parse_loop : ℕ → StreamParser → List ℕ → World → Run (ℤ × StreamParser × World)
  parse_loop fuel p [] w = done (pos 0, p, w)
  parse_loop zero p (b ∷ bs) w = out_of_fuel
  parse_loop (suc fuel) p (b ∷ bs) w = parse_round p p.parser_state (b ∷ bs) w >>= λ r. elim r [
    | next p' rest w' ↦ parse_loop fuel p' rest w'
    | give_up p' w' ↦ done (negsuc 0, p', w')
  ]

-- A round that copies nothing comes at most once in a call, so that one round for each byte and one
-- more are enough. A null parser, input or callback is refused.
module _ {World : Type 0} (calloc_ok : World → ℕ → Bool) where
  unfoldable pub parse_stream :
      Option StreamParser
      → Option (List ℕ)
      → Option (Callback World)
      → World
      → Run (ℤ × Option StreamParser × World)
  parse_stream none _ _ w = done (negsuc 0, none, w)
  parse_stream (some p) none _ w = done (negsuc 0, some p, w)
  parse_stream (some p) (some bytes) none w = done (negsuc 0, some p, w)
  parse_stream (some p) (some bytes) (some cb) w = do
    (n, p', w') ← parse_loop calloc_ok cb (suc (length bytes)) p bytes w
    done (n, some p', w')
