-- ===== src/Protocol/Parser/Refine.antt =====
-- `parse_stream` does what the reader says, for any input and from any live parser.
use mogakso.Common.{
  length, ℤ, pos, negsuc, Run, done, ◌>>=◌, ℕ, zero, suc, ◌≤◌, ◌≡◌, refl, Bool, Option, some, List,
  [], ◌∷◌, arith,
}
use mogakso.Protocol.Parser.{
  ParserState, want_header, want_payload, StreamParser, Round, next, give_up, Callback, parse_round,
  parse_loop, parse_stream,
}
use mogakso.Protocol.Parser.Reader.{Fed, reading, refused, feed}
use mogakso.Protocol.Parser.Live.{LiveIn, IsLive, IsStuck, view_in, view}
use mogakso.Protocol.Parser.HeaderRound.{Progress, goes, stops, header_round-Progress}
use mogakso.Protocol.Parser.PayloadRound.{payload_round-Progress}

-- The run of the loop ends as the reader does: with 0 in a live parser that holds the reader's open
-- frame, or with -1 in a parser that keeps the complete header.
abbrev pub AgreesLoop : {World : Type 0} → Fed World → Run (ℤ × StreamParser × World) → Type 0
AgreesLoop (reading f w) r = (p : StreamParser) × (r ≡ done (pos 0, p, w)) × IsLive p × (view p ≡ f)
AgreesLoop (refused w) r = (p : StreamParser) × (r ≡ done (negsuc 0, p, w)) × IsStuck p

-- The same of a call of `parse_stream`.
abbrev pub Agrees : {World : Type 0} → Fed World → Run (ℤ × Option StreamParser × World) → Type 0
Agrees (reading f w) r =
    (p : StreamParser) × (r ≡ done (pos 0, some p, w)) × IsLive p × (view p ≡ f)
Agrees (refused w) r = (p : StreamParser) × (r ≡ done (negsuc 0, some p, w)) × IsStuck p

Agrees-AgreesLoop :
    {World : Type 0} (x : Fed World) (r : Run (ℤ × StreamParser × World))
    → AgreesLoop x r
    → Agrees x (r >>= λ (n, p, w). done (n, some p, w))
Agrees-AgreesLoop (reading f w) r (p, e, live, v) = (p, rw e, live, v)
Agrees-AgreesLoop (refused w) r (p, e, stuck) = (p, rw e, stuck)

module _ {World : Type 0} (calloc_ok : World → ℕ → Bool) (on_complete_cb : Callback World) where
  parse_round-Progress :
      (p : StreamParser) (st : ParserState) (b : ℕ) (bs : List ℕ) (w : World)
      → p.parser_state ≡ st
      → LiveIn st p
      → Progress calloc_ok on_complete_cb
          (view_in st p)
          (b ∷ bs)
          w
          (parse_round calloc_ok on_complete_cb p st (b ∷ bs) w)
  unfolding parse_round
  parse_round-Progress p want_header b bs w s live =
      header_round-Progress calloc_ok on_complete_cb p b bs w s live
  parse_round-Progress p want_payload b bs w s live =
      payload_round-Progress calloc_ok on_complete_cb p b bs w s live

  after_round :
      (fuel : ℕ) (f all : List ℕ) (w : World) (r : Run (Round World))
      → Progress calloc_ok on_complete_cb f all w r
      → length all ≤ suc fuel
      → ((p' : StreamParser) (rest' : List ℕ) (w' : World)
          → IsLive p'
          → length rest' ≤ fuel
          → AgreesLoop
              (feed calloc_ok on_complete_cb (view p') rest' w')
              (parse_loop calloc_ok on_complete_cb fuel p' rest' w'))
      → AgreesLoop (feed calloc_ok on_complete_cb f all w) (
          r >>= λ x. elim x [
            | next p' rest w' ↦ parse_loop calloc_ok on_complete_cb fuel p' rest w'
            | give_up p' w' ↦ done (negsuc 0, p', w')
          ])
  after_round fuel f all w r (goes p' rest' w' live shorter e) enough go =
      rw e (go p' rest' w' live (omega arith))
  after_round fuel f all w r (stops p' w' stuck e) enough go = rw e (p', refl, stuck)

  pub parse_loop-AgreesLoop :
      (fuel : ℕ) (p : StreamParser) (rest : List ℕ) (w : World)
      → IsLive p
      → length rest ≤ fuel
      → AgreesLoop
          (feed calloc_ok on_complete_cb (view p) rest w)
          (parse_loop calloc_ok on_complete_cb fuel p rest w)
  unfolding parse_loop feed
  parse_loop-AgreesLoop fuel p [] w live enough = (p, refl, live, refl)
  parse_loop-AgreesLoop zero p (b ∷ bs) w live enough = absurd (omega arith)
  parse_loop-AgreesLoop (suc fuel) p (b ∷ bs) w live enough =
      after_round fuel (view p) (b ∷ bs) w
        (parse_round calloc_ok on_complete_cb p p.parser_state (b ∷ bs) w)
        (parse_round-Progress p p.parser_state b bs w refl live) enough
        (λ p' rest' w' live' enough'. parse_loop-AgreesLoop fuel p' rest' w' live' enough')

  -- From a live parser and for any input, a call of `parse_stream` ends, touches no memory outside
  -- its buffers, and agrees with the reader that starts from the parser's open frame: it makes the
  -- reader's callbacks in the reader's order, returns 0 in a live parser that holds the reader's
  -- open frame, and returns -1 just where the reader is refused memory.
  pub parse_stream-Agrees :
      (p : StreamParser) (bytes : List ℕ) (w : World)
      → IsLive p
      → Agrees
          (feed calloc_ok on_complete_cb (view p) bytes w)
          (parse_stream calloc_ok (some p) (some bytes) (some on_complete_cb) w)
  unfolding parse_stream
  parse_stream-Agrees p bytes w live =
      Agrees-AgreesLoop _ _
        (parse_loop-AgreesLoop (suc (length bytes)) p bytes w live (omega arith))
