-- ===== src/Protocol/Parser/RoundTrip.antt =====
-- Frames through the parser: what `frame_message` writes, cut into any pieces, comes out again.
use mogakso.Protocol.Parser.Live.{IsLive, view, init_parser-IsLive, view-init_parser}
use mogakso.Protocol.Parser.Refine.{Agrees, parse_stream-Agrees}
use mogakso.Common.{
  if◌then◌else◌, ne→==_false, length, get_or, All, ℤ, pos, is_neg, Run, done, ◌>>=◌, ℕ, ◌%◌, ◌^◌,
  ◌<◌, ◌≡◌, refl, ap, ◌∙◌, subst, Bool, true, Option, none, some, List, [], ◌∷◌, ◌++◌, arith,
}
use mogakso.Protocol.Framing.{header_bytes, frame}
use mogakso.Protocol.Parser.{StreamParser, init_parser, Callback, parse_stream}
use mogakso.Protocol.Parser.Reader.{
  Fed, reading, refused, announced, continue, at_header, feed, at_header-empty, at_header-given,
}
use mogakso.Protocol.Parser.Pieces.{feed-append, feed-header_full, feed-payload_full, at_end-header}

abbrev pub flatten : List (List ℕ) → List ℕ
flatten [] = []
flatten (xs ∷ xss) = xs ++ flatten xss

-- The frames of some messages, one behind the other.
unfoldable pub frames : List (ℕ × List ℕ) → List ℕ
frames [] = []
frames ((type, payload) ∷ ms) = frame type payload ++ frames ms

-- The callback for one message: no buffer is handed over for an empty payload.
abbrev pub deliver : {World : Type 0} → Callback World → ℕ → List ℕ → World → World
deliver cb type [] w = cb (type % 256) none 0 w
deliver cb type (b ∷ bs) w = cb (type % 256) (some (b ∷ bs)) (length (b ∷ bs)) w

abbrev pub deliver_all : {World : Type 0} → Callback World → List (ℕ × List ℕ) → World → World
deliver_all cb [] w = w
deliver_all cb ((type, payload) ∷ ms) w = deliver_all cb ms (deliver cb type payload w)

module _ {World : Type 0} (calloc_ok : World → ℕ → Bool) (on_complete_cb : Callback World) where
  feed-header :
      (header : List ℕ) (w : World)
      → length header ≡ 5
      → feed calloc_ok on_complete_cb [] header w ≡ at_header calloc_ok on_complete_cb header w
  feed-header [] w h = absurd (omega arith)
  feed-header (b ∷ bs) w h = feed-header_full calloc_ok on_complete_cb [] b bs w (omega arith)

  -- The reader on a header and a payload of the announced length.
  feed-message :
      (header : List ℕ) (b : ℕ) (bs : List ℕ) (w : World)
      → length header ≡ 5
      → announced header ≡ length (b ∷ bs)
      → calloc_ok w (length (b ∷ bs)) ≡ true
      → feed calloc_ok on_complete_cb [] (header ++ b ∷ bs) w
        ≡ reading [] (on_complete_cb (get_or header 0 0) (some (b ∷ bs)) (length (b ∷ bs)) w)
  feed-message header b bs w size told memory =
      feed-append calloc_ok on_complete_cb [] header (b ∷ bs) w
      ∙ ap (λ x. continue x (λ f' w'. feed calloc_ok on_complete_cb f' (b ∷ bs) w'))
          (feed-header header w size
            ∙ at_header-given calloc_ok on_complete_cb header w
                (ne→==_false (announced header) 0 (omega arith)) (ap (calloc_ok w) told ∙ memory))
      ∙ feed-payload_full calloc_ok on_complete_cb header b bs w (omega arith) (omega arith)
      ∙ at_end-header calloc_ok on_complete_cb header (b ∷ bs) w size
      ∙ rw told

  -- The reader on one frame.
  feed-frame :
      (type : ℕ) (payload : List ℕ) (w : World)
      → length payload < 2 ^ 32
      → ((v : World) (n : ℕ) → calloc_ok v n ≡ true)
      → feed calloc_ok on_complete_cb [] (frame type payload) w
        ≡ reading [] (deliver on_complete_cb type payload w)
  unfolding frame announced
  feed-frame type [] w small memory =
      feed-header (frame type []) w refl
      ∙ at_header-empty calloc_ok on_complete_cb (frame type []) w refl
  feed-frame type (b ∷ bs) w small memory =
      feed-message (header_bytes type (length (b ∷ bs))) b bs w refl (omega arith)
        (memory w (length (b ∷ bs)))

  -- The reader on a sequence of frames.
  pub feed-frames :
      (ms : List (ℕ × List ℕ)) (w : World)
      → All (λ (_, payload). length payload < 2 ^ 32) ms
      → ((v : World) (n : ℕ) → calloc_ok v n ≡ true)
      → feed calloc_ok on_complete_cb [] (frames ms) w
        ≡ reading [] (deliver_all on_complete_cb ms w)
  unfolding frames feed
  feed-frames [] w small memory = refl
  feed-frames ((type, payload) ∷ ms) w small memory =
      feed-append calloc_ok on_complete_cb [] (frame type payload) (frames ms) w
      ∙ ap (λ x. continue x (λ f' w'. feed calloc_ok on_complete_cb f' (frames ms) w'))
          (feed-frame type payload w small.0 memory)
      ∙ feed-frames ms (deliver on_complete_cb type payload w) small.1 memory

  -- Calls of `parse_stream` on the pieces in turn, while they succeed.
  unfoldable pub parse_pieces :
      List (List ℕ) → Option StreamParser → World → Run (ℤ × Option StreamParser × World)
  parse_pieces [] p w = done (pos 0, p, w)
  parse_pieces (piece ∷ pieces) p w =
      parse_stream calloc_ok p (some piece) (some on_complete_cb) w >>= λ (n, p', w').
      if is_neg n then done (n, p', w') else parse_pieces pieces p' w'

  after_piece :
      (pieces : List (List ℕ)) (x : Fed World) (r : Run (ℤ × Option StreamParser × World))
      → Agrees x r
      → ((p' : StreamParser) (w' : World)
          → IsLive p'
          → Agrees
              (feed calloc_ok on_complete_cb (view p') (flatten pieces) w')
              (parse_pieces pieces (some p') w'))
      → Agrees
          (continue x (λ f' w'. feed calloc_ok on_complete_cb f' (flatten pieces) w'))
          (r >>= λ (n, p', w'). if is_neg n then done (n, p', w') else parse_pieces pieces p' w')
  after_piece pieces (reading f w') r (p', e, live, v) go = rw (e, ← v) (go p' w' live)
  after_piece pieces (refused w') r (p', e, stuck) go = rw e (p', refl, stuck)

  -- However an input is cut into pieces, the calls of `parse_stream` on the pieces agree with the
  -- reader on the whole input, so that the cuts make no difference.
  pub parse_pieces-Agrees :
      (pieces : List (List ℕ)) (p : StreamParser) (w : World)
      → IsLive p
      → Agrees
          (feed calloc_ok on_complete_cb (view p) (flatten pieces) w)
          (parse_pieces pieces (some p) w)
  unfolding parse_pieces feed
  parse_pieces-Agrees [] p w live = (p, refl, live, refl)
  parse_pieces-Agrees (piece ∷ pieces) p w live =
      rw (feed-append calloc_ok on_complete_cb (view p) piece (flatten pieces) w) (
        after_piece pieces _ _ (parse_stream-Agrees calloc_ok on_complete_cb p piece w live)
          (λ p' w' live'. parse_pieces-Agrees pieces p' w' live'))

  -- Whatever pieces the frames of some messages arrive in, a fresh parser that is given memory makes
  -- one callback for each message, in order, with the low byte of its type and its payload, and is
  -- left with no open frame.
  pub parse_pieces-frames :
      (ms : List (ℕ × List ℕ)) (pieces : List (List ℕ)) (w : World)
      → flatten pieces ≡ frames ms
      → All (λ (_, payload). length payload < 2 ^ 32) ms
      → ((v : World) (n : ℕ) → calloc_ok v n ≡ true)
      → (p : StreamParser) × (parse_pieces pieces (some init_parser) w
          ≡ done (pos 0, some p, deliver_all on_complete_cb ms w))
        × IsLive p
        × (view p ≡ [])
  parse_pieces-frames ms pieces w cut small memory =
      subst (λ x. Agrees x (parse_pieces pieces (some init_parser) w)) read
        (parse_pieces-Agrees pieces init_parser w init_parser-IsLive)
    where
      read :
          feed calloc_ok on_complete_cb (view init_parser) (flatten pieces) w
          ≡ reading [] (deliver_all on_complete_cb ms w)
      read =
          ap (λ f. feed calloc_ok on_complete_cb f (flatten pieces) w) view-init_parser
          ∙ ap (λ xs. feed calloc_ok on_complete_cb [] xs w) cut
          ∙ feed-frames ms w small memory
