-- ===== src/Protocol/Parser/HeaderRound.antt =====
-- One round of the loop against the reader: it goes on with a shorter input in a live parser, or it
-- gives up where the reader does.
use mogakso.Common.{
  ◌==◌, eq→==, ne→==_false, Bool-cases, length, drop, replicate, length-append, length-take,
  length-replicate, take-all, drop-all, take-append-length, drop-append-length, Run, done, Copied,
  memcpy-Copied, ℕ, ◌+◌, ◌<◌, ◌≡◌, refl, sym, ap, ◌∙◌, inl, inr, Bool, none, List, [], ◌∷◌, ◌++◌,
  append-nil, arith,
}
use mogakso.Protocol.Parser.Pieces.{
  feed-append, feed-header_open, feed-header_full, piece_cases, split_input,
}
use mogakso.Protocol.Wire.{ntohl_bytes}
use mogakso.Protocol.Parser.{
  want_header, StreamParser, reset_parser, Round, next, give_up, Callback, header_complete,
  header_piece, header_round,
}
use mogakso.Protocol.Parser.Reader.{
  Fed, reading, refused, announced, continue, at_header, feed, at_header-empty, at_header-given,
  at_header-denied,
}
use mogakso.Protocol.Parser.Live.{LiveIn, IsLive, IsStuck, view_in, view, IsLive-in, view-in}

module _ {World : Type 0} (calloc_ok : World → ℕ → Bool) (on_complete_cb : Callback World) where
  -- What a round did, seen by the reader that still has `rest` to read behind `f`.
  pub data Progress (f rest : List ℕ) (w : World) : Run (Round World) → Type 0 where
    goes :
        (p' : StreamParser) (rest' : List ℕ) (w' : World)
        → IsLive p'
        → length rest' < length rest
        → feed calloc_ok on_complete_cb f rest w ≡ feed calloc_ok on_complete_cb (view p') rest' w'
        → Progress f rest w (done (next p' rest' w'))
    stops :
        (p' : StreamParser) (w' : World)
        → IsStuck p'
        → feed calloc_ok on_complete_cb f rest w ≡ refused w'
        → Progress f rest w (done (give_up p' w'))

  -- A complete header, with `rest` still to read.
  header_complete-Progress :
      (p : StreamParser) (f all rest : List ℕ) (w : World)
      → p.parser_state ≡ want_header
      → length p.header_buffer ≡ 5
      → p.header_bytes_received ≡ 5
      → p.payload_buffer ≡ none
      → length rest < length all
      → feed calloc_ok on_complete_cb f all w
        ≡ continue
            (at_header calloc_ok on_complete_cb p.header_buffer w)
            (λ f' w'. feed calloc_ok on_complete_cb f' rest w')
      → Progress f all w (done (header_complete calloc_ok on_complete_cb p rest w))
  unfolding header_complete announced reset_parser
  header_complete-Progress p f all rest w s l h n shorter e =
      elim (Bool-cases (ntohl_bytes (drop 1 p.header_buffer) == 0)) [
        | inl empty ↦
            rw (empty, header_complete)
              (goes _ rest _ (l, omega arith, refl, refl) shorter
                (e
                  ∙ ap (λ x. continue x after)
                      (at_header-empty calloc_ok on_complete_cb _ w empty)))
        | inr more ↦ elim (Bool-cases (calloc_ok w (ntohl_bytes (drop 1 p.header_buffer)))) [
          | inl given ↦
              rw (more, given, header_complete)
                (goes _ rest w
                  (l, refl, refl, ground arith, replicate _ 0, refl, length-replicate _ 0) shorter
                  (e
                    ∙ ap (λ x. continue x after)
                        (at_header-given calloc_ok on_complete_cb _ w more given)
                    ∙ ap (λ g. feed calloc_ok on_complete_cb g rest w)
                        (sym (append-nil p.header_buffer))))
          | inr denied ↦
              rw (more, denied, header_complete)
                (stops _ w (record { waits = s; full = h; size = l; no_payload = refl })
                  (e
                    ∙ ap (λ x. continue x after)
                        (at_header-denied calloc_ok on_complete_cb _ w more denied)))
        ]
      ]
    where
      after : List ℕ → World → Fed World
      after f' w' = feed calloc_ok on_complete_cb f' rest w'

  -- A piece that leaves the header open.
  header_piece-open :
      (p : StreamParser) (b : ℕ) (bs : List ℕ) (w : World)
      → p.parser_state ≡ want_header
      → LiveIn want_header p
      → p.header_bytes_received + length (b ∷ bs) < 5
      → Copied p.header_buffer p.header_bytes_received (b ∷ bs)
      → Progress
          (view_in want_header p)
          (b ∷ bs)
          w
          (header_piece calloc_ok on_complete_cb p (length (b ∷ bs)) (b ∷ bs) w)
  unfolding header_piece feed
  header_piece-open p b bs w s (size, waits, no_payload, nothing) h c =
      rw
        (
          take-all (length (b ∷ bs)) (b ∷ bs) (omega arith),
          c.copies,
          ne→==_false (p.header_bytes_received + length (b ∷ bs)) 5 (omega arith),
          header_piece,
          drop-all (length (b ∷ bs)) (b ∷ bs) (omega arith),
        )
        (goes p' [] w (IsLive-in p' s (c.same_length ∙ size, h, no_payload, nothing)) (omega arith)
          (feed-header_open calloc_ok on_complete_cb (view_in want_header p) (b ∷ bs) w
              (omega (arith, length-take p.header_bytes_received p.header_buffer))
            ∙ ap (λ f. reading f w) (sym c.front ∙ sym (view-in p' s))))
    where
      p' : StreamParser
      p' = record p {
        header_buffer = c.result;
        header_bytes_received = p.header_bytes_received + length (b ∷ bs);
      }

  -- A piece `b ∷ bs` that completes the header, with `rest` behind it.
  header_piece-full :
      (p : StreamParser) (b : ℕ) (bs rest : List ℕ) (w : World)
      → p.parser_state ≡ want_header
      → LiveIn want_header p
      → p.header_bytes_received + length (b ∷ bs) ≡ 5
      → Copied p.header_buffer p.header_bytes_received (b ∷ bs)
      → Progress
          (view_in want_header p)
          (b ∷ bs ++ rest)
          w
          (header_piece calloc_ok on_complete_cb p (length (b ∷ bs)) (b ∷ bs ++ rest) w)
  unfolding header_piece
  header_piece-full p b bs rest w s (size, waits, no_payload, nothing) h c =
      rw
        (
          take-append-length (b ∷ bs) rest,
          c.copies,
          eq→== (p.header_bytes_received + length (b ∷ bs)) 5 h,
          header_piece,
          drop-append-length (b ∷ bs) rest,
        )
        (header_complete-Progress p' (view_in want_header p) (b ∷ bs ++ rest) rest w s
          (c.same_length ∙ size) h no_payload (omega (arith, length-append (b ∷ bs) rest))
          (feed-append calloc_ok on_complete_cb (view_in want_header p) (b ∷ bs) rest w
            ∙ ap (λ x. continue x after) all_read))
    where
      p' : StreamParser
      p' = record p {
        header_buffer = c.result;
        header_bytes_received = p.header_bytes_received + length (b ∷ bs);
      }

      after : List ℕ → World → Fed World
      after f' w' = feed calloc_ok on_complete_cb f' rest w'

      whole : view_in want_header p ++ b ∷ bs ≡ c.result
      whole = sym c.front ∙ take-all _ c.result (omega (arith, c.same_length))

      all_read :
          feed calloc_ok on_complete_cb (view_in want_header p) (b ∷ bs) w
          ≡ at_header calloc_ok on_complete_cb c.result w
      all_read =
          feed-header_full calloc_ok on_complete_cb (view_in want_header p) b bs w
            (omega (arith, length-take p.header_bytes_received p.header_buffer))
          ∙ ap (λ f. at_header calloc_ok on_complete_cb f w) whole

  -- A round in the header, with at least one byte to read.
  pub header_round-Progress :
      (p : StreamParser) (b : ℕ) (bs : List ℕ) (w : World)
      → p.parser_state ≡ want_header
      → LiveIn want_header p
      → Progress
          (view_in want_header p)
          (b ∷ bs)
          w
          (header_round calloc_ok on_complete_cb p (b ∷ bs) w)
  unfolding header_round
  header_round-Progress p b bs w s live =
      elim (piece_cases p.header_bytes_received 5 (length (b ∷ bs)) live.1 (omega arith)) [
        | inl (e, h) ↦ rw e (
            header_piece-open p b bs w s live h (
              memcpy-Copied p.header_buffer p.header_bytes_received (b ∷ bs)
                (omega (arith, live.0))))
        | inr (k, e, h, enough) ↦
            let (b', bs', rest, split, count) = split_input k (b ∷ bs) enough in
            rw (e, ← count, split)
              (header_piece-full p b' bs' rest w s live (omega arith) (
                memcpy-Copied p.header_buffer p.header_bytes_received (b' ∷ bs')
                  (omega (arith, live.0))))
      ]
