-- ===== src/Protocol/Parser/PayloadRound.antt =====
-- A round of the loop that reads payload bytes.
use mogakso.Protocol.Parser.Pieces.{
  announced-append, feed-append, feed-payload_open, feed-payload_full, piece_cases, split_input,
  at_end-header,
}
use mogakso.Protocol.Parser.HeaderRound.{Progress, goes}
use mogakso.Common.{
  eq→==, ne→==_false, length, get_or, take, drop, length-append, length-take, take-all, drop-all,
  take-append-length, drop-append-length, Copied, memcpy-Copied, ℕ, ◌+◌, ◌^◌, ◌≤◌, ◌<◌, ◌≡◌, refl,
  sym, ap, ◌∙◌, inl, inr, Bool, some, List, [], ◌∷◌, ◌++◌, append_assoc, arith,
}
use mogakso.Protocol.Wire.{ntohl_bytes-lt}
use mogakso.Protocol.Parser.{
  want_payload, StreamParser, reset_parser, Callback, payload_copy, payload_piece, payload_round,
}
use mogakso.Protocol.Parser.Reader.{reading, announced, continue, at_end, feed}
use mogakso.Protocol.Parser.Live.{
  LiveIn, bytes_of, view_in, reset_parser-IsLive, view-reset_parser, IsLive-in, view-in,
}

pub announced-lt : (f : List ℕ) → announced f < 2 ^ 32
unfolding announced
announced-lt f = ntohl_bytes-lt (drop 1 f)

module _ {World : Type 0} (calloc_ok : World → ℕ → Bool) (on_complete_cb : Callback World) where
  -- A parser in the payload; `f` is its open frame, and `b ∷ bs` the piece that is copied.
  module _ (p : StreamParser) (f buffer : List ℕ) (b : ℕ) (bs : List ℕ) (w : World)
      (s : p.parser_state ≡ want_payload) (size : length p.header_buffer ≡ 5)
      (type : p.pending_msg_type ≡ get_or p.header_buffer 0 0)
      (len : p.pending_msg_len ≡ announced p.header_buffer) (given : p.payload_buffer ≡ some buffer)
      (long : length buffer ≡ p.pending_msg_len)
      (seen : f ≡ p.header_buffer ++ take p.payload_bytes_received buffer)
      (c : Copied buffer p.payload_bytes_received (b ∷ bs)) where
    p' : StreamParser
    p' = record p {
      payload_buffer = some c.result;
      payload_bytes_received = p.payload_bytes_received + length (b ∷ bs);
    }

    length-seen :
        p.payload_bytes_received ≤ p.pending_msg_len → length f ≡ 5 + p.payload_bytes_received
    length-seen h = rw seen (
        omega (
          arith,
          length-append p.header_buffer (take p.payload_bytes_received buffer),
          length-take p.payload_bytes_received buffer,
        ))

    announced-seen : announced f ≡ p.pending_msg_len
    announced-seen =
        ap announced seen
        ∙ announced-append p.header_buffer (take p.payload_bytes_received buffer) (omega arith)
        ∙ sym len

    seen_after :
        f ++ b ∷ bs ≡ p.header_buffer ++ take (p.payload_bytes_received + length (b ∷ bs)) c.result
    seen_after =
        ap (λ v. v ++ b ∷ bs) seen
        ∙ append_assoc p.header_buffer (take p.payload_bytes_received buffer) (b ∷ bs)
        ∙ ap (◌++◌ p.header_buffer) (sym c.front)

    -- A piece that leaves the payload open.
    pub payload_piece-open :
        p.payload_bytes_received + length (b ∷ bs) < p.pending_msg_len
        → Progress calloc_ok on_complete_cb f
            (b ∷ bs)
            w
            (payload_piece calloc_ok on_complete_cb p (length (b ∷ bs)) (b ∷ bs) w)
    unfolding payload_piece payload_copy feed p'
    payload_piece-open h =
        rw
          (
            given,
            payload_copy,
            take-all (length (b ∷ bs)) (b ∷ bs) (omega arith),
            c.copies,
            ne→==_false (p.payload_bytes_received + length (b ∷ bs)) p.pending_msg_len
                (omega arith),
            payload_piece,
            drop-all (length (b ∷ bs)) (b ∷ bs) (omega arith),
          )
          (goes p' [] w (IsLive-in p' s (size, type, len, h, c.result, refl, c.same_length ∙ long))
            (omega arith)
            (feed-payload_open calloc_ok on_complete_cb f (b ∷ bs) w
                (omega (arith, length-seen (omega arith)))
                (omega (arith, length-seen (omega arith), announced-seen))
              ∙ ap (λ g. reading g w) (seen_after ∙ sym (view-in p' s))))

    -- A piece that completes the payload, with `rest` behind it.
    pub payload_piece-full :
        (rest : List ℕ)
        → p.payload_bytes_received + length (b ∷ bs) ≡ p.pending_msg_len
        → Progress calloc_ok on_complete_cb f
            (b ∷ bs ++ rest)
            w
            (payload_piece calloc_ok on_complete_cb p (length (b ∷ bs)) (b ∷ bs ++ rest) w)
    unfolding payload_piece payload_copy p'
    payload_piece-full rest h =
        rw
          (
            given,
            payload_copy,
            take-append-length (b ∷ bs) rest,
            c.copies,
            eq→== (p.payload_bytes_received + length (b ∷ bs)) p.pending_msg_len h,
            payload_piece,
            drop-append-length (b ∷ bs) rest,
          )
          (goes (reset_parser p') rest _ (reset_parser-IsLive p' size)
            (omega (arith, length-append (b ∷ bs) rest))
            (feed-append calloc_ok on_complete_cb f (b ∷ bs) rest w
              ∙ ap (λ x. continue x (λ f' w'. feed calloc_ok on_complete_cb f' rest w')) delivered
              ∙ ap (λ g. feed calloc_ok on_complete_cb g rest world') (sym (view-reset_parser p'))))
      where
        world' : World
        world' = on_complete_cb p.pending_msg_type (some c.result) p.pending_msg_len w

        whole : f ++ b ∷ bs ≡ p.header_buffer ++ c.result
        whole =
            seen_after
            ∙ ap (◌++◌ p.header_buffer) (take-all _ c.result (omega (arith, c.same_length)))

        delivered : feed calloc_ok on_complete_cb f (b ∷ bs) w ≡ reading [] world'
        delivered =
            feed-payload_full calloc_ok on_complete_cb f b bs w
              (omega (arith, length-seen (omega arith)))
              (omega (arith, length-seen (omega arith), announced-seen))
            ∙ ap (λ g. at_end calloc_ok on_complete_cb g w) whole
            ∙ at_end-header calloc_ok on_complete_cb p.header_buffer c.result w size
            ∙ rw (type, len)

  -- A round in the payload, with at least one byte to read.
  pub payload_round-Progress :
      (p : StreamParser) (b : ℕ) (bs : List ℕ) (w : World)
      → p.parser_state ≡ want_payload
      → LiveIn want_payload p
      → Progress calloc_ok on_complete_cb
          (view_in want_payload p)
          (b ∷ bs)
          w
          (payload_round calloc_ok on_complete_cb p (b ∷ bs) w)
  unfolding payload_round
  payload_round-Progress p b bs w s (size, type, len, more, buffer, given, long) =
      elim (piece_cases p.payload_bytes_received p.pending_msg_len (length (b ∷ bs)) more
        (omega (arith, announced-lt p.header_buffer))) [
          | inl (e, h) ↦ rw e (
              payload_piece-open p _ buffer b bs w s size type len given long seen
                (memcpy-Copied buffer p.payload_bytes_received (b ∷ bs) (omega arith)) h)
          | inr (k, e, h, enough) ↦
              let (b', bs', rest, split, count) = split_input k (b ∷ bs) enough in
              rw (e, ← count, split)
                (payload_piece-full p _ buffer b' bs' w s size type len given long seen
                  (memcpy-Copied buffer p.payload_bytes_received (b' ∷ bs') (omega arith)) rest
                  (omega arith))
        ]
    where
      seen : view_in want_payload p ≡ p.header_buffer ++ take p.payload_bytes_received buffer
      seen = ap (λ o. p.header_buffer ++ take p.payload_bytes_received (bytes_of o)) given
