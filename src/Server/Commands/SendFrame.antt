-- ===== src/Server/Commands/SendFrame.antt =====
-- `_internal_send_frame` and the broadcast loop: what reaches the peers.
use mogakso.Common.{
  length, take, drop, length-replicate, take-all, take-append-length, ℤ, pos, eqb_ℤ, Run, done,
  ◌>>=◌, ℕ, ◌+◌, ◌^◌, ◌≤◌, ◌<◌, ◌≡◌, refl, sym, ap, ◌∙◌, ◌⊎◌, inl, inr, false, none, some, List,
  ◌∷◌, ◌++◌, append-nil, arith,
}
use mogakso.Os.{Event, error_stderr, SameOpen, Os, Sane, buffer_size}
use mogakso.Os.Send.{
  SendOutcome, complete, peer_closed, send_failed, stream, reports, Sends, send_loop-Sends,
}
use mogakso.Protocol.Framing.{frame, frame_message_lem, frame_message-refuses, length-frame}
use mogakso.Server.State.{einval}
use mogakso.Server.Commands.{frame_buffer, report_send, send_framed, internal_send_frame}

-- What one send leaves: the peer was given a prefix of the frame, all of it or else an error was
-- reported, and no other descriptor was written to.
pub record Delivers (fd : ℕ) (bytes : List ℕ) (log : List Event) (r : Run (List Event))
    : Type 0 where
  pub log' : List Event
  pub count : ℕ
  pub ends : r ≡ done log'
  pub prefix : stream (pos fd) log' ≡ stream (pos fd) log ++ take count bytes
  pub whole : (take count bytes ≡ bytes) ⊎ (reports log < reports log')
  pub others : (g : ℤ) → eqb_ℤ (pos fd) g ≡ false → stream g log' ≡ stream g log
  pub grows : reports log ≤ reports log'
  pub same_open : SameOpen log log'

reported :
    (fd : ℕ) (bytes : List ℕ) (log : List Event) (o : SendOutcome) (log1 : List Event) (k : ℕ)
    → stream (pos fd) log1 ≡ stream (pos fd) log ++ take k bytes
    → (o ≡ complete → k ≡ length bytes)
    → ((g : ℤ) → eqb_ℤ (pos fd) g ≡ false → stream g log1 ≡ stream g log)
    → reports log1 ≡ reports log
    → SameOpen log log1
    → Delivers fd bytes log (done (report_send o log1))
unfolding report_send
reported fd bytes log complete log1 k p all others q same = record {
  same_open = same;
  grows = omega arith;
  log' = log1;
  count = k;
  ends = refl;
  prefix = p;
  whole = inl (take-all k bytes (omega (arith, all refl)));
  others = others;
}
reported fd bytes log peer_closed log1 k p all others q same = record {
  same_open = same;
  grows = omega arith;
  log' = error_stderr 0 ∷ log1;
  count = k;
  ends = refl;
  prefix = append-nil (stream (pos fd) log1) ∙ p;
  whole = inr (omega arith);
  others = λ g ne. append-nil (stream g log1) ∙ others g ne;
}
reported fd bytes log (send_failed code) log1 k p all others q same = record {
  same_open = same;
  grows = omega arith;
  log' = error_stderr code ∷ log1;
  count = k;
  ends = refl;
  prefix = append-nil (stream (pos fd) log1) ∙ p;
  whole = inr (omega arith);
  others = λ g ne. append-nil (stream g log1) ∙ others g ne;
}

buffer-size : length frame_buffer ≡ 4096
unfolding frame_buffer
buffer-size = length-replicate {A = ℕ} buffer_size 0

-- The bytes that are sent are the frame.
pub front_framed :
    (type : ℕ) (payload rest : List ℕ)
    → take (5 + length payload) (frame type payload ++ rest) ≡ frame type payload
front_framed type payload rest =
    ap (λ n. take n (frame type payload ++ rest)) (sym (length-frame type payload))
    ∙ take-append-length (frame type payload) rest

delivered :
    (fd : ℕ) (bytes : List ℕ) (log : List Event) (r : Run (SendOutcome × List Event))
    → Sends (pos fd) bytes log r
    → Delivers fd bytes log (r >>= λ (o, log1). done (report_send o log1))
delivered fd bytes log r s = rw s.ends (
    reported fd bytes log s.outcome s.log' s.count s.prefix (s.all_sent.0) s.others s.quiet
      s.same_open)

-- For a payload of at most 4091 bytes, `_internal_send_frame` ends without a fault, gives the peer a
-- prefix of the message's frame, all of it unless it reports an error, and writes to nobody else.
pub internal_send_frame-Delivers :
    (os : Os) (fd type : ℕ) (payload : List ℕ) (log : List Event)
    → Sane os
    → length payload ≤ 4091
    → Delivers fd
        (frame type payload)
        log
        (internal_send_frame os (pos fd) type (some payload) (length payload) log)
unfolding internal_send_frame send_framed
internal_send_frame-Delivers os fd type payload log sane small =
    rw
      (
        frame_message_lem type payload frame_buffer 4096 (omega arith) (omega (arith, buffer-size))
            (omega arith),
        front_framed type payload (drop (5 + length payload) frame_buffer),
      )
      (delivered fd (frame type payload) log _
        (send_loop-Sends os _ (pos fd) (frame type payload) log sane (omega arith)))

-- A payload that does not fit the local buffer of 4096 bytes with its header, or a NULL payload, is
-- never sent: an error is reported on `stderr`, and nothing is written to any descriptor.
pub internal_send_frame-drops :
    (os : Os) (fd type : ℕ) (payload : List ℕ) (log : List Event)
    → 4091 < length payload
    → length payload < 2 ^ 63
    → (internal_send_frame os (pos fd) type (some payload) (length payload) log
        ≡ done (error_stderr 0 ∷ log))
      × (internal_send_frame os (pos fd) type none 0 log ≡ done (error_stderr einval ∷ log))
unfolding internal_send_frame send_framed
internal_send_frame-drops os fd type payload log large bound = (
  rw (
      (frame_message-refuses type (some payload) (length payload) frame_buffer 4096).1
        (omega arith)),
  refl,
)
