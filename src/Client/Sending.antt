-- ===== src/Client/Sending.antt =====
-- `client_send_payload` and `client_send_file`: what reaches the server.
use mogakso.Server.Commands.SendFrame.{Delivers, front_framed}
use mogakso.Client.{
  ClientContext, client_handle_error, client_frame_buffer, client_report, client_send_framed,
  client_send_payload, send_chunks, header_array,
}
use mogakso.Common.{
  length, take, drop, replicate, length-append, length-take, length-drop, length-replicate,
  take-all, take-append-length, ℤ, pos, eqb_ℤ, Run, done, ◌>>=◌, ℕ, zero, suc, ◌+◌, ◌-◌, ◌*◌, ◌≤◌,
  ◌<◌, ◌≡◌, refl, ap, ◌∙◌, inl, inr, false, none, some, List, [], ◌∷◌, ◌++◌, append-nil, arith,
}
use mogakso.Os.{Event, error_callback, SameOpen, Os, Sane, buffer_size}
use mogakso.Os.Send.{
  SendOutcome, complete, peer_closed, send_failed, stream, reports, Sends, send_loop-Sends,
}
use mogakso.Protocol.Wire.{file_chunk, code}
use mogakso.Protocol.Framing.{
  frame_message, frame, frame_message_lem, frame_message-refuses, frame_message-take,
}

client_reported :
    (ctx : ClientContext) (fd : ℕ) (bytes : List ℕ) (log : List Event) (o : SendOutcome)
    (log1 : List Event) (k : ℕ)
    → stream (pos fd) log1 ≡ stream (pos fd) log ++ take k bytes
    → (o ≡ complete → k ≡ length bytes)
    → ((g : ℤ) → eqb_ℤ (pos fd) g ≡ false → stream g log1 ≡ stream g log)
    → reports log1 ≡ reports log
    → SameOpen log log1
    → Delivers fd bytes log (done (client_report ctx o log1))
unfolding client_report
client_reported ctx fd bytes log complete log1 k p all others q same = record {
  same_open = same;
  grows = omega arith;
  log' = log1;
  count = k;
  ends = refl;
  prefix = p;
  whole = inl (take-all k bytes (omega (arith, all refl)));
  others = others;
}
client_reported ctx fd bytes log peer_closed log1 k p all others q same = record {
  same_open = same;
  grows = omega arith;
  log' = error_callback 0 ∷ error_callback 0 ∷ log1;
  count = k;
  ends = refl;
  prefix = append-nil (stream (pos fd) log1 ++ []) ∙ append-nil (stream (pos fd) log1) ∙ p;
  whole = inr (omega arith);
  others = λ g ne. append-nil (stream g log1 ++ []) ∙ append-nil (stream g log1) ∙ others g ne;
}
client_reported ctx fd bytes log (send_failed err) log1 k p all others q same = record {
  same_open = same;
  grows = omega arith;
  log' = error_callback 0 ∷ error_callback err ∷ log1;
  count = k;
  ends = refl;
  prefix = append-nil (stream (pos fd) log1 ++ []) ∙ append-nil (stream (pos fd) log1) ∙ p;
  whole = inr (omega arith);
  others = λ g ne. append-nil (stream g log1 ++ []) ∙ append-nil (stream g log1) ∙ others g ne;
}

client_delivered :
    (ctx : ClientContext) (fd : ℕ) (bytes : List ℕ) (log : List Event)
    (r : Run (SendOutcome × List Event))
    → Sends (pos fd) bytes log r
    → Delivers fd bytes log (r >>= λ (o, log1). done (client_report ctx o log1))
client_delivered ctx fd bytes log r s = rw s.ends (
    client_reported ctx fd bytes log s.outcome s.log' s.count s.prefix (s.all_sent.0) s.others
      s.quiet s.same_open)

pub report_shift :
    (k : ℕ) (e : Event) (log : List Event) → replicate k e ++ e ∷ log ≡ e ∷ replicate k e ++ log
report_shift zero e log = refl
report_shift (suc k) e log = ap (◌∷◌ e) (report_shift k e log)

pub client-buffer_size : length client_frame_buffer ≡ 4096
unfolding client_frame_buffer
client-buffer_size = length-replicate {A = ℕ} buffer_size 0

-- Only the first `n` bytes of the payload count.
client_send_payload-take :
    (os : Os) (ctx : ClientContext) (type : ℕ) (payload : List ℕ) (n : ℕ) (log : List Event)
    → n ≤ length payload
    → client_send_payload os (some ctx) type (some payload) n log
      ≡ client_send_payload os (some ctx) type (some (take n payload)) n log
unfolding client_send_payload
client_send_payload-take os ctx type payload n log held =
    ap (λ r. r >>= λ (frame_len, buffer). client_send_framed os ctx frame_len buffer log)
      (frame_message-take type payload client_frame_buffer n 4096 held)

pub length-header_array : (text : List ℕ) → length (header_array text) ≡ 256
unfolding header_array
length-header_array text =
    let front = take 255 text in
    omega (
      arith,
      length-append front (replicate (256 - length front) 0),
      length-take 255 text,
      length-replicate {A = ℕ} (256 - length front) 0,
    )

-- A text that fits the array `header` with its NUL is what is sent of it.
pub send-header_array :
    (os : Os) (ctx : ClientContext) (type : ℕ) (text : List ℕ) (log : List Event)
    → length text < 256
    → client_send_payload os (some ctx) type (some (header_array text)) (length text) log
      ≡ client_send_payload os (some ctx) type (some text) (length text) log
unfolding header_array
send-header_array os ctx type text log short =
    let rest = replicate {A = ℕ} (256 - length (take 255 text)) 0 in
    let whole = take-all 255 text (omega arith) in
    client_send_payload-take os ctx type (take 255 text ++ rest) (length text) log
      (omega (arith, length-append (take 255 text) rest, ap (λ (xs : List ℕ). length xs) whole))
    ∙ ap (λ xs. client_send_payload os (some ctx) type (some xs) (length text) log)
        (ap (λ xs. take (length text) (xs ++ rest)) whole ∙ take-append-length text rest)

module _ (os : Os) (sane : Sane os) (ctx : ClientContext) (fd : ℕ)
    (connected : ctx.socket_fd ≡ pos fd) where
  -- For a payload of at most 4091 bytes, `client_send_payload` ends without a fault, gives the server
  -- a prefix of the message's frame, all of it unless it reports an error, and writes nowhere else.
  pub client_send_payload-Delivers :
      (type : ℕ) (payload : List ℕ) (log : List Event)
      → length payload ≤ 4091
      → Delivers fd
          (frame type payload)
          log
          (client_send_payload os (some ctx) type (some payload) (length payload) log)
  unfolding client_send_payload client_send_framed client_report
  client_send_payload-Delivers type payload log small =
      rw
        (
          frame_message_lem type payload client_frame_buffer 4096 (omega arith)
              (omega (arith, client-buffer_size)) (omega arith),
          front_framed type payload (drop (5 + length payload) client_frame_buffer),
          connected,
        )
        (client_delivered ctx fd (frame type payload) log _
          (send_loop-Sends os _ (pos fd) (frame type payload) log sane (omega arith)))

  -- The end of a file has no payload.
  pub null-payload :
      (type : ℕ) (log : List Event)
      → client_send_payload os (some ctx) type none 0 log
        ≡ client_send_payload os (some ctx) type (some []) 0 log
  unfolding client_send_payload frame_message
  null-payload type log = refl

  -- A chunk of more than 4091 bytes does not fit the frame buffer.
  pub full_chunk :
      (payload : List ℕ) (log : List Event)
      → 4091 < length payload
      → length payload ≤ 4096
      → client_send_payload os (some ctx) (code file_chunk) (some payload) (length payload) log
        ≡ done (error_callback 0 ∷ log)
  unfolding client_send_payload client_send_framed client_handle_error
  full_chunk payload log long size = rw (
      (frame_message-refuses 11 (some payload) (length payload) client_frame_buffer 4096).1
        (omega arith))

  -- Of a file whose size is a multiple of 4096 bytes, `client_send_file` sends nothing but the
  -- announcement and the end: each chunk is dropped with an error report, and nothing is written.
  pub send_chunks-drops :
      (k fuel : ℕ) (content : List ℕ) (log : List Event)
      → length content ≡ 4096 * k
      → length content ≤ fuel
      → send_chunks os (some ctx) fuel content log ≡ done (replicate k (error_callback 0) ++ log)
  unfolding send_chunks
  send_chunks-drops zero fuel [] log size enough = refl
  send_chunks-drops (suc k) fuel [] log size enough = absurd (omega arith)
  send_chunks-drops k zero (b ∷ bs) log size enough = absurd (omega arith)
  send_chunks-drops zero (suc fuel) (b ∷ bs) log size enough = absurd (omega arith)
  send_chunks-drops (suc k) (suc fuel) (b ∷ bs) log size enough =
      let rest = length-drop 4096 (b ∷ bs) in
      rw
        (full_chunk (take 4096 (b ∷ bs)) log (omega (arith, length-take 4096 (b ∷ bs)))
          (omega (arith, length-take 4096 (b ∷ bs))))
        (send_chunks-drops k fuel (drop 4096 (b ∷ bs)) (error_callback 0 ∷ log) (omega arith)
            (omega arith)
          ∙ ap done (report_shift k (error_callback 0) log))
