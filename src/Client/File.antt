-- ===== src/Client/File.antt =====
-- `client_send_file`: what reaches the server of a file.
use mogakso.Client.Sending.{
  client-buffer_size, length-header_array, send-header_array, client_send_payload-Delivers,
  null-payload, send_chunks-drops,
}
use mogakso.Server.Commands.SendFrame.{Delivers}
use mogakso.Os.{Event, error_callback, Os, Sane}
use mogakso.Client.{
  ClientContext, client_frame_buffer, client_send_payload, send_chunks, announcement, header_array,
  client_send_file,
}
use mogakso.Common.{
  length, take, drop, replicate, take-all, drop-all, ℤ, pos, Run, done, fault, ◌>>=◌, ℕ, zero, suc,
  ◌+◌, ◌*◌, ◌≤◌, ◌<◌, ◌≡◌, refl, ap, ◌∙◌, ◌⊎◌, inl, inr, some, List, [], ◌∷◌, ◌++◌, append-nil,
  arith,
}
use mogakso.Protocol.Framing.{frame, frame_message-overreads}
use mogakso.Os.Send.{stream, reports}

pub stream-errors :
    (g : ℤ) (k : ℕ) (log : List Event)
    → (stream g (replicate k (error_callback 0) ++ log) ≡ stream g log)
      × (reports (replicate k (error_callback 0) ++ log) ≡ k + reports log)
stream-errors g zero log = (refl, omega arith)
stream-errors g (suc k) log = let (s, r) = stream-errors g k log in (append-nil _ ∙ s, omega arith)

-- All of a frame was sent, or an error was reported.
abbrev pub Whole : ℕ → List ℕ → List Event → List Event → Type 0
Whole n bytes before after = (take n bytes ≡ bytes) ⊎ (reports before < reports after)

module _ (os : Os) (ctx : ClientContext) where
  -- Content of 1 to 4096 bytes is one chunk, whatever the fuel, of which one round is used.
  pub one_chunk :
      (fuel : ℕ) (content : List ℕ) (log log1 : List Event)
      → 0 < length content
      → length content ≤ fuel
      → length content ≤ 4096
      → client_send_payload os (some ctx) 11 (some content) (length content) log ≡ done log1
      → send_chunks os (some ctx) fuel content log ≡ done log1
  unfolding send_chunks
  one_chunk fuel [] log log1 some_bytes enough small ends = absurd (omega arith)
  one_chunk zero (b ∷ bs) log log1 some_bytes enough small ends = absurd (omega arith)
  one_chunk (suc fuel) (b ∷ bs) log log1 some_bytes enough small ends =
      let onward : List Event → Run (List Event) =
        λ l. send_chunks os (some ctx) fuel (drop 4096 (b ∷ bs)) l in
      ap (λ c. client_send_payload os (some ctx) 11 (some c) (length c) log >>= onward)
        (take-all 4096 (b ∷ bs) (omega arith))
      ∙ ap (λ r. r >>= onward) ends
      ∙ ap (λ r. send_chunks os (some ctx) fuel r log1) (drop-all 4096 (b ∷ bs) (omega arith))

module _ (os : Os) (sane : Sane os) (ctx : ClientContext) (fd : ℕ)
    (connected : ctx.socket_fd ≡ pos fd) (path content : List ℕ)
    (short : length (announcement path (length content)) < 256) where
  abbrev text : List ℕ
  text = announcement path (length content)

  -- With an announcement that fits its array of 256 bytes, a file whose size is a multiple of 4096
  -- bytes is not sent: `client_send_file` returns 0, and the server gets prefixes of the
  -- announcement's and of the end's frame and no byte of the
  -- content; for each chunk of 4096 bytes an error is reported.
  pub client_send_file-drops :
      (k : ℕ) (log : List Event)
      → length content ≡ 4096 * k
      → (n : ℕ) × (m : ℕ) × (log' : List Event) × (client_send_file os
            (some ctx)
            path
            (some content)
            log
          ≡ done (pos 0, log'))
        × (stream (pos fd) log'
            ≡ (stream (pos fd) log ++ take n (frame 10 (announcement path (length content))))
              ++ take m (frame 12 []))
        × (reports log + k ≤ reports log')
  unfolding client_send_file
  client_send_file-drops k log size = (
    d1.count,
    d3.count,
    d3.log',
    rw (
      send-header_array os ctx 10 text log short,
      d1.ends,
      send_chunks-drops os sane ctx fd connected k (length content) content d1.log' size
          (omega arith),
      null-payload os sane ctx fd connected 12 log2,
      d3.ends,
    ),
    d3.prefix
        ∙ ap (λ xs. xs ++ take d3.count (frame 12 []))
            ((stream-errors (pos fd) k d1.log').0 ∙ d1.prefix),
    omega (arith, d1.grows, d3.grows, (stream-errors (pos fd) k d1.log').1),
  )
    where
      d1 :
          Delivers fd
            (frame 10 (announcement path (length content)))
            log
            (client_send_payload os (some ctx) 10 (some text) (length text) log)
      d1 = client_send_payload-Delivers os sane ctx fd connected 10 text log (omega arith)

      log2 : List Event
      log2 = replicate k (error_callback 0) ++ d1.log'

      d3 : Delivers fd (frame 12 []) log2 (client_send_payload os (some ctx) 12 (some []) 0 log2)
      d3 = client_send_payload-Delivers os sane ctx fd connected 12 [] log2 (omega arith)

  -- With an announcement that fits its array of 256 bytes, a file of 1 to 4091 bytes arrives whole: when
  -- no error is reported, `client_send_file` returns 0 and has given the server the frames of the
  -- announcement, of one chunk and of the end, in order.
  pub client_send_file-whole :
      (log : List Event)
      → 0 < length content
      → length content ≤ 4091
      → (log' : List Event) × (client_send_file os (some ctx) path (some content) log
          ≡ done (pos 0, log'))
        × ((stream (pos fd) log'
              ≡ ((stream (pos fd) log ++ frame 10 (announcement path (length content)))
                  ++ frame 11 content)
                ++ frame 12 [])
            ⊎ (reports log < reports log'))
  unfolding client_send_file send_chunks
  client_send_file-whole log some_bytes small = (
    d3.log',
    rw (
      send-header_array os ctx 10 text log short,
      d1.ends,
      one_chunk os ctx (length content) content d1.log' d2.log' some_bytes (omega arith)
          (omega (arith, small)) d2.ends,
      null-payload os sane ctx fd connected 12 d2.log',
      d3.ends,
    ),
    arrived d1.whole d2.whole d3.whole,
  )
    where
      d1 :
          Delivers fd
            (frame 10 (announcement path (length content)))
            log
            (client_send_payload os (some ctx) 10 (some text) (length text) log)
      d1 = client_send_payload-Delivers os sane ctx fd connected 10 text log (omega arith)

      d2 :
          Delivers fd
            (frame 11 content)
            d1.log'
            (client_send_payload os (some ctx) 11 (some content) (length content) d1.log')
      d2 = client_send_payload-Delivers os sane ctx fd connected 11 content d1.log' small

      d3 :
          Delivers fd
            (frame 12 [])
            d2.log'
            (client_send_payload os (some ctx) 12 (some []) 0 d2.log')
      d3 = client_send_payload-Delivers os sane ctx fd connected 12 [] d2.log' (omega arith)

      arrived :
          Whole d1.count (frame 10 (announcement path (length content))) log d1.log'
          → Whole d2.count (frame 11 content) d1.log' d2.log'
          → Whole d3.count (frame 12 []) d2.log' d3.log'
          → (stream (pos fd) d3.log'
              ≡ ((stream (pos fd) log ++ frame 10 (announcement path (length content)))
                  ++ frame 11 content)
                ++ frame 12 [])
            ⊎ (reports log < reports d3.log')
      arrived (inl a) (inl b) (inl c) = inl (d3.prefix ∙ rw (c, d2.prefix, b, d1.prefix, a))
      arrived (inr lt) _ _ = inr (omega (arith, d2.grows, d3.grows))
      arrived (inl a) (inr lt) _ = inr (omega (arith, d1.grows, d3.grows))
      arrived (inl a) (inl b) (inr lt) = inr (omega (arith, d1.grows, d2.grows))

-- When the announcement is longer than its array of 256 bytes, and not too long for the frame buffer,
-- `client_send_file` reads beyond the array, whatever the file holds.
pub client_send_file-overreads :
    (os : Os) (ctx : ClientContext) (path content : List ℕ) (log : List Event)
    → 256 < length (announcement path (length content))
    → length (announcement path (length content)) ≤ 4091
    → client_send_file os (some ctx) path (some content) log ≡ fault
unfolding client_send_file client_send_payload
client_send_file-overreads os ctx path content log long fits =
    let text = announcement path (length content) in
    rw
      (frame_message-overreads 10 (header_array text) client_frame_buffer (length text) 4096
        (omega (arith, length-header_array text)) (omega arith) (omega (arith, client-buffer_size))
        (omega arith))
      refl
