-- ===== src/Client/Chunks.antt =====
-- `client_send_file` for a file of any size: chunk by chunk, what is sent and what is dropped.
use mogakso.Client.File.{stream-errors, one_chunk}
use mogakso.Client.Sending.{
  report_shift, send-header_array, client_send_payload-Delivers, null-payload, full_chunk,
}
use mogakso.Os.{Event, error_callback, Os, Sane}
use mogakso.Client.{ClientContext, send_chunks, announcement, client_send_file}
use mogakso.Common.{
  leb, if◌then◌else◌, Bool-cases, length, take, drop, replicate, length-take, length-drop,
  drop-drop, pos, done, ℕ, zero, suc, ◌+◌, ◌*◌, ◌/◌, ◌≤◌, ◌<◌, ◌≡◌, refl, sym, ap, ◌∙◌, subst, ◌⊎◌,
  inl, inr, some, List, [], ◌∷◌, ◌++◌, append-nil, arith,
}
use mogakso.Os.Send.{stream, reports}
use mogakso.Protocol.Framing.{frame}

-- What is left of a file behind its chunks of 4096 bytes, which ends in the last, shorter chunk.
abbrev pub last_chunk : List ℕ → List ℕ
last_chunk content = drop (4096 * (length content / 4096)) content

-- The frame of a last chunk: none of an empty one, or of one that does not fit the frame buffer.
abbrev pub chunk_frame : List ℕ → List ℕ
chunk_frame [] = []
chunk_frame (b ∷ bs) = if leb (length (b ∷ bs)) 4091 then frame 11 (b ∷ bs) else []

-- How many errors it costs.
abbrev pub chunk_errors : List ℕ → ℕ
chunk_errors [] = 0
chunk_errors (b ∷ bs) = if leb (length (b ∷ bs)) 4091 then 0 else 1

module _ (os : Os) (sane : Sane os) (ctx : ClientContext) (fd : ℕ)
    (connected : ctx.socket_fd ≡ pos fd) where
  -- The first chunks of 4096 bytes are dropped, each with an error.
  send_chunks-skips :
      (k fuel : ℕ) (content : List ℕ) (log : List Event)
      → 4096 * k ≤ length content
      → length content ≤ fuel
      → (fuel' : ℕ) × (length (drop (4096 * k) content) ≤ fuel')
        × (send_chunks os (some ctx) fuel content log
            ≡ send_chunks os
                (some ctx)
                fuel'
                (drop (4096 * k) content)
                (replicate k (error_callback 0) ++ log))
  unfolding send_chunks
  send_chunks-skips zero fuel content log some_left enough = (fuel, enough, refl)
  send_chunks-skips (suc k) fuel [] log some_left enough = absurd (omega arith)
  send_chunks-skips (suc k) zero (b ∷ bs) log some_left enough = absurd (omega arith)
  send_chunks-skips (suc k) (suc fuel) (b ∷ bs) log some_left enough =
      let rest = length-drop 4096 (b ∷ bs) in
      let size = length-take 4096 (b ∷ bs) in
      let (fuel', enough', same) =
        send_chunks-skips k fuel (drop 4096 (b ∷ bs)) (error_callback 0 ∷ log) (omega arith)
          (omega arith) in
      let cut : drop (4096 * k) (drop 4096 (b ∷ bs)) ≡ drop (4096 * suc k) (b ∷ bs) =
        drop-drop 4096 (4096 * k) (b ∷ bs) ∙ ap (λ n. drop n (b ∷ bs)) (omega arith) in
      (
        fuel',
        subst (λ r. length r ≤ fuel') cut enough',
        rw
            (full_chunk os sane ctx fd connected (take 4096 (b ∷ bs)) log (omega arith)
              (omega arith))
            (same
              ∙ ap
                  (λ r.
                    send_chunks os (some ctx) fuel' r
                      (replicate k (error_callback 0) ++ error_callback 0 ∷ log))
                  cut
              ∙ ap (λ l. send_chunks os (some ctx) fuel' (drop (4096 * suc k) (b ∷ bs)) l)
                  (report_shift k (error_callback 0) log)),
      )

  -- All of some bytes was sent, at the cost of some errors, or there was one error more.
  abbrev SendsWith : ℕ → List ℕ → List Event → List Event → Type 0
  SendsWith errors bytes before after =
      (reports before + errors ≤ reports after)
      × ((stream (pos fd) after ≡ stream (pos fd) before ++ bytes)
          ⊎ (reports before + errors < reports after))

  -- The last chunk.
  send_chunks-last :
      (fuel : ℕ) (content : List ℕ) (log : List Event)
      → length content < 4096
      → length content ≤ fuel
      → (log' : List Event) × (send_chunks os (some ctx) fuel content log ≡ done log')
        × SendsWith (chunk_errors content) (chunk_frame content) log log'
  unfolding send_chunks
  send_chunks-last fuel [] log short enough =
      (log, refl, (omega arith, inl (sym (append-nil (stream (pos fd) log)))))
  send_chunks-last zero (b ∷ bs) log short enough = absurd (omega arith)
  send_chunks-last (suc fuel) (b ∷ bs) log short enough =
      elim (Bool-cases (leb (length (b ∷ bs)) 4091)) [
        | inl fits ↦
            let d =
              client_send_payload-Delivers os sane ctx fd connected 11 (b ∷ bs) log
                (ground arith) in
            (
              d.log',
              one_chunk os ctx (suc fuel) (b ∷ bs) log d.log' (omega arith) enough (omega arith)
                  d.ends,
              rw fits (
                omega (arith, d.grows),
                elim d.whole [
                  | inl all ↦ inl (d.prefix ∙ ap (λ xs. stream (pos fd) log ++ xs) all)
                  | inr more ↦ inr (omega (arith, more))
                ],
              ),
            )
        | inr long ↦ (
          error_callback 0 ∷ log,
          one_chunk os ctx (suc fuel) (b ∷ bs) log _ (omega arith) enough (omega arith)
              (full_chunk os sane ctx fd connected (b ∷ bs) log (ground arith) (omega arith)),
          rw long (omega arith, inl refl),
        )
      ]

  module _ (path content : List ℕ) (short : length (announcement path (length content)) < 256) where
    abbrev text : List ℕ
    text = announcement path (length content)

    -- With an announcement that fits its array of 256 bytes, `client_send_file` ends without a fault
    -- and returns 0 for a file of any size. Each whole chunk of 4096 bytes, and a last chunk of more
    -- than 4091 bytes, is dropped and costs an error. Either there is a further error, or the server
    -- has been given, in order, the frame of the announcement, that of the last chunk, if it has 1 to
    -- 4091 bytes, and that of the end, and nothing else.
    pub client_send_file-sends :
        (log : List Event)
        → let errors = length content / 4096 + chunk_errors (last_chunk content) in
          (log' : List Event) × (client_send_file os (some ctx) path (some content) log
            ≡ done (pos 0, log'))
          × (reports log + errors ≤ reports log')
          × ((stream (pos fd) log'
                ≡ ((stream (pos fd) log ++ frame 10 (announcement path (length content)))
                    ++ chunk_frame (last_chunk content))
                  ++ frame 12 [])
              ⊎ (reports log + errors < reports log'))
    unfolding client_send_file
    client_send_file-sends log =
        let k = length content / 4096 in
        let d1 = client_send_payload-Delivers os sane ctx fd connected 10 text log (omega arith) in
        let (fuel', enough, skips) =
          send_chunks-skips k (length content) content d1.log' (omega arith) (omega arith) in
        let log1 : List Event = replicate k (error_callback 0) ++ d1.log' in
        let size = length-drop (4096 * k) content in
        let (log2, ends, (cost, given)) =
          send_chunks-last fuel' (last_chunk content) log1 (omega arith) enough in
        let d3 = client_send_payload-Delivers os sane ctx fd connected 12 [] log2 (omega arith) in
        let (quiet_errors, counted) = stream-errors (pos fd) k d1.log' in
        (
          d3.log',
          rw (
            send-header_array os ctx 10 text log short,
            d1.ends,
            skips,
            ends,
            null-payload os sane ctx fd connected 12 log2,
            d3.ends,
          ),
          omega (arith, d1.grows, cost, d3.grows, counted),
          elim given [
            | inr more ↦ inr (omega (arith, d1.grows, d3.grows, counted, more))
            | inl chunk ↦ elim d1.whole [
              | inr more ↦ inr (omega (arith, more, cost, d3.grows, counted))
              | inl header ↦ elim d3.whole [
                | inr more ↦ inr (omega (arith, d1.grows, cost, counted, more))
                | inl end ↦ inl (d3.prefix ∙ rw (end, chunk, quiet_errors, d1.prefix, header))
              ]
            ]
          ],
        )
