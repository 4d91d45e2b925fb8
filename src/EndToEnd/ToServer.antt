-- ===== src/EndToEnd/ToServer.antt =====
-- From `client_send_payload` to the server's parser.

-- `client_send_payload` for each of some messages, in order.
use mogakso.Os.Send.{stream, reports}
use mogakso.Protocol.Framing.{frame}
use mogakso.Protocol.Parser.RoundTrip.{frames}
use mogakso.Client.Sending.{client_send_payload-Delivers}
use mogakso.Protocol.Parser.{Callback}
use mogakso.Os.{Event, Os, Sane}
use mogakso.Client.{ClientContext, client_send_payload}
use mogakso.EndToEnd.{Network, Arrives, whole-Arrives}
use mogakso.Common.{
  length, All, pos, Run, done, ◌>>=◌, ℕ, ◌^◌, ◌≤◌, ◌<◌, ◌≡◌, refl, sym, ap, ◌∙◌, ◌⊎◌, inl, inr,
  Bool, true, some, List, [], ◌∷◌, ◌++◌, append-nil, append_assoc, arith,
}

unfoldable pub send_all : Os → ClientContext → List (ℕ × List ℕ) → List Event → Run (List Event)
send_all os ctx [] log = done log
send_all os ctx ((type, payload) ∷ ms) log =
    client_send_payload os (some ctx) type (some payload) (length payload) log
    >>= send_all os ctx ms

small_payloads :
    (ms : List (ℕ × List ℕ))
    → All (λ (_, payload). length payload ≤ 4091) ms
    → All (λ (_, payload). length payload < 2 ^ 32) ms
small_payloads [] h = tt
small_payloads ((type, payload) ∷ ms) h = (omega (arith, h.0), small_payloads ms h.1)

module _ (os : Os) (sane : Sane os) (ctx : ClientContext) (fd : ℕ)
    (connected : ctx.socket_fd ≡ pos fd) where
  -- All frames were given to the server, or an error was reported.
  abbrev Sent : List (ℕ × List ℕ) → List Event → List Event → Type 0
  Sent ms log log' =
      (reports log ≤ reports log')
      × ((stream (pos fd) log' ≡ stream (pos fd) log ++ frames ms) ⊎ (reports log < reports log'))

  send_all-Sent :
      (ms : List (ℕ × List ℕ)) (log : List Event)
      → All (λ (_, payload). length payload ≤ 4091) ms
      → (log' : List Event) × (send_all os ctx ms log ≡ done log') × Sent ms log log'
  unfolding send_all frames
  send_all-Sent [] log h = (log, refl, (omega arith, inl (sym (append-nil (stream (pos fd) log)))))
  send_all-Sent ((type, payload) ∷ ms) log h =
      let d = client_send_payload-Delivers os sane ctx fd connected type payload log h.0 in
      let (log', ends, (le, given)) = send_all-Sent ms d.log' h.1 in
      (
        log',
        rw d.ends ends,
        (
          omega (arith, le, d.grows),
          elim given [
            | inr more ↦ inr (omega (arith, more, d.grows))
            | inl rest ↦ elim d.whole [
              | inr report ↦ inr (omega (arith, report, le))
              | inl all ↦ inl (
                  rest
                  ∙ ap (λ xs. xs ++ frames ms) (d.prefix ∙ ap (λ xs. stream (pos fd) log ++ xs) all)
                  ∙ append_assoc (stream (pos fd) log) (frame type payload) (frames ms))
            ]
          ],
        ),
      )

  -- On a connection that has carried nothing yet, sending messages with payloads of at most 4091
  -- bytes ends without a fault; and either an error is reported, or, however the network cuts the
  -- bytes, the server's parser, if it is given memory, calls back once for each message, in order,
  -- with the low byte of its type and its payload, and is left with no open frame.
  pub send_all-Arrives :
      {World : Type 0} (net : Network) (calloc_ok : World → ℕ → Bool) (cb : Callback World)
      (ms : List (ℕ × List ℕ)) (w : World) (log : List Event)
      → stream (pos fd) log ≡ []
      → All (λ (_, payload). length payload ≤ 4091) ms
      → ((v : World) (n : ℕ) → calloc_ok v n ≡ true)
      → (log' : List Event) × (send_all os ctx ms log ≡ done log')
        × Arrives net calloc_ok cb fd ms w log log'
  send_all-Arrives net calloc_ok cb ms w log empty small memory =
      let (log', ends, (le, given)) = send_all-Sent ms log small in
      (
        log',
        ends,
        elim given [
          | inr report ↦ inl report
          | inl all ↦
              whole-Arrives net calloc_ok cb fd ms w log log'
                (all ∙ ap (λ xs. xs ++ frames ms) empty) (small_payloads ms small) memory
        ],
      )
