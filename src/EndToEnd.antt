-- ===== src/EndToEnd.antt =====
-- A message from one side's API to the other side's callback: chat_client.c, chat_server.c and
-- protocol.c together. The network between them may cut a stream of bytes anywhere.
use mogakso.Protocol.Framing.{frame}
use mogakso.Os.Send.{stream, reports}
use mogakso.Protocol.Parser.Live.{view}
use mogakso.Protocol.Parser.RoundTrip.{
  flatten, frames, deliver_all, parse_pieces, parse_pieces-frames,
}
use mogakso.Protocol.Parser.{StreamParser, init_parser, Callback}
use mogakso.Os.{Event}
use mogakso.Common.{
  length, All, pos, done, ℕ, ◌^◌, ◌<◌, ◌≡◌, sym, ap, ◌∙◌, ◌⊎◌, inr, Bool, true, some, List, [], ◌∷◌,
  ◌++◌, append-nil, append_assoc,
}
pub mod ToServer
pub mod ToClient
pub mod Broadcasting

-- How the calls of `recv` cut a stream of bytes: TCP keeps the bytes and their order, and nothing
-- else.
pub record Network : Type 0 where
  pub cut : List ℕ → List (List ℕ)
  pub keeps : (bytes : List ℕ) → flatten (cut bytes) ≡ bytes

-- Either an error was reported, or the other side, with a fresh parser, gets these messages.
abbrev pub Arrives :
    {World : Type 0}
    → Network
    → (World → ℕ → Bool)
    → Callback World
    → (fd : ℕ) → List (ℕ × List ℕ)
    → World
    → (log log' : List Event) → Type 0
Arrives net calloc_ok cb fd ms w log log' =
    (reports log < reports log')
    ⊎ ((p : StreamParser) × (parse_pieces calloc_ok cb (net.cut (stream (pos fd) log'))
            (some init_parser) w
          ≡ done (pos 0, some p, deliver_all cb ms w))
        × (view p ≡ []))

pub whole-Arrives :
    {World : Type 0} (net : Network) (calloc_ok : World → ℕ → Bool) (cb : Callback World) (fd : ℕ)
    (ms : List (ℕ × List ℕ)) (w : World) (log log' : List Event)
    → stream (pos fd) log' ≡ frames ms
    → All (λ (_, payload). length payload < 2 ^ 32) ms
    → ((v : World) (n : ℕ) → calloc_ok v n ≡ true)
    → Arrives net calloc_ok cb fd ms w log log'
whole-Arrives net calloc_ok cb fd ms w log log' all small memory =
    let (p, ran, live, none_open) =
      parse_pieces-frames calloc_ok cb ms (net.cut (stream (pos fd) log')) w
        (net.keeps (stream (pos fd) log') ∙ all) small memory in
    inr (p, ran, none_open)

pub frames-snoc :
    (ms : List (ℕ × List ℕ)) (type : ℕ) (payload : List ℕ)
    → frames (ms ++ (type, payload) ∷ []) ≡ frames ms ++ frame type payload
unfolding frames
frames-snoc [] type payload = append-nil (frame type payload)
frames-snoc ((t, p) ∷ ms) type payload =
    ap (λ xs. frame t p ++ xs) (frames-snoc ms type payload)
    ∙ sym (append_assoc (frame t p) (frames ms) (frame type payload))

-- A message whose length fits the header.
abbrev pub IsSmall : ℕ × List ℕ → Type 0
IsSmall (_, payload) = length payload < 2 ^ 32
