-- ===== src/Client/Chat/Loop.antt =====
-- `client_start_chat`: whole runs of the client's chat loop.
use mogakso.Protocol.Parser.Reader.{Fed, reading, refused}
use mogakso.Client.Chat.Reading.{Reads, chat_recv-Reads}
use mogakso.Protocol.Parser.Live.{IsLive}
use mogakso.Protocol.Parser.{StreamParser}
use mogakso.Os.{Received, got_bytes, end_of_stream, recv_failed, Event, received, Os}
use mogakso.Client.Chat.{
  ChatTurn, chat_poll_failed, chat_polled, Chat, chatting, ended, chat_recv, check_stop, chat_turn,
  client_start_chat,
}
use mogakso.Client.{ClientContext}
use mogakso.Common.{
  Bool-cases, Run, done, ◌>>=◌, ◌≡◌, refl, sym, ap, ◌∙◌, subst, inl, inr, Bool, true, false, some,
  List, [], ◌∷◌, ◌++◌,
}

module _ (os : Os) where
  -- The context keeps its socket and its pipe.
  abbrev Same : ClientContext → ClientContext → Type 0
  Same ctx ctx' =
      (ctx'.socket_fd ≡ ctx.socket_fd)
      × (ctx'.shutdown_read ≡ ctx.shutdown_read)
      × (ctx'.shutdown_write ≡ ctx.shutdown_write)

  abbrev HasParser : ClientContext → Type 0
  HasParser ctx = (p : StreamParser) × (ctx.client_parser ≡ some p) × IsLive p

  -- The loop waits with a parser that is not stuck, or has ended.
  abbrev pub GoodChat : ClientContext → Chat → Type 0
  GoodChat ctx (chatting ctx' log') = Same ctx ctx' × HasParser ctx'
  GoodChat ctx (ended ctx' log') = Same ctx ctx'

  Reads-GoodChat :
      (ctx : ClientContext) (x : Fed (List Event)) (r : Run Chat)
      → Reads ctx x r
      → (c : Chat) × (r ≡ done c) × GoodChat ctx c
  Reads-GoodChat ctx (reading f l) r (p, e, live, v) = (_, e, ((refl, refl, refl), (p, refl, live)))
  Reads-GoodChat ctx (refused l) r (p, e) = (_, e, (refl, refl, refl))

  recv-GoodChat :
      (ctx : ClientContext) (r : Received) (log : List Event)
      → HasParser ctx
      → (c : Chat) × (chat_recv os ctx r log ≡ done c) × GoodChat ctx c
  unfolding chat_recv
  recv-GoodChat ctx (got_bytes b bs) log (p, e, live) =
      Reads-GoodChat ctx _ _ (chat_recv-Reads os ctx p b bs log e live)
  recv-GoodChat ctx end_of_stream log h = (_, refl, (refl, refl, refl))
  recv-GoodChat ctx recv_failed log h = (_, refl, (refl, refl, refl))

  stop-GoodChat :
      (ctx : ClientContext) (stop : Bool) (c : Chat)
      → GoodChat ctx c
      → GoodChat ctx (check_stop stop c)
  stop-GoodChat ctx true (chatting ctx' log') h = h.0
  stop-GoodChat ctx false (chatting ctx' log') h = h
  stop-GoodChat ctx true (ended ctx' log') h = h
  stop-GoodChat ctx false (ended ctx' log') h = h

  chat_turn-GoodChat :
      (ctx : ClientContext) (log : List Event) (turn : ChatTurn)
      → HasParser ctx
      → (c : Chat) × (chat_turn os ctx log turn ≡ done c) × GoodChat ctx c
  unfolding chat_turn
  chat_turn-GoodChat ctx log chat_poll_failed h = (_, refl, (refl, refl, refl))
  chat_turn-GoodChat ctx log (chat_polled readable stop) h = elim (Bool-cases readable) [
    | inr idle ↦
        rw idle (_, refl, stop-GoodChat ctx stop (chatting ctx log) ((refl, refl, refl), h))
    | inl ready ↦
        let r = os.recv log ctx.socket_fd in
        let (c, e, good) = recv-GoodChat ctx r (received ctx.socket_fd r ∷ log) h in
        rw (ready, e) (check_stop stop c, refl, stop-GoodChat ctx stop c good)
  ]

  -- What `client_start_chat` does after a turn.
  abbrev onward : List ChatTurn → Chat → Run Chat
  onward turns (chatting ctx log) = client_start_chat os turns ctx log
  onward turns (ended ctx log) = done (ended ctx log)

  Same-GoodChat :
      (ctx ctx1 : ClientContext) (c : Chat) → Same ctx ctx1 → GoodChat ctx1 c → GoodChat ctx c
  Same-GoodChat ctx ctx1 (chatting ctx' log') (a, b, d) (same, h) =
      ((same.0 ∙ a, same.1 ∙ b, same.2 ∙ d), h)
  Same-GoodChat ctx ctx1 (ended ctx' log') (a, b, d) same = (same.0 ∙ a, same.1 ∙ b, same.2 ∙ d)

  after_turn :
      (turns : List ChatTurn) (ctx : ClientContext) (c : Chat)
      → GoodChat ctx c
      → ((ctx1 : ClientContext) (log1 : List Event)
          → HasParser ctx1
          → (c' : Chat) × (client_start_chat os turns ctx1 log1 ≡ done c') × GoodChat ctx1 c')
      → (c' : Chat) × (onward turns c ≡ done c') × GoodChat ctx c'
  after_turn turns ctx (chatting ctx1 log1) (same, h) go =
      let (c', e, good) = go ctx1 log1 h in (c', e, Same-GoodChat ctx ctx1 c' same good)
  after_turn turns ctx (ended ctx1 log1) same go = (ended ctx1 log1, refl, same)

  -- With a parser that is not stuck, `client_start_chat` never faults, whatever `poll` and `recv`
  -- answer: it waits for the next turn with a parser that is not stuck, or has ended, and the socket
  -- and the pipe of the context are the same.
  pub client_start_chat-GoodChat :
      (turns : List ChatTurn) (ctx : ClientContext) (log : List Event)
      → HasParser ctx
      → (c : Chat) × (client_start_chat os turns ctx log ≡ done c) × GoodChat ctx c
  unfolding client_start_chat
  client_start_chat-GoodChat [] ctx log h = (chatting ctx log, refl, ((refl, refl, refl), h))
  client_start_chat-GoodChat (turn ∷ turns) ctx log h =
      let (c, e, good) = chat_turn-GoodChat ctx log turn h in
      let (c', e', good') =
        after_turn turns ctx c good (λ ctx1 log1. client_start_chat-GoodChat turns ctx1 log1) in
      (c', ap (λ r. r >>= onward turns) e ∙ e', good')

  abbrev pub Stops : Run Chat → Type 0
  Stops r = (ctx' : ClientContext) × (log' : List Event) × (r ≡ done (ended ctx' log'))

  stopped_chat : (turns : List ChatTurn) (c : Chat) → Stops (onward turns (check_stop true c))
  stopped_chat turns (chatting ctx log) = (ctx, log, refl)
  stopped_chat turns (ended ctx log) = (ctx, log, refl)

  stop_turn :
      (readable : Bool) (turns : List ChatTurn) (ctx : ClientContext) (log : List Event)
      → HasParser ctx
      → Stops (client_start_chat os (chat_polled readable true ∷ turns) ctx log)
  unfolding client_start_chat chat_turn
  stop_turn readable turns ctx log h = elim (Bool-cases readable) [
    | inr idle ↦ rw idle (ctx, log, refl)
    | inl ready ↦
        let r = os.recv log ctx.socket_fd in
        let (c, e, good) = recv-GoodChat ctx r (received ctx.socket_fd r ∷ log) h in
        rw (ready, e) (stopped_chat turns c)
  ]

  after_turns :
      (rest : List ChatTurn) (ctx : ClientContext) (c : Chat)
      → GoodChat ctx c
      → ((ctx1 : ClientContext) (log1 : List Event)
          → HasParser ctx1
          → Stops (client_start_chat os rest ctx1 log1))
      → Stops (onward rest c)
  after_turns rest ctx (chatting ctx1 log1) good go = go ctx1 log1 good.1
  after_turns rest ctx (ended ctx1 log1) good go = (ctx1, log1, refl)

  -- A byte in the shutdown pipe ends `client_start_chat` by the turn in which `poll` reports it,
  -- whatever came before, whether or not the socket is readable too.
  pub client_start_chat-Stops :
      (turns rest : List ChatTurn) (readable : Bool) (ctx : ClientContext) (log : List Event)
      → HasParser ctx
      → Stops (client_start_chat os (turns ++ chat_polled readable true ∷ rest) ctx log)
  unfolding client_start_chat
  client_start_chat-Stops [] rest readable ctx log h = stop_turn readable rest ctx log h
  client_start_chat-Stops (turn ∷ turns) rest readable ctx log h =
      let (c, e, good) = chat_turn-GoodChat ctx log turn h in
      subst (λ r. Stops (r >>= onward (turns ++ chat_polled readable true ∷ rest))) (sym e)
        (after_turns (turns ++ chat_polled readable true ∷ rest) ctx c good
          (λ ctx1 log1. client_start_chat-Stops turns rest readable ctx1 log1))
