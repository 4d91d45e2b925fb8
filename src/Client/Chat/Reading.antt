-- ===== src/Client/Chat/Reading.antt =====
-- What the client's chat loop makes of received bytes.
use mogakso.Protocol.Parser.Refine.{Agrees, parse_stream-Agrees}
use mogakso.Protocol.Parser.{StreamParser, parse_stream}
use mogakso.Client.{ClientContext, client_handle_error}
use mogakso.Common.{
  if◌then◌else◌, ℤ, is_neg, Run, done, ◌>>=◌, ℕ, ◌≡◌, sym, subst, Bool, Option, some, List, ◌∷◌,
}
use mogakso.Protocol.Parser.Reader.{Fed, reading, refused, feed}
use mogakso.Protocol.Parser.Live.{IsLive, view}
use mogakso.Client.Chat.{on_client_parse_complete, Chat, chatting, ended, chat_recv}
use mogakso.Os.{got_bytes, Event, error_callback, Os}

-- The loop goes on with the reader's open frame in its parser, or ends when memory is refused.
abbrev pub Reads : ClientContext → Fed (List Event) → Run Chat → Type 0
Reads ctx (reading f l) r =
    (p : StreamParser) × (r ≡ done (chatting (record ctx { client_parser = some p }) l))
    × IsLive p
    × (view p ≡ f)
Reads ctx (refused l) r =
    (p : StreamParser) × (r
      ≡ done (ended (record ctx { client_parser = some p }) (error_callback 0 ∷ l)))

abbrev settled : ClientContext → Run (ℤ × Option StreamParser × List Event) → Run Chat
settled ctx r = do
  (n, p, log') ← r
  let ctx' = record ctx { client_parser = p }
  done
      (if is_neg n then ended ctx' (client_handle_error (some ctx') 0 log') else chatting ctx' log')

settled-Reads :
    (ctx : ClientContext) (x : Fed (List Event)) (r : Run (ℤ × Option StreamParser × List Event))
    → Agrees x r
    → Reads ctx x (settled ctx r)
unfolding client_handle_error
settled-Reads ctx (reading f l) r (p, e, live, v) = (p, rw e, live, v)
settled-Reads ctx (refused l) r (p, e, stuck) = (p, rw e)

-- When `recv` gives bytes, the client's loop does with them what the reader does: it hands each
-- message that is completed to the application and goes on with the open frame in its parser, or,
-- if memory for a payload is refused, reports an error and ends.
pub chat_recv-Reads :
    (os : Os) (ctx : ClientContext) (p : StreamParser) (b : ℕ) (bs : List ℕ) (log : List Event)
    → ctx.client_parser ≡ some p
    → IsLive p
    → Reads ctx
        (feed
          (λ l size. os.calloc_ok l size)
          (on_client_parse_complete ctx.socket_fd)
          (view p)
          (b ∷ bs)
          log)
        (chat_recv os ctx (got_bytes b bs) log)
unfolding chat_recv
chat_recv-Reads os ctx p b bs log has_parser live =
    let cb = on_client_parse_complete ctx.socket_fd in
    let can : List Event → ℕ → Bool = λ l size. os.calloc_ok l size in
    subst
      (λ q.
        Reads ctx (feed can cb (view p) (b ∷ bs) log)
          (settled ctx (parse_stream can q (some (b ∷ bs)) (some cb) log)))
      (sym has_parser) (settled-Reads ctx _ _ (parse_stream-Agrees can cb p (b ∷ bs) log live))
