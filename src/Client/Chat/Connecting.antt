-- ===== src/Client/Chat/Connecting.antt =====
-- `client_connect`: which descriptors it opens and closes.
use mogakso.Server.Lifecycle.Closing.{pipe_ends}
use mogakso.Server.Lifecycle.{closes}
use mogakso.Protocol.Parser.{init_parser}
use mogakso.Client.Chat.{
  ConnectAnswers, client_socket, cleanup_client_context, client_disconnect, Connected, connected,
  not_connected, connect_pipe, client_connect,
}
use mogakso.Common.{
  if◌then◌else◌, Bool-cases, Option-cases, ℤ, is_neg, ℕ, ◌≡◌, refl, sym, inl, inr, Bool, true,
  false, not, ◌&&◌, some, List, [], ◌++◌, append_assoc,
}

module _ (answers : ConnectAnswers) where
  -- The connection stands before the pipe is asked for.
  abbrev reaches_pipe : Bool
  reaches_pipe =
      not (is_neg (client_socket answers))
      && answers.address_ok
      && answers.connect_ok
      && answers.ip_copied

  -- What the system has opened by the end.
  abbrev opened_by : List ℤ
  opened_by =
      if answers.context_ok
      then (if reaches_pipe then pipe_ends answers.new_pipe else [])
        ++ closes (client_socket answers)
      else []

  -- A failure has closed these descriptors; of a connection, `client_disconnect` closes them.
  abbrev pub ClosesAll : List ℤ → Connected → Type 0
  ClosesAll fds (connected ctx) =
      (client_disconnect ctx ≡ fds)
      × (ctx.client_parser ≡ some init_parser)
      × (is_neg ctx.socket_fd ≡ false)
  ClosesAll fds (not_connected closed_fds) = closed_fds ≡ fds

  connect_pipe-ClosesAll :
      (ip : List ℕ) (port : ℕ)
      → reaches_pipe ≡ true
      → ClosesAll
          (pipe_ends answers.new_pipe ++ closes (client_socket answers))
          (connect_pipe answers ip port)
  unfolding connect_pipe cleanup_client_context client_disconnect
  connect_pipe-ClosesAll ip port reached = elim (Option-cases answers.new_pipe) [
    | inl no_pipe ↦ rw no_pipe refl
    | inr ((r, w), made) ↦ elim (Bool-cases answers.parser_ok) [
      | inl parser ↦
          rw (made, parser)
            (
              sym (append_assoc (closes r) (closes w) (closes (client_socket answers))),
              refl,
              connected_socket (is_neg (client_socket answers)) reached,
            )
      | inr no_parser ↦
          rw (made, no_parser)
            (sym (append_assoc (closes r) (closes w) (closes (client_socket answers))))
    ]
  ]
    where
      connected_socket :
          (negative : Bool)
          → (not negative && answers.address_ok && answers.connect_ok && answers.ip_copied) ≡ true
          → negative ≡ false
      connected_socket true h = sym h
      connected_socket false h = refl

  branches :
      (has_context reached : Bool) (c : Connected) (pipe : List ℤ)
      → (reached ≡ true → ClosesAll (pipe ++ closes (client_socket answers)) c)
      → ClosesAll
          (if has_context
            then (if reached then pipe else []) ++ closes (client_socket answers)
            else [])
          (if has_context
            then (if reached then c else not_connected (closes (client_socket answers)))
            else not_connected [])
  branches true true c pipe h = h refl
  branches true false c pipe h = refl
  branches false reached c pipe h = refl

  -- `client_connect` closes each descriptor that it has opened when it fails, wherever it fails, and
  -- nothing else; when it succeeds, the context has a fresh parser and a socket, and
  -- `client_disconnect` closes each descriptor that was opened.
  pub client_connect-ClosesAll :
      (ip : List ℕ) (port : ℕ) → ClosesAll opened_by (client_connect answers ip port)
  unfolding client_connect cleanup_client_context
  client_connect-ClosesAll ip port =
      branches answers.context_ok reaches_pipe (connect_pipe answers ip port)
        (pipe_ends answers.new_pipe) (connect_pipe-ClosesAll ip port)
