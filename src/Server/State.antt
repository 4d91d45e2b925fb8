-- ===== src/Server/State.antt =====
-- chat_server.h, and the helpers that every part of chat_server.c uses.
--
-- The arrays `clients`, `pollers` and `client_map` are functions of their index; `client_map` holds
-- an index of `clients` for a pointer to its element. `Q` is the command queue, behind an interface.
use mogakso.Common.{
  ◌==◌, if◌then◌else◌, Bool-cases, ℤ, ℕ, ◌≡◌, ◌≢◌, ◌⊎◌, inl, inr, Bool, true, false, Option, none,
  some, List, [], ◌∷◌, ◌++◌, arith,
}
use mogakso.Os.{Event, error_callback}
use mogakso.Command.{Command}
use mogakso.Protocol.Parser.{StreamParser}

pub data ServerState : Type 0 where
  stopped shutting_down running : ServerState

pub record ClientInfo : Type 0 where
  pub socket_fd : ℤ
  pub ip_addr : List ℕ
  pub client_parser : Option StreamParser

-- `revents`: POLLIN, and one of POLLERR, POLLHUP, POLLNVAL.
pub record Revents : Type 0 where
  pub pollin : Bool
  pub broken : Bool

pub record Poller : Type 0 where
  pub fd : ℤ
  pub events : Bool
  pub revents : Revents

-- A callback field: the default, or one that the application registered.
pub data Handler : Type 0 where
  builtin : Handler
  registered : (callback : ℕ) → Handler

pub record Registration : Type 0 where
  pub handler : Handler
  pub user_data : Option ℕ

-- The operations of the command queue that the server uses, and what it relies on. A push without
-- memory leaves the queue as it was.
pub record Fifo (Q : Type 0) : Type 0 where
  pub push : Q → Command → Q
  pub pop : Q → Option Command × Q
  pub is_empty : Q → Bool
  pub contents : Q → List Command
  pub push_lem :
      (q : Q) (c : Command)
      → (contents (push q c) ≡ contents q ++ c ∷ []) ⊎ (contents (push q c) ≡ contents q)
  pub pop_nil : (q : Q) → contents q ≡ [] → (pop q).0 ≡ none
  pub pop_cons :
      (q : Q) (c : Command) (cs : List Command)
      → contents q ≡ c ∷ cs
      → ((pop q).0 ≡ some c) × (contents (pop q).1 ≡ cs)
  pub is_empty_nil : (q : Q) → contents q ≡ [] → is_empty q ≡ true
  pub is_empty_cons :
      (q : Q) (c : Command) (cs : List Command) → contents q ≡ c ∷ cs → is_empty q ≡ false

pub record ServerContext (Q : Type 0) : Type 0 where
  pub listening_socket_fd : ℤ
  pub port : ℕ
  pub clients : ℕ → ClientInfo
  pub client_map : ℕ → Option ℕ
  pub max_clients : ℕ
  pub client_count : ℕ
  pub pollers : ℕ → Poller
  pub shutdown_read : ℤ
  pub shutdown_write : ℤ
  pub command_read : ℤ
  pub command_write : ℤ
  pub command_queue : Q
  pub has_thread : Bool
  pub server_state : ServerState
  pub on_connect : Registration
  pub on_complete_message : Registration
  pub on_disconnect : Registration
  pub on_error : Registration
  pub log : List Event

abbrev pub max_fd_limit : ℕ
max_fd_limit = 4096

-- The slots of `pollers` before the clients': the listening socket and two pipes.
abbrev pub first_slot : ℕ
first_slot = 3

abbrev pub einval : ℕ
einval = 22

abbrev pub enomem : ℕ
enomem = 12

abbrev pub sizeof_parser : ℕ
sizeof_parser = 56

abbrev pub sizeof_command : ℕ
sizeof_command = 40

abbrev pub update {ℓ} : {A : Type ℓ} → (ℕ → A) → ℕ → A → ℕ → A
update f i a j = if i == j then a else f j

pub update-cases {ℓ} :
    {A : Type ℓ} (f : ℕ → A) (i : ℕ) (a : A) (j : ℕ)
    → ((i ≡ j) × (update f i a j ≡ a)) ⊎ ((i ≢ j) × (update f i a j ≡ f j))
update-cases f i a j = elim (Bool-cases (i == j)) [
  | inl same ↦ inl (ground arith, rw same)
  | inr other ↦ inr (ground arith, rw other)
]

-- A null callback stands for the default one.
abbrev registration : Option ℕ → Option ℕ → Registration
registration none user_data = record { handler = builtin; user_data = user_data }
registration (some f) user_data = record { handler = registered f; user_data = user_data }

module _ {Q : Type 0} where
  abbrev pub logged : ServerContext Q → Event → ServerContext Q
  logged stx e = record stx { log = e ∷ stx.log }

  -- `_handle_error` with a context: an `on_error_cb` is always set once the context is created.
  unfoldable pub handle_error : ServerContext Q → ℕ → ServerContext Q
  handle_error stx code = logged stx (error_callback code)

  unfoldable pub server_register_connect_callback :
      Option (ServerContext Q) → Option ℕ → Option ℕ → Option (ServerContext Q)
  server_register_connect_callback none callback user_data = none
  server_register_connect_callback (some stx) callback user_data =
      some (record stx { on_connect = registration callback user_data })

  unfoldable pub server_register_complete_message_callback :
      Option (ServerContext Q) → Option ℕ → Option ℕ → Option (ServerContext Q)
  server_register_complete_message_callback none callback user_data = none
  server_register_complete_message_callback (some stx) callback user_data =
      some (record stx { on_complete_message = registration callback user_data })

  unfoldable pub server_register_disconnect_callback :
      Option (ServerContext Q) → Option ℕ → Option ℕ → Option (ServerContext Q)
  server_register_disconnect_callback none callback user_data = none
  server_register_disconnect_callback (some stx) callback user_data =
      some (record stx { on_disconnect = registration callback user_data })

  unfoldable pub server_register_error_callback :
      Option (ServerContext Q) → Option ℕ → Option ℕ → Option (ServerContext Q)
  server_register_error_callback none callback user_data = none
  server_register_error_callback (some stx) callback user_data =
      some (record stx { on_error = registration callback user_data })
