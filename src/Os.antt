-- ===== src/Os.antt =====
-- What the program does outside itself, as events, and what the system answers.
--
-- The newest event stands first. An answer is a function of the events so far, so that any answers
-- in any order can occur. The laws of `Sane` are documented behaviour of the calls.

pub mod Send
pub mod Keeps
use mogakso.Common.{
  if◌then◌else◌, length, All, ℤ, pos, eqb_ℤ, ℕ, ◌≤◌, ◌<◌, ◌≡◌, Bool, true, false, Option, List, [],
  ◌∷◌,
}

-- What `recv` stores and returns: bytes, 0 at the end of the stream, or -1.
pub data Received : Type 0 where
  got_bytes : (b : ℕ) (bs : List ℕ) → Received
  end_of_stream : Received
  recv_failed : Received

pub data Event : Type 0 where
  opened closed : ℤ → Event
  sent : (fd : ℤ) (offered : List ℕ) (result : ℤ) → Event
  received : (fd : ℤ) → Received → Event
  signalled : (fd : ℤ) (result : ℤ) → Event
  drained : (fd : ℤ) (result : ℤ) → Event
  error_callback : (code : ℕ) → Event
  error_stderr : (code : ℕ) → Event
  connect_callback disconnect_callback : (fd : ℤ) → Event
  message_callback : (fd : ℤ) (msg_type : ℕ) (payload : Option (List ℕ)) (len : ℕ) → Event
  joined : Event

-- Whether a descriptor was opened, by the events so far, and not closed since.
abbrev pub is_open : ℤ → List Event → Bool
is_open fd [] = false
is_open fd (opened f ∷ log) = if eqb_ℤ f fd then true else is_open fd log
is_open fd (closed f ∷ log) = if eqb_ℤ f fd then false else is_open fd log
is_open fd (sent _ _ _ ∷ log) = is_open fd log
is_open fd (received _ _ ∷ log) = is_open fd log
is_open fd (signalled _ _ ∷ log) = is_open fd log
is_open fd (drained _ _ ∷ log) = is_open fd log
is_open fd (error_callback _ ∷ log) = is_open fd log
is_open fd (error_stderr _ ∷ log) = is_open fd log
is_open fd (connect_callback _ ∷ log) = is_open fd log
is_open fd (disconnect_callback _ ∷ log) = is_open fd log
is_open fd (message_callback _ _ _ _ ∷ log) = is_open fd log
is_open fd (joined ∷ log) = is_open fd log

-- Between two logs no descriptor was opened or closed.
abbrev pub SameOpen : List Event → List Event → Type 0
SameOpen log log' = (fd : ℤ) → is_open fd log' ≡ is_open fd log

-- Whether an event may come after a log: sending, receiving, callbacks and closing are for open
-- descriptors, and what is opened was not open.
abbrev pub Allowed : Event → List Event → Type 0
Allowed (opened fd) log = is_open fd log ≡ false
Allowed (closed fd) log = is_open fd log ≡ true
Allowed (sent fd _ _) log = is_open fd log ≡ true
Allowed (received fd _) log = is_open fd log ≡ true
Allowed (signalled _ _) log = Unit
Allowed (drained _ _) log = Unit
Allowed (error_callback _) log = Unit
Allowed (error_stderr _) log = Unit
Allowed (connect_callback fd) log = is_open fd log ≡ true
Allowed (disconnect_callback fd) log = is_open fd log ≡ true
Allowed (message_callback fd _ _ _) log = is_open fd log ≡ true
Allowed joined log = Unit

-- Every event of the log was allowed when it came.
abbrev pub Proper : List Event → Type 0
Proper [] = Unit
Proper (e ∷ log) = Allowed e log × Proper log

pub record Os : Type 0 where
  pub send : List Event → ℤ → List ℕ → ℤ
  pub recv : List Event → ℤ → Received
  pub write : List Event → ℤ → ℤ
  pub read : List Event → ℤ → ℤ
  pub accept : List Event → ℤ
  pub peer_ip : List Event → List ℕ
  pub interrupted : List Event → Bool
  pub errno : List Event → ℕ
  pub calloc_ok : List Event → ℕ → Bool

-- `send` reports at most as many bytes as it was offered, what `recv` stores are bytes, and `accept`
-- gives a descriptor that is not open.
pub record Sane (os : Os) : Type 0 where
  pub send_le :
      (log : List Event) (fd : ℤ) (offered : List ℕ) (n : ℕ)
      → os.send log fd offered ≡ pos n
      → n ≤ length offered
  pub recv_bytes :
      (log : List Event) (fd : ℤ) (b : ℕ) (bs : List ℕ)
      → os.recv log fd ≡ got_bytes b bs
      → All (λ x. x < 256) (b ∷ bs)
  pub accept_new :
      (log : List Event) (fd : ℕ) → os.accept log ≡ pos fd → is_open (pos fd) log ≡ false

abbrev pub buffer_size : ℕ
buffer_size = 4096
