-- ===== src/Command.antt =====
-- C_chat_lib/common/include/command.h and C_chat_lib/common/src/command.c: the commands that wait in
-- the server's queue. Whether each allocation succeeds is an argument.
pub mod Blocks
use mathlib.Core.Option
use mogakso.Common.{
  ltb, if◌then◌else◌, ℤ, Run, done, ◌>>=◌, read_bytes, ℕ, Bool, Option, none, some, List, [], ◌∷◌,
  ◌++◌, map,
}

pub data Command : Type 0 where
  send_message :
      (target_client_fd : ℤ) (msg_type : ℕ) (payload : Option (List ℕ)) (payload_len : ℕ) → Command
  broadcast_message :
      (msg_type : ℕ) (payload : Option (List ℕ)) (payload_len : ℕ) (exclude_client_fd : ℤ) → Command

-- The copy of the payload: `some none` is a NULL payload, `none` a failed `malloc`.
copy_payload : (malloc_ok : Bool) → Option (List ℕ) → ℕ → Run (Option (Option (List ℕ)))
copy_payload malloc_ok none len = done (some none)
copy_payload malloc_ok (some payload) len =
    if ltb 0 len
    then (if malloc_ok
        then (do bytes ← read_bytes payload len; done (some (some bytes)))
        else done none)
    else done (some none)

unfoldable pub create_send_command :
    (calloc_ok malloc_ok : Bool) → ℤ → ℕ → Option (List ℕ) → ℕ → Run (Option Command)
unfolding copy_payload
create_send_command calloc_ok malloc_ok client_fd msg_type payload len =
    if calloc_ok
    then (do
      copied ← copy_payload malloc_ok payload len
      done (Option.map (λ bytes. send_message client_fd msg_type bytes len) copied))
    else done none

unfoldable pub create_broadcast_command :
    (calloc_ok malloc_ok : Bool) → ℕ → Option (List ℕ) → ℕ → ℤ → Run (Option Command)
unfolding copy_payload
create_broadcast_command calloc_ok malloc_ok msg_type payload len exclude_fd =
    if calloc_ok
    then (do
      copied ← copy_payload malloc_ok payload len
      done (Option.map (λ bytes. broadcast_message msg_type bytes len exclude_fd) copied))
    else done none

-- The blocks that `free` is called on: the payload, if there is one, and the command.
pub data Block : Type 0 where
  payload_block command_block : Block

abbrev payload_blocks : Option (List ℕ) → List Block
payload_blocks none = []
payload_blocks (some _) = payload_block ∷ []

unfoldable pub destroy_command : Option Command → List Block
destroy_command none = []
destroy_command (some (send_message _ _ payload _)) = payload_blocks payload ++ command_block ∷ []
destroy_command (some (broadcast_message _ payload _ _)) =
    payload_blocks payload ++ command_block ∷ []
