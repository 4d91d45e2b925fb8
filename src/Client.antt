-- ===== src/Client.antt =====
-- C_chat_lib/client_lib/include/chat_client.h and C_chat_lib/client_lib/src/chat_client.c: the
-- sending half (`client_send_payload`, `client_send_file`), the callbacks, and in Chat the rest.

pub mod Sending
pub mod File
pub mod Chunks
pub mod Chat
pub mod Defaults
use mogakso.Os.Send.{SendOutcome, complete, peer_closed, send_failed, send_loop}
use mogakso.Protocol.Parser.{StreamParser}
use mogakso.Protocol.Framing.{frame_message}
use mogakso.Common.{
  ◌==◌, if◌then◌else◌, length, take, drop, replicate, ℤ, pos, negsuc, is_neg, codes, decimal, Run,
  done, out_of_fuel, ◌>>=◌, ℕ, zero, suc, ◌-◌, Bool, false, not, Option, none, some, List, [], ◌∷◌,
  ◌++◌,
}
use mogakso.Protocol.Wire.{file_info, file_chunk, file_end, code}
use mogakso.Os.{Event, error_callback, error_stderr, Os, buffer_size}
use mogakso.Server.State.{builtin, registered, Registration, einval}

pub record ClientContext : Type 0 where
  pub socket_fd : ℤ
  pub server_ip : List ℕ
  pub server_port : ℕ
  pub shutdown_read : ℤ
  pub shutdown_write : ℤ
  pub on_complete_message : Registration
  pub on_error : Registration
  pub client_parser : Option StreamParser

-- A null callback stands for the default one, which does nothing.
abbrev pub client_registration : Option ℕ → Option ℕ → Registration
client_registration none user_data = record { handler = builtin; user_data = user_data }
client_registration (some f) user_data = record { handler = registered f; user_data = user_data }

unfoldable pub client_register_complete_message_callback :
    Option ClientContext → Option ℕ → Option ℕ → Option ClientContext
client_register_complete_message_callback none callback user_data = none
client_register_complete_message_callback (some ctx) callback user_data =
    some (record ctx { on_complete_message = client_registration callback user_data })

unfoldable pub client_register_error_callback :
    Option ClientContext → Option ℕ → Option ℕ → Option ClientContext
client_register_error_callback none callback user_data = none
client_register_error_callback (some ctx) callback user_data =
    some (record ctx { on_error = client_registration callback user_data })

-- `_handle_error`: to the context's callback, or to `stderr` when there is no context.
unfoldable pub client_handle_error : Option ClientContext → ℕ → List Event → List Event
client_handle_error none code log = error_stderr code ∷ log
client_handle_error (some ctx) code log = error_callback code ∷ log

-- The 4096 bytes that `frame_buffer` holds at first are not sent.
unfoldable pub client_frame_buffer : List ℕ
client_frame_buffer = replicate buffer_size 0

abbrev pub sent_bytes : ℤ → Option (List ℕ) → List ℕ
sent_bytes (pos n) (some buffer) = take n buffer
sent_bytes (pos n) none = []
sent_bytes (negsuc n) buffer = []

-- After the loop: an error ends it, and what is missing is reported once more.
unfoldable pub client_report : ClientContext → SendOutcome → List Event → List Event
unfolding client_handle_error
client_report ctx complete log = log
client_report ctx peer_closed log =
    client_handle_error (some ctx) 0 (client_handle_error (some ctx) 0 log)
client_report ctx (send_failed err) log =
    client_handle_error (some ctx) 0 (client_handle_error (some ctx) err log)

unfoldable pub client_send_framed :
    Os → ClientContext → ℤ → Option (List ℕ) → List Event → Run (List Event)
client_send_framed os ctx frame_len buffer log =
    if is_neg frame_len then done (client_handle_error (some ctx) 0 log) else (do
      let frame_bytes = sent_bytes frame_len buffer
      (outcome, log') ← send_loop os (length frame_bytes) ctx.socket_fd frame_bytes log
      done (client_report ctx outcome log'))

abbrev pub missing_payload : Option (List ℕ) → ℕ → Bool
missing_payload none payload_len = not (payload_len == 0)
missing_payload (some payload) payload_len = false

unfoldable pub client_send_payload :
    Os → Option ClientContext → ℕ → Option (List ℕ) → ℕ → List Event → Run (List Event)
client_send_payload os none msg_type payload payload_len log =
    done (client_handle_error none einval log)
client_send_payload os (some ctx) msg_type payload payload_len log =
    if missing_payload payload payload_len then done (client_handle_error none einval log) else (do
      (frame_len, buffer) ←
          frame_message msg_type payload payload_len (some client_frame_buffer) buffer_size
      client_send_framed os ctx frame_len buffer log)

-- What `fread` gives of the rest of a file, `chunk_size` bytes at a time, until it gives nothing; on
-- fuel, where the number of bytes is enough.
unfoldable pub send_chunks : Os → Option ClientContext → ℕ → List ℕ → List Event → Run (List Event)
send_chunks os ctx fuel [] log = done log
send_chunks os ctx zero (b ∷ bs) log = out_of_fuel
send_chunks os ctx (suc fuel) (b ∷ bs) log = do
  let chunk = take buffer_size (b ∷ bs)
  log' ← client_send_payload os ctx (code file_chunk) (some chunk) (length chunk) log
  send_chunks os ctx fuel (drop buffer_size (b ∷ bs)) log'

-- The text that `snprintf` makes of the path and the size.
unfoldable pub announcement : (path : List ℕ) → (filesize : ℕ) → List ℕ
announcement path filesize =
    codes "{\"filename\":\""
    ++ (path ++ (codes "\",\"filesize\":" ++ (decimal filesize ++ codes "}")))

-- `char header[256]` after `snprintf`: at most 255 bytes of the text and a NUL; what stands behind
-- the NUL is not read where the text fits.
unfoldable pub header_array : List ℕ → List ℕ
header_array text = take 255 text ++ replicate (256 - length (take 255 text)) 0

-- `client_send_file`: `file` is the content behind the opened path, or none. `header_len` is the
-- length of the whole text, whether or not the array holds it.
unfoldable pub client_send_file :
    Os
    → Option ClientContext
    → (path : List ℕ) → (file : Option (List ℕ)) → List Event
    → Run (ℤ × List Event)
client_send_file os ctx path none log = done (negsuc 0, client_handle_error ctx (os.errno log) log)
client_send_file os ctx path (some content) log = do
  let text = announcement path (length content)
  log1 ← client_send_payload os ctx (code file_info) (some (header_array text)) (length text) log
  log2 ← send_chunks os ctx (length content) content log1
  log3 ← client_send_payload os ctx (code file_end) none 0 log2
  done (pos 0, log3)
