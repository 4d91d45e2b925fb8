-- ===== src/Server/Defaults.antt =====
-- The callbacks of chat_server.c that stand for those that the application does not register: what
-- each prints on `stderr`. `who` is the registered user data, read as a string.
pub mod Prints
use mogakso.Server.State.{ClientInfo}
use mogakso.Protocol.Wire.{chat_text, code}
use mogakso.Common.{
  ltb, ◌==◌, if◌then◌else◌, replicate, ℤ, codes, until_nul, decimal, signed_decimal, hex_bytes, Run,
  done, ◌>>=◌, memcpy, read_bytes, ℕ, zero, suc, Option, none, some, List, [], ◌∷◌, ◌++◌,
}

abbrev pub newline : List ℕ
newline = 10 ∷ []

-- `if (who && *who)`.
unfoldable pub who_prefix : Option (List ℕ) → List ℕ
who_prefix none = []
who_prefix (some []) = []
who_prefix (some (zero ∷ cs)) = []
who_prefix (some (suc c ∷ cs)) = codes "[" ++ until_nul (suc c ∷ cs) ++ codes "] "

-- `fd=%d, ip=%s` of a client.
unfoldable pub client_fields : ClientInfo → List ℕ
client_fields client =
    codes "fd=" ++ signed_decimal client.socket_fd ++ codes ", ip=" ++ until_nul client.ip_addr

unfoldable pub def_on_client_connect : Option (List ℕ) → Option ClientInfo → List ℕ
unfolding who_prefix client_fields
def_on_client_connect who none =
    who_prefix who ++ codes "Client connected: (client_info_t is NULL)" ++ newline
def_on_client_connect who (some client) =
    who_prefix who ++ codes "Client connected: " ++ client_fields client ++ newline

unfoldable pub def_on_client_disconnect : Option (List ℕ) → Option ClientInfo → List ℕ
unfolding who_prefix client_fields
def_on_client_disconnect who none =
    who_prefix who ++ codes "client disconnected: (client_info_t is NULL)" ++ newline
def_on_client_disconnect who (some client) =
    who_prefix who ++ codes "client disconnected: " ++ client_fields client ++ newline

unfoldable pub def_on_error : Option (List ℕ) → ℤ → Option (List ℕ) → List ℕ
unfolding who_prefix
def_on_error who error_code none =
    who_prefix who
    ++ codes "ERROR (code="
    ++ signed_decimal error_code
    ++ codes "): (no message)"
    ++ newline
def_on_error who error_code (some message) =
    who_prefix who
    ++ codes "ERROR (code="
    ++ signed_decimal error_code
    ++ codes "): "
    ++ until_nul message
    ++ newline

-- The first line about a message.
unfoldable pub message_line : Option ClientInfo → ℕ → ℕ → List ℕ
unfolding client_fields
message_line none msg_type len =
    codes "Message received: (client_info_t is NULL), type="
    ++ decimal msg_type
    ++ codes ", len="
    ++ decimal len
    ++ newline
message_line (some client) msg_type len =
    codes "Message received: "
    ++ client_fields client
    ++ codes ", type="
    ++ decimal msg_type
    ++ codes ", len="
    ++ decimal len
    ++ newline

-- `char tmp[256]`; what it holds at first is not printed.
unfoldable pub text_buffer : List ℕ
text_buffer = replicate 256 0

-- The payload as text: at most 255 bytes are copied, and a NUL is written behind them.
unfoldable pub text_line : List ℕ → ℕ → Run (List ℕ)
text_line payload len = do
  let print_len = if ltb len 256 then len else 255
  bytes ← read_bytes payload print_len
  tmp ← memcpy text_buffer 0 bytes
  ended ← memcpy tmp print_len (0 ∷ [])
  done (
      codes "Payload (as text, first "
      ++ decimal print_len
      ++ codes " bytes): \""
      ++ until_nul ended
      ++ codes "\""
      ++ newline)

-- The payload in hexadecimal: at most 32 bytes are read.
unfoldable pub hex_line : List ℕ → ℕ → Run (List ℕ)
hex_line payload len = do
  let print_len = if ltb len 32 then len else 32
  bytes ← read_bytes payload print_len
  done (
      codes "Payload (hex, first "
      ++ decimal print_len
      ++ codes " bytes):"
      ++ hex_bytes bytes
      ++ newline)

unfoldable pub payload_lines : ℕ → Option (List ℕ) → ℕ → Run (List ℕ)
unfolding text_line hex_line
payload_lines msg_type none len = done []
payload_lines msg_type (some payload) len =
    if ltb 0 len
    then (if msg_type == code chat_text then text_line payload len else hex_line payload len)
    else done []

unfoldable pub def_on_complete_message :
    Option (List ℕ) → Option ClientInfo → ℕ → Option (List ℕ) → ℕ → Run (List ℕ)
unfolding who_prefix message_line payload_lines
def_on_complete_message who client msg_type payload len = do
  lines ← payload_lines msg_type payload len
  done (who_prefix who ++ message_line client msg_type len ++ lines)
