-- ===== src/Protocol/Wire.antt =====
-- protocol.h: the message types, and the byte order of the length field.
use mogakso.Common.{ℕ, ◌+◌, ◌*◌, ◌/◌, ◌%◌, ◌^◌, ◌<◌, List, [], ◌∷◌, arith}

pub data MessageType : Type 0 where
  chat_text : MessageType
  file_info file_chunk file_end file_request : MessageType
  user_login_request user_login_response : MessageType
  user_join_notice user_leave_notice server_notice : MessageType
  error_response : MessageType
  ping pong : MessageType

-- The value of each enumerator.
abbrev pub code : MessageType → ℕ
code chat_text = 1
code file_info = 10
code file_chunk = 11
code file_end = 12
code file_request = 13
code user_login_request = 100
code user_login_response = 101
code user_join_notice = 200
code user_leave_notice = 201
code server_notice = 202
code error_response = 500
code ping = 900
code pong = 901

abbrev pub header_size : ℕ
header_size = 5

-- The four bytes that `htonl` and `memcpy` leave in memory for a `uint32_t`.
abbrev pub htonl_bytes : ℕ → List ℕ
htonl_bytes n = (n / 2 ^ 24 % 256) ∷ (n / 2 ^ 16 % 256) ∷ (n / 2 ^ 8 % 256) ∷ (n % 256) ∷ []

-- The `uint32_t` that `memcpy` and `ntohl` read from four bytes.
abbrev pub ntohl_bytes : List ℕ → ℕ
ntohl_bytes (a ∷ b ∷ c ∷ d ∷ _) = (a * 2 ^ 24 + b * 2 ^ 16 + c * 2 ^ 8 + d) % 2 ^ 32
ntohl_bytes _ = 0

pub ntohl_bytes-lt : (f : List ℕ) → ntohl_bytes f < 2 ^ 32
ntohl_bytes-lt [] = omega arith
ntohl_bytes-lt (_ ∷ []) = omega arith
ntohl_bytes-lt (_ ∷ _ ∷ []) = omega arith
ntohl_bytes-lt (_ ∷ _ ∷ _ ∷ []) = omega arith
ntohl_bytes-lt (a ∷ b ∷ c ∷ d ∷ _) = omega arith
