-- ===== src/Sockets.antt =====
-- C_chat_lib/socket_lib/include/socket_utils.h and C_chat_lib/socket_lib/src/socket_utils.c: the
-- calls by which server and client make and close their sockets.
use mogakso.Common.{ℤ, ℕ}

-- What the system answers. The constants are those of Linux.
pub record SocketCalls : Type 0 where
  pub socket : (domain kind protocol : ℕ) → ℤ
  pub setsockopt : (sockfd : ℤ) (level option value : ℕ) → ℤ
  pub close : (sockfd : ℤ) → ℤ

abbrev pub af_inet : ℕ
af_inet = 2

abbrev pub sock_stream : ℕ
sock_stream = 1

abbrev pub sol_socket : ℕ
sol_socket = 1

abbrev pub so_reuseaddr : ℕ
so_reuseaddr = 2

unfoldable pub create_tcp_socket : SocketCalls → ℤ
create_tcp_socket calls = calls.socket af_inet sock_stream 0

unfoldable pub set_socket_reusable : SocketCalls → ℤ → ℤ
set_socket_reusable calls sockfd = calls.setsockopt sockfd sol_socket so_reuseaddr 1

unfoldable pub close_socket : SocketCalls → ℤ → ℤ
close_socket calls sockfd = calls.close sockfd
