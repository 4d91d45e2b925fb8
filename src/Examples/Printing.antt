-- ===== src/Examples/Printing.antt =====
-- The default callbacks at concrete inputs.
use mogakso.Client.Defaults.{client_def_on_complete_message, client_def_on_error}
use mogakso.Server.Defaults.{
  newline, who_prefix, def_on_client_connect, def_on_client_disconnect, def_on_error, message_line,
  def_on_complete_message,
}
use mogakso.Server.State.{ClientInfo}
use mogakso.Server.Defaults.Prints.{shown, def_on_complete_message-prints}
use mogakso.Common.{
  pos, codes, until_nul, decimal, signed_decimal, done, ℕ, ◌≡◌, refl, none, some, List, [], ◌∷◌,
  ◌++◌, arith,
}

abbrev greeting : List ℕ
greeting = 104 ∷ 105 ∷ 0 ∷ 33 ∷ []

def_on_complete_message-prints_example :
    def_on_complete_message none none 1 (some greeting) 4
    ≡ done (who_prefix none ++ message_line none 1 4 ++ shown 1 greeting 4)
def_on_complete_message-prints_example =
    def_on_complete_message-prints none none 1 greeting 4 (omega arith)

abbrev seventh : ClientInfo
seventh = record { socket_fd = pos 7; ip_addr = codes "10.0.0.1"; client_parser = none }

connect_text :
    def_on_client_connect (some (codes "chat")) (some seventh)
    ≡ codes "[chat] Client connected: fd=7, ip=10.0.0.1" ++ newline
unfolding def_on_client_connect decimal until_nul signed_decimal
connect_text = refl

disconnect_text :
    def_on_client_disconnect none none
    ≡ codes "client disconnected: (client_info_t is NULL)" ++ newline
unfolding def_on_client_disconnect
disconnect_text = refl

error_text :
    def_on_error none (pos 9) (some (codes "poll() failed."))
    ≡ codes "ERROR (code=9): poll() failed." ++ newline
unfolding def_on_error decimal until_nul signed_decimal
error_text = refl

client_silent :
    client_def_on_complete_message none 1 none 0 ++ client_def_on_error none (pos 9) none ≡ []
unfolding client_def_on_complete_message client_def_on_error
client_silent = refl
