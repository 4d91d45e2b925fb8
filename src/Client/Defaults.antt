-- ===== src/Client/Defaults.antt =====
-- The callbacks of chat_client.c that stand for those that the application does not register: what
-- each prints, which is nothing.
use mogakso.Common.{ℤ, ℕ, Option, List, []}

unfoldable pub client_def_on_complete_message :
    (user_data : Option ℕ) (msg_type : ℕ) (payload : Option (List ℕ)) (len : ℕ) → List ℕ
client_def_on_complete_message user_data msg_type payload len = []

unfoldable pub client_def_on_error :
    (user_data : Option ℕ) (error_code : ℤ) (message : Option (List ℕ)) → List ℕ
client_def_on_error user_data error_code message = []
