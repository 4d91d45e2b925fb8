-- ===== src/Server/Commands/Keeps.antt =====
-- Commands write to open descriptors only, if those of the map of clients are open.
use mogakso.Os.Send.{SendOutcome, complete, peer_closed, send_failed}
use mogakso.Os.Keeps.{Leaves, bind-Leaves, with-Leaves, any-Leaves, send_loop-Leaves}
use mogakso.Server.Commands.Order.{run_all}
use mogakso.Server.Slots.{is_valid_client}
use mogakso.Server.State.{ServerContext, max_fd_limit, first_slot}
use mogakso.Command.{Command, send_message, broadcast_message}
use mogakso.Server.Commands.{
  report_send, send_framed, internal_send_frame, is_addressed, broadcast_loop, run_command,
}
use mogakso.Common.{
  leb, Bool-cases, Option-cases, ℤ, pos, negsuc, is_neg, eqb_ℤ, ℕ, zero, suc, ◌+◌, ◌≡◌, refl, inl,
  inr, true, ◌||◌, Option, none, some, List, [], ◌∷◌, map,
}
use mogakso.Os.{Event, sent, error_stderr, is_open, Proper, Os}

-- The log is proper, and the descriptors that a map knows are open.
abbrev pub Safe : (ℕ → Option ℕ) → List Event → Type 0
Safe map log = Proper log × ((fd i : ℕ) → map fd ≡ some i → is_open (pos fd) log ≡ true)

module _ (map : ℕ → Option ℕ) where
  sent-Safe :
      (fd i : ℕ) (offered : List ℕ) (n : ℤ) (log : List Event)
      → map fd ≡ some i
      → Safe map log
      → Safe map (sent (pos fd) offered n ∷ log)
  sent-Safe fd i offered n log known (proper, mapped) = ((mapped fd i known, proper), mapped)

  error-Safe : (e : ℕ) (log : List Event) → Safe map log → Safe map (error_stderr e ∷ log)
  error-Safe e log (proper, mapped) = ((tt, proper), mapped)

  report_send-Safe :
      (o : SendOutcome) (log : List Event) → Safe map log → Safe map (report_send o log)
  unfolding report_send
  report_send-Safe complete log h = h
  report_send-Safe peer_closed log h = error-Safe 0 log h
  report_send-Safe (send_failed e) log h = error-Safe e log h

  -- A frame for a descriptor that the map knows.
  internal_send_frame-Safe :
      (os : Os) (fd i type : ℕ) (payload : Option (List ℕ)) (n : ℕ) (log : List Event)
      → map fd ≡ some i
      → Safe map log
      → Leaves (Safe map) (internal_send_frame os (pos fd) type payload n log)
  unfolding internal_send_frame send_framed
  internal_send_frame-Safe os fd i type none n log known h = error-Safe 22 log h
  internal_send_frame-Safe os fd i type (some bytes) n log known h =
      any-Leaves (Safe map) _ _ (λ (frame_len, buffer). framed frame_len buffer)
    where
      framed :
          (frame_len : ℤ) (buffer : Option (List ℕ))
          → Leaves (Safe map) (send_framed os (pos fd) frame_len buffer log)
      framed frame_len buffer = elim (Bool-cases (is_neg frame_len)) [
        | inl too_long ↦ rw too_long (error-Safe 0 log h)
        | inr fits ↦ rw fits (
            with-Leaves (Safe map) _ _
              (send_loop-Leaves (Safe map) os (pos fd)
                (λ offered m l. sent-Safe fd i offered m l known) _ _ log h)
              (λ o l h'. report_send-Safe o l h'))
      ]

module _ {Q : Type 0} (os : Os) (stx : ServerContext Q) where
  valid-mapped :
      (a : ℤ)
      → is_valid_client stx a ≡ true
      → (fd i : ℕ) × (a ≡ pos fd) × (stx.client_map fd ≡ some i)
  unfolding is_valid_client
  valid-mapped (negsuc n) h = absurd (cc)
  valid-mapped (pos fd) h = elim (Bool-cases (leb max_fd_limit fd)) [
    | inl large ↦ cc (rw large at h)
    | inr small ↦ elim (Option-cases (stx.client_map fd)) [
      | inl unknown ↦ cc (rw (small, unknown) at h)
      | inr (i, known) ↦ (fd, i, refl, known)
    ]
  ]

  addressed-valid :
      (exclude a : ℤ) → is_addressed os stx exclude a ≡ true → is_valid_client stx a ≡ true
  unfolding is_addressed
  addressed-valid exclude a h = elim (Bool-cases (is_neg a || eqb_ℤ a exclude)) [
    | inl not_sent ↦ cc (rw not_sent at h)
    | inr goes ↦ rw goes at h
  ]

  valid_send-Safe :
      (a : ℤ) (type : ℕ) (payload : Option (List ℕ)) (n : ℕ) (log : List Event)
      → is_valid_client stx a ≡ true
      → Safe stx.client_map log
      → Leaves (Safe stx.client_map) (internal_send_frame os a type payload n log)
  valid_send-Safe a type payload n log valid h =
      let (fd, i, e, known) = valid-mapped a valid in
      rw e (internal_send_frame-Safe stx.client_map os fd i type payload n log known h)

  broadcast_loop-Safe :
      (exclude : ℤ) (type : ℕ) (payload : Option (List ℕ)) (n rounds i : ℕ) (log : List Event)
      → Safe stx.client_map log
      → Leaves (Safe stx.client_map) (broadcast_loop os stx exclude type payload n rounds i log)
  unfolding broadcast_loop
  broadcast_loop-Safe exclude type payload n zero i log h = h
  broadcast_loop-Safe exclude type payload n (suc rounds) i log h =
      bind-Leaves (Safe stx.client_map) _ _
        (elim (Bool-cases (is_addressed os stx exclude (stx.pollers i).fd)) [
          | inl yes_addr ↦ rw yes_addr (
              valid_send-Safe (stx.pollers i).fd type payload n log
                (addressed-valid exclude (stx.pollers i).fd yes_addr) h)
          | inr no_addr ↦ rw no_addr h
        ])
        (λ log' h'. broadcast_loop-Safe exclude type payload n rounds (i + 1) log' h')

module _ {Q : Type 0} (os : Os) where
  run_command-Safe :
      (stx : ServerContext Q) (cmd : Command)
      → Safe stx.client_map stx.log
      → Leaves (Safe stx.client_map) (run_command os stx cmd)
  unfolding run_command
  run_command-Safe stx (send_message fd type payload n) h =
      elim (Bool-cases (is_valid_client stx fd)) [
        | inl valid ↦ rw valid (valid_send-Safe os stx fd type payload n stx.log valid h)
        | inr gone ↦ rw gone h
      ]
  run_command-Safe stx (broadcast_message type payload n exclude) h =
      broadcast_loop-Safe os stx exclude type payload n stx.max_clients first_slot stx.log h

  -- So the walk through the queued commands keeps a proper log proper.
  pub run_all-Safe :
      (stx : ServerContext Q) (cmds : List Command) (log : List Event)
      → Safe stx.client_map log
      → Leaves (Safe stx.client_map) (run_all os stx cmds log)
  unfolding run_all
  run_all-Safe stx [] log h = h
  run_all-Safe stx (cmd ∷ cmds) log h =
      bind-Leaves (Safe stx.client_map) _ _ (run_command-Safe (record stx { log = log }) cmd h)
        (λ log' h'. run_all-Safe stx cmds log' h')
