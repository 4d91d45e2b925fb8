-- ===== src/Server/Commands/Process.antt =====
-- `_process_commands` as a loop: it empties the queue, and changes nothing but the queue.
use mogakso.Server.Commands.SendFrame.{internal_send_frame-Delivers, internal_send_frame-drops}
use mogakso.Os.{Event, SameOpen, Os, Sane}
use mogakso.Common.{
  Bool-cases, lt_eq_gt, length, All, ℤ, pos, negsuc, Run, done, ◌>>=◌, ℕ, zero, suc, ◌+◌, ◌^◌, ◌<◌,
  ◌≡◌, refl, ap, ◌∙◌, inl, inr, Option, none, some, List, [], ◌∷◌, arith,
}
use mogakso.Command.{Command, send_message, broadcast_message}
use mogakso.Server.State.{Fifo, ServerContext, first_slot}
use mogakso.Server.Commands.{
  internal_send_frame, is_addressed, broadcast_loop, run_command, process_popped, process_commands,
}
use mogakso.Server.Slots.{is_valid_client}

-- A payload is NULL, or as long as is said and shorter than 2 ^ 63 bytes.
abbrev pub SoundPayload : Option (List ℕ) → ℕ → Type 0
SoundPayload none n = Unit
SoundPayload (some bytes) n = (n ≡ length bytes) × (length bytes < 2 ^ 63)

abbrev pub IsSound : Command → Type 0
IsSound (send_message fd type payload n) = SoundPayload payload n
IsSound (broadcast_message type payload n exclude) = SoundPayload payload n

-- It ends, and neither opens nor closes a descriptor.
abbrev pub Returns : List Event → Run (List Event) → Type 0
Returns log r = (log' : List Event) × (r ≡ done log') × SameOpen log log'

bind-Returns :
    (log : List Event) (r : Run (List Event)) (k : List Event → Run (List Event))
    → Returns log r
    → ((log' : List Event) → Returns log' (k log'))
    → Returns log (r >>= k)
bind-Returns log r k (log', e, same) go =
    let (log'', e', same') = go log' in (log'', ap (λ x. x >>= k) e ∙ e', λ fd. same' fd ∙ same fd)

module _ (os : Os) (sane : Sane os) where
  some-Returns :
      (fd type : ℕ) (bytes : List ℕ) (log : List Event)
      → length bytes < 2 ^ 63
      → Returns log (internal_send_frame os (pos fd) type (some bytes) (length bytes) log)
  some-Returns fd type bytes log bound = elim (lt_eq_gt (length bytes) 4092) [
    | inl lt ↦
        let d = internal_send_frame-Delivers os fd type bytes log sane (omega arith) in
        (d.log', d.ends, d.same_open)
    | inr (inl e) ↦
        (_, (internal_send_frame-drops os fd type bytes log (omega arith) bound).0, λ g. refl)
    | inr (inr gt) ↦
        (_, (internal_send_frame-drops os fd type bytes log (omega arith) bound).0, λ g. refl)
  ]

  internal_send_frame-Returns :
      (a : ℤ) (type : ℕ) (payload : Option (List ℕ)) (n : ℕ) (log : List Event)
      → SoundPayload payload n
      → Returns log (internal_send_frame os a type payload n log)
  unfolding internal_send_frame
  internal_send_frame-Returns a type none n log h = (_, refl, λ g. refl)
  internal_send_frame-Returns (negsuc m) type (some bytes) n log h = (_, refl, λ g. refl)
  internal_send_frame-Returns (pos fd) type (some bytes) n log h =
      rw h.0 (some-Returns fd type bytes log h.1)

module _ {Q : Type 0} (os : Os) (sane : Sane os) where
  broadcast_loop-Returns :
      (stx : ServerContext Q) (exclude : ℤ) (type : ℕ) (payload : Option (List ℕ)) (n : ℕ)
      → SoundPayload payload n
      → (rounds i : ℕ) (log : List Event)
      → Returns log (broadcast_loop os stx exclude type payload n rounds i log)
  unfolding broadcast_loop
  broadcast_loop-Returns stx exclude type payload n h zero i log = (log, refl, λ g. refl)
  broadcast_loop-Returns stx exclude type payload n h (suc rounds) i log =
      bind-Returns log _ _
        (elim (Bool-cases (is_addressed os stx exclude (stx.pollers i).fd)) [
          | inl yes_addr ↦ rw yes_addr (internal_send_frame-Returns os sane _ type payload n log h)
          | inr not_addr ↦ rw not_addr (log, refl, λ g. refl)
        ])
        (broadcast_loop-Returns stx exclude type payload n h rounds (i + 1))

  pub run_command-Returns :
      (stx : ServerContext Q) (cmd : Command)
      → IsSound cmd
      → Returns stx.log (run_command os stx cmd)
  unfolding run_command
  run_command-Returns stx (send_message fd type payload n) h =
      elim (Bool-cases (is_valid_client stx fd)) [
        | inl valid ↦ rw valid (internal_send_frame-Returns os sane fd type payload n stx.log h)
        | inr gone ↦ rw gone (stx.log, refl, λ g. refl)
      ]
  run_command-Returns stx (broadcast_message type payload n exclude) h =
      broadcast_loop-Returns stx exclude type payload n h stx.max_clients first_slot stx.log

  -- As many rounds as there are commands are enough: `_process_commands` ends without a fault on
  -- commands whose payloads are sound, leaves the queue empty, changes nothing of the context but
  -- the queue and the log, and opens and closes no descriptor.
  pub process_commands-empties :
      (fifo : Fifo Q) (cmds : List Command) (stx : ServerContext Q)
      → fifo.contents stx.command_queue ≡ cmds
      → All IsSound cmds
      → (q : Q) × (log : List Event) × (process_commands os fifo (length cmds) stx
          ≡ done (record stx { command_queue = q; log = log }))
        × (fifo.contents q ≡ [])
        × SameOpen stx.log log
  unfolding process_commands process_popped
  process_commands-empties fifo [] stx e h =
      rw (fifo.is_empty_nil stx.command_queue e) (stx.command_queue, stx.log, refl, e, λ g. refl)
  process_commands-empties fifo (cmd ∷ cmds) stx e h =
      let (got, rest) = fifo.pop_cons stx.command_queue cmd cmds e in
      let q1 = (fifo.pop stx.command_queue).1 in
      let (log1, ran, same1) = run_command-Returns (record stx { command_queue = q1 }) cmd h.0 in
      let (q, log, ends, empty, same) =
        process_commands-empties fifo cmds (record stx { command_queue = q1; log = log1 }) rest
          h.1 in
      (
        q,
        log,
        rw (fifo.is_empty_cons stx.command_queue cmd cmds e, got, ran) ends,
        empty,
        λ fd. same fd ∙ same1 fd,
      )
