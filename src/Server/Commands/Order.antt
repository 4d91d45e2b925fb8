-- ===== src/Server/Commands/Order.antt =====
-- `_process_commands` against a plain walk through the queued commands.
use mogakso.Server.Commands.Process.{IsSound, run_command-Returns}
use mogakso.Server.Slots.{is_valid_client}
use mogakso.Server.State.{Fifo, ServerContext, first_slot}
use mogakso.Os.{Event, Os, Sane}
use mogakso.Command.{Command, send_message, broadcast_message}
use mogakso.Server.Commands.{
  internal_send_frame, is_addressed, broadcast_loop, run_command, process_popped, process_commands,
}
use mogakso.Common.{
  if◌then◌else◌, length, All, ℤ, Run, done, ◌>>=◌, ℕ, zero, suc, ◌+◌, ◌≡◌, refl, sym, ap, ◌∙◌,
  fun_ext, Option, List, [], ◌∷◌,
}

module _ {Q : Type 0} (os : Os) where
  -- The commands one after the other, in a context that stays; what each does is in the log.
  unfoldable pub run_all : ServerContext Q → List Command → List Event → Run (List Event)
  run_all stx [] log = done log
  run_all stx (cmd ∷ cmds) log = run_command os (record stx { log = log }) cmd >>= run_all stx cmds

  broadcast_loop-queue :
      (stx : ServerContext Q) (q : Q) (l : List Event) (exclude : ℤ) (type : ℕ)
      (payload : Option (List ℕ)) (n rounds i : ℕ) (log : List Event)
      → broadcast_loop os
          (record stx { command_queue = q; log = l })
          exclude
          type
          payload
          n
          rounds
          i
          log
        ≡ broadcast_loop os stx exclude type payload n rounds i log
  unfolding broadcast_loop is_addressed is_valid_client
  broadcast_loop-queue stx q l exclude type payload n zero i log = refl
  broadcast_loop-queue stx q l exclude type payload n (suc rounds) i log =
      ap
        (λ k.
          (if is_addressed os stx exclude (stx.pollers i).fd
            then internal_send_frame os (stx.pollers i).fd type payload n log
            else done log)
          >>= k)
        (fun_ext λ log'. broadcast_loop-queue stx q l exclude type payload n rounds (i + 1) log')

  -- What the queue still holds makes no difference to a command.
  run_command-queue :
      (stx : ServerContext Q) (q : Q) (l : List Event) (cmd : Command)
      → run_command os (record stx { command_queue = q; log = l }) cmd
        ≡ run_command os (record stx { log = l }) cmd
  unfolding run_command is_valid_client
  run_command-queue stx q l (send_message fd type payload n) = refl
  run_command-queue stx q l (broadcast_message type payload n exclude) =
      broadcast_loop-queue stx q l exclude type payload n stx.max_clients first_slot l
      ∙ sym (
          broadcast_loop-queue stx stx.command_queue l exclude type payload n stx.max_clients
            first_slot l)

  -- `_process_commands` does what a walk through the queued commands in the order of the queue does:
  -- on sound payloads both end without a fault, with the same log, and the queue is empty.
  pub process_commands-ordered :
      (sane : Sane os) (fifo : Fifo Q) (cmds : List Command) (stx : ServerContext Q)
      → fifo.contents stx.command_queue ≡ cmds
      → All IsSound cmds
      → (q : Q) × (log : List Event) × (run_all stx cmds stx.log ≡ done log)
        × (process_commands os fifo (length cmds) stx
            ≡ done (record stx { command_queue = q; log = log }))
        × (fifo.contents q ≡ [])
  unfolding run_all process_commands process_popped
  process_commands-ordered sane fifo [] stx e h =
      rw (fifo.is_empty_nil stx.command_queue e) (stx.command_queue, stx.log, refl, refl, e)
  process_commands-ordered sane fifo (cmd ∷ cmds) stx e h =
      let (got, rest) = fifo.pop_cons stx.command_queue cmd cmds e in
      let q1 = (fifo.pop stx.command_queue).1 in
      let (log1, ran, same1) =
        run_command-Returns os sane (record stx { command_queue = q1 }) cmd h.0 in
      let (q, log, walked, ends, empty) =
        process_commands-ordered sane fifo cmds (record stx { command_queue = q1; log = log1 }) rest
          h.1 in
      (
        q,
        log,
        ap (λ r. r >>= run_all stx cmds) (sym (run_command-queue stx q1 stx.log cmd) ∙ ran)
            ∙ (run_all-queue stx q1 log1 cmds log1 ∙ walked),
        rw (fifo.is_empty_cons stx.command_queue cmd cmds e, got, ran) ends,
        empty,
      )
    where
      run_all-queue :
          (stx : ServerContext Q) (q : Q) (l : List Event) (cs : List Command) (log : List Event)
          → run_all stx cs log ≡ run_all (record stx { command_queue = q; log = l }) cs log
      run_all-queue stx q l [] log = refl
      run_all-queue stx q l (c ∷ cs) log =
          ap (λ r. r >>= run_all stx cs) (sym (run_command-queue stx q log c))
          ∙ ap (λ k. run_command os (record stx { command_queue = q; log = log }) c >>= k)
              (fun_ext λ log'. run_all-queue stx q l cs log')
