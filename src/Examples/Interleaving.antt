-- ===== src/Examples/Interleaving.antt =====
-- Two threads that call the API while the event loop runs.
use mogakso.Server.Threads.{
  idle, made, pushed, at_check, at_rest, at_null, Shared, System, contents_of, call_send,
  call_broadcast, push_command, write_byte, poll_command, read_bytes, find_more, find_empty,
  pop_command, finish_command, finish_turn, produce, turn, callback, Reach, start, later,
}
use mogakso.Server.Threads.Sequential.{LoopSteps, process_commands-LoopSteps}
use mogakso.Server.Commands.{run_command, process_commands}
use mogakso.Command.Blocks.{create_command-copies}
use mogakso.Server.Threads.Drains.{Drains, Reach-in_order, quiet-ran, quiet-Drains}
use mogakso.Server.State.{ServerContext}
use mogakso.Server.Commands.Process.{
  IsSound, Returns, run_command-Returns, process_commands-empties,
}
use mogakso.Server.Threads.Invariant.{in_hand}
use mogakso.Examples.Fixtures.{obliging, obliging-Sane, list_fifo, one_client}
use mogakso.Command.{Command, broadcast_message}
use mogakso.Common.{
  pos, negsuc, done, ℕ, zero, suc, ◌≡◌, refl, ◌≢◌, some, List, [], ◌∷◌, ◌++◌, arith,
}

-- With memory for every command, and a pipe of 16 bytes.
abbrev Reached : Type 0
Reached = (s : System (List Command)) × Reach obliging list_fifo 16 one_client s

-- Thread 0 sends to the client, thread 1 broadcasts; thread 1 pushes first and signals first.
abbrev two_calls : Reached
two_calls =
    let sends = (create_command-copies (pos 7) 1 (104 ∷ []) 1 (omega arith)).0 in
    let broadcasts = (create_command-copies (negsuc 0) 1 (105 ∷ []) 1 (omega arith)).1 in
    let r0 : Reach obliging list_fifo 16 one_client _ = start refl in
    let r1 =
      later r0 (produce 0 (call_send (pos 7) 1 1 (104 ∷ []) (omega arith) (omega arith) sends)) in
    let r2 = later r1 (
      produce 1
        (call_broadcast (negsuc 0) 1 1 (105 ∷ []) (omega arith) (omega arith) broadcasts)) in
    let r3 = later r2 (produce 1 (push_command refl)) in
    let r4 = later r3 (produce 0 (push_command refl)) in
    (_, later r4 (produce 1 (write_byte (omega arith))))

-- The loop reads the one byte and pops the first command.
abbrev first_popped : Reached
first_popped =
    let r0 = later two_calls.1 (turn (poll_command refl (omega arith))) in
    let r1 = later r0 (turn (read_bytes {n = 1} (omega arith) (omega arith) (omega arith))) in
    let r2 = later r1 (turn (find_more refl)) in (_, later r2 (turn (pop_command refl)))

-- What a command adds to the log.
abbrev one_run :
    (stx : ServerContext (List Command)) (cmd : Command)
    → IsSound cmd
    → Returns stx.log (run_command obliging stx cmd)
one_run stx cmd h = run_command-Returns obliging obliging-Sane stx cmd h

-- Both are run on that signal; then thread 0 signals too.
abbrev both_run : Reached
both_run =
    let r0 = later first_popped.1 (turn (finish_command (one_run _ _ (refl, omega arith)).1)) in
    let r1 = later r0 (turn (find_more refl)) in
    let r2 = later r1 (turn (pop_command refl)) in
    let r3 = later r2 (turn (finish_command (one_run _ _ (refl, omega arith)).1)) in
    let r4 = later r3 (turn (find_empty refl)) in
    (_, later r4 (produce 0 (write_byte (omega arith))))

-- A callback of the loop answers the client through the API.
abbrev answered : Reached
answered =
    let sends = (create_command-copies (pos 7) 1 (106 ∷ []) 1 (omega arith)).0 in
    let r0 = later both_run.1 (
      callback {p = idle} refl
        (call_send (pos 7) 1 1 (106 ∷ []) (omega arith) (omega arith) sends)) in
    let r1 = later r0 (callback {p = made _} refl (push_command refl)) in
    (_, later r1 (callback {p = pushed} refl (write_byte (omega arith))))

-- The next turn reads both signals and runs the answer.
abbrev answer_run : Reached
answer_run =
    let r0 = later answered.1 (turn (finish_turn answered.0.mem.stx refl)) in
    let r1 = later r0 (turn (poll_command refl (omega arith))) in
    let r2 = later r1 (turn (read_bytes {n = 2} (omega arith) (omega arith) (omega arith))) in
    let r3 = later r2 (turn (find_more refl)) in
    let r4 = later r3 (turn (pop_command refl)) in
    let r5 = later r4 (turn (finish_command (one_run _ _ (refl, omega arith)).1)) in
    (_, later r5 (turn (find_empty refl)))

abbrev all_quiet : Reached
all_quiet = (_, later answer_run.1 (turn (finish_turn answer_run.0.mem.stx refl)))

idle_again : (i : ℕ) → all_quiet.0.producers i ≡ idle
idle_again zero = refl
idle_again (suc zero) = refl
idle_again (suc (suc i)) = ground arith

Reach-in_order_example :
    (first_popped.0.mem.ran
        ++ (in_hand first_popped.0.loop ++ contents_of list_fifo first_popped.0.mem)
      ≡ first_popped.0.mem.queued)
    × (first_popped.0.loop ≢ at_null)
Reach-in_order_example = Reach-in_order obliging list_fifo 16 first_popped.1

quiet-ran_example :
    (all_quiet.0.mem.ran ≡ all_quiet.0.mem.queued) × (contents_of list_fifo all_quiet.0.mem ≡ [])
quiet-ran_example = quiet-ran obliging list_fifo 16 all_quiet.1 idle_again refl refl refl

idle_at_rest : (i : ℕ) → both_run.0.producers i ≡ idle
idle_at_rest zero = refl
idle_at_rest (suc zero) = refl
idle_at_rest (suc (suc i)) = ground arith

quiet-Drains_example : Drains obliging list_fifo both_run.0.mem both_run.0.loop
quiet-Drains_example =
    quiet-Drains obliging list_fifo 16 obliging-Sane both_run.1 idle_at_rest tt refl

-- One broadcast is queued, and the loop has read the byte.
abbrev about_to_check : Shared (List Command)
about_to_check = record {
  stx = record one_client {
    command_queue = broadcast_message 1 (some (105 ∷ [])) 1 (negsuc 0) ∷ [];
  };
  pipe = 0;
  shutdown = 0;
  missed = 0;
  queued = broadcast_message 1 (some (105 ∷ [])) 1 (negsuc 0) ∷ [];
  ran = [];
}

served :
    (stx' : ServerContext (List Command)) × (process_commands obliging list_fifo 1
        about_to_check.stx
      ≡ done stx')
served =
    let (q, log, ends, empty, same) =
      process_commands-empties obliging obliging-Sane list_fifo
        (broadcast_message 1 (some (105 ∷ [])) 1 (negsuc 0) ∷ []) about_to_check.stx refl
        ((refl, omega arith), tt) in
    (_, ends)

process_commands-LoopSteps_example :
    LoopSteps obliging list_fifo about_to_check at_check
      (record about_to_check {
        stx = served.0;
        ran = broadcast_message 1 (some (105 ∷ [])) 1 (negsuc 0) ∷ [];
      })
      at_rest
process_commands-LoopSteps_example =
    process_commands-LoopSteps obliging list_fifo 1 about_to_check served.0 served.1
