-- ===== src/Server/Threads/Sequential.antt =====
use mogakso.Server.Threads.Moves.{found_empty}
use mogakso.Server.Commands.{run_command, process_popped, process_commands}
use mogakso.Server.State.{Fifo, ServerContext}
use mogakso.Os.{Event, Os}
use mogakso.Server.Threads.{
  LoopPoint, at_check, at_rest, Shared, contents_of, LoopMove, find_more, find_empty, pop_command,
  finish_command,
}
use mogakso.Common.{
  Bool-cases, List-cases, Run, done, fault, out_of_fuel, ◌>>=◌, ℕ, zero, suc, ◌≡◌, refl, sym, ap,
  ◌∙◌, subst, inl, inr, true, List, [], ◌∷◌, ◌++◌, append-nil, append_assoc,
}

-- `_process_commands` as one function and as the steps of the event loop's thread.

module _ {Q : Type 0} (os : Os) (fifo : Fifo Q) where
  -- Steps of the loop alone, one after the other.
  pub data LoopSteps : Shared Q → LoopPoint → Shared Q → LoopPoint → Type 0 where
    no_step : {m : Shared Q} {l : LoopPoint} → LoopSteps m l m l
    one_step :
        {m m1 m2 : Shared Q} {l l1 l2 : LoopPoint}
        → LoopMove os fifo m l m1 l1
        → LoopSteps m1 l1 m2 l2
        → LoopSteps m l m2 l2

module _ {Q : Type 0} (os : Os) (fifo : Fifo Q) where
  -- The loop's memory after a run of `_process_commands`.
  abbrev after_commands : Shared Q → ServerContext Q → Shared Q
  after_commands m stx' = record m { stx = stx'; ran = m.ran ++ contents_of fifo m }

  none_queued :
      (m : Shared Q) (stx' : ServerContext Q)
      → fifo.is_empty m.stx.command_queue ≡ true
      → m.stx ≡ stx'
      → LoopSteps os fifo m at_check (after_commands m stx') at_rest
  none_queued m stx' e same =
      subst (λ m'. LoopSteps os fifo m at_check m' at_rest) (same_memory (found_empty os fifo m e))
        (one_step (find_empty e) no_step)
    where
      same_memory : contents_of fifo m ≡ [] → m ≡ after_commands m stx'
      same_memory nil =
          ap (λ r. record m { ran = r }) (sym (append-nil m.ran) ∙ ap (λ cs. m.ran ++ cs) (sym nil))
          ∙ ap (λ x. record m { stx = x; ran = m.ran ++ contents_of fifo m }) same

  -- A command whose run goes on has ended.
  command_ended :
      (fuel : ℕ) (stx stx' : ServerContext Q) (q : Q) (r : Run (List Event))
      → (r
          >>= (λ log'. done (record stx { command_queue = q; log = log' }))
          >>= process_commands os fifo fuel)
        ≡ done stx'
      → (log' : List Event) × (r ≡ done log')
        × (process_commands os fifo fuel (record stx { command_queue = q; log = log' }) ≡ done stx')
  command_ended fuel stx stx' q (done log') e = (log', refl, e)
  command_ended fuel stx stx' q fault e = absurd (cc e)
  command_ended fuel stx stx' q out_of_fuel e = absurd (cc e)

  -- If `_process_commands` ends without a fault, the loop's thread, undisturbed, goes step by step
  -- from the emptiness test to the rest of the turn, with the same context, and has run what was in
  -- the queue.
  pub process_commands-LoopSteps :
      (fuel : ℕ) (m : Shared Q) (stx' : ServerContext Q)
      → process_commands os fifo fuel m.stx ≡ done stx'
      → LoopSteps os fifo m at_check
          (record m { stx = stx'; ran = m.ran ++ contents_of fifo m })
          at_rest
  unfolding process_commands process_popped
  process_commands-LoopSteps zero m stx' e = elim (Bool-cases (fifo.is_empty m.stx.command_queue)) [
    | inl empty ↦ none_queued m stx' empty (cc (rw empty at e))
    | inr more ↦ absurd (cc (rw more at e))
  ]
  process_commands-LoopSteps (suc fuel) m stx' e =
      elim (Bool-cases (fifo.is_empty m.stx.command_queue)) [
        | inl empty ↦ none_queued m stx' empty (cc (rw (empty, process_commands) at e))
        | inr more ↦ elim (List-cases (contents_of fifo m)) [
          | inl nil ↦ absurd (cc (fifo.is_empty_nil m.stx.command_queue nil, more))
          | inr (c, cs, z) ↦
              let (got, left) = fifo.pop_cons m.stx.command_queue c cs z in
              let q1 = (fifo.pop m.stx.command_queue).1 in
              let (log', ran, on) =
                command_ended fuel m.stx stx' q1
                  (run_command os (record m.stx { command_queue = q1 }) c)
                  (rw (more, process_commands, got) at e) in
              let m1 : Shared Q = record m {
                stx = record m.stx { command_queue = q1; log = log' };
                ran = m.ran ++ c ∷ [];
              } in
              let same : m1.ran ++ contents_of fifo m1 ≡ m.ran ++ contents_of fifo m =
                append_assoc m.ran (c ∷ []) (contents_of fifo m1)
                ∙ ap (λ l. m.ran ++ l) (ap (λ l. c ∷ l) left ∙ sym z) in
              one_step (find_more more) (
                one_step (pop_command got) (
                  one_step (finish_command ran) (
                    subst
                      (λ r.
                        LoopSteps os fifo m1 at_check (record m { stx = stx'; ran = r }) at_rest)
                      same (process_commands-LoopSteps fuel m1 stx' on))))
        ]
      ]
