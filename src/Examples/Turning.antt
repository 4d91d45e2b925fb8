-- ===== src/Examples/Turning.antt =====
-- Threads that start and shut down a server, in some orders.
use mogakso.Server.State.{shutting_down, running, update}
use mogakso.Server.Turnover.Stopping.{Turned-running, Ends, Turned-Ends}
use mogakso.Common.{ℕ, zero, suc, ◌≡◌, refl, ap, ◌≢◌, Bool, true, false, arith}
use mogakso.Server.Turnover.{
  away, told, wrote, looping, ended, start_loop, tell, write_stop, join_loop, read_stop, fail_poll,
  write_stopped, Operation, by_stopper, by_loop, Turned, first, next_turn,
}
use mogakso.Server.Turnover.OneLoop.{is_live, Turned-one_loop}

-- Thread 0 starts the server.
abbrev Started : Bool → Type 0
Started may_fail =
    (s : Operation) × Turned may_fail s × (s.server.state ≡ running) × (s.server.loops 0 ≡ looping)

up : (may_fail : Bool) → Started may_fail
up may_fail = (_, next_turn first (by_stopper 0 (start_loop refl)), refl, refl)

Turned-one_loop_example : ◌≡◌ {A = ℕ} 0 0
Turned-one_loop_example =
    Turned-one_loop (up true).1 0 0 (ap is_live (up true).3) (ap is_live (up true).3)

Turned-running_example :
    ((up false).0.server.stop_bytes ≡ 0)
    × ((i : ℕ) → (up false).0.stoppers i ≢ told)
    × ((k : ℕ) × (suc k ≡ (up false).0.server.created_threads)
        × ((up false).0.server.loops k ≡ looping))
Turned-running_example = Turned-running (up false).1 (up false).2

-- Thread 1 has written the byte.
stopping :
    (s : Operation) × Turned false s
    × (s.server.state ≡ shutting_down)
    × ((i : ℕ) → s.stoppers i ≢ told)
stopping = (
  _,
  next_turn
      (next_turn (next_turn first (by_stopper 0 (start_loop refl))) (by_stopper 1 (tell refl)))
      (by_stopper 1 write_stop),
  refl,
  nobody,
)
  where
    nobody : (i : ℕ) → update (update (update (λ j. away) 0 away) 1 told) 1 wrote i ≢ told
    nobody zero e = cc e
    nobody (suc zero) e = cc e
    nobody (suc (suc i)) e = ground arith

Turned-Ends_example : (k : ℕ) × Ends stopping.0.server k (stopping.0.server.loops k)
Turned-Ends_example = Turned-Ends stopping.1 stopping.2 stopping.3

-- If `poll` fails after `server_shutdown` has written the state and before it writes the byte, the
-- byte stays in the pipe: the next server that is started finds it, though nobody shuts it down.
stale_byte :
    (s : Operation) × Turned true s
    × (s.server.state ≡ running)
    × (s.server.stop_bytes ≡ 1)
    × (s.stoppers 1 ≡ away)
stale_byte =
    let r0 = next_turn first (by_stopper 0 (start_loop refl)) in
    let r1 : Turned true _ = next_turn r0 (by_stopper 1 (tell refl)) in
    let r2 = next_turn r1 (by_loop 0 (fail_poll refl)) in
    let r3 = next_turn r2 (by_loop 0 write_stopped) in
    let r4 = next_turn r3 (by_stopper 1 write_stop) in
    let r5 = next_turn r4 (by_stopper 1 (join_loop refl)) in
    (_, next_turn r5 (by_stopper 0 (start_loop refl)), refl, refl, refl)

-- A server that is started again before `server_shutdown` calls `pthread_join`: the call waits for
-- the new thread, which nobody has told to stop.
other_thread :
    (s : Operation) × Turned false s
    × (s.server.state ≡ running)
    × (s.stoppers 1 ≡ wrote)
    × (s.server.loops 0 ≡ ended)
    × (s.server.loops 1 ≡ looping)
other_thread =
    let r0 = next_turn first (by_stopper 0 (start_loop refl)) in
    let r1 : Turned false _ = next_turn r0 (by_stopper 1 (tell refl)) in
    let r2 = next_turn r1 (by_stopper 1 write_stop) in
    let r3 = next_turn r2 (by_loop 0 (read_stop (omega arith))) in
    let r4 = next_turn r3 (by_loop 0 write_stopped) in
    (_, next_turn r4 (by_stopper 0 (start_loop refl)), refl, refl, refl, refl)
