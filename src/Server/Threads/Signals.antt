-- ===== src/Server/Threads/Signals.antt =====
-- The commands that the API makes, and what a step of one thread leaves of the promise of a signal.
use mogakso.Server.Threads.{
  Producer, idle, pushed, LoopPoint, at_poll, at_read, at_check, at_pop, at_command, at_rest,
  at_push, at_write, at_failed, at_end, at_null,
}
use mogakso.Command.Blocks.{create_command-copies}
use mogakso.Server.Commands.Process.{SoundPayload, IsSound}
use mogakso.Server.State.{update}
use mogakso.Server.Threads.Invariant.{SoundProducer, Promised, Signalled}
use mogakso.Command.{
  Command, send_message, broadcast_message, create_send_command, create_broadcast_command,
}
use mogakso.Common.{
  ltb, ◌==◌, if◌then◌else◌, eq→==, Bool-cases, length, take, length-take, ℤ, done, ℕ, ◌+◌, ◌^◌, ◌≤◌,
  ◌<◌, ◌≡◌, refl, ap, subst, ◌≢◌, inl, inr, true, none, some, List, [], ◌∷◌, ◌++◌, arith,
}

kept-SoundPayload :
    (payload : List ℕ) (len : ℕ)
    → len ≤ length payload
    → len < 2 ^ 63
    → SoundPayload (if ltb 0 len then some (take len payload) else none) len
kept-SoundPayload payload len held small = elim (Bool-cases (ltb 0 len)) [
  | inl bytes ↦
      rw bytes (omega (arith, length-take len payload), omega (arith, length-take len payload))
  | inr empty ↦ rw empty tt
]

-- What the constructors of commands return has a sound payload.
pub send-IsSound :
    (fd : ℤ) (type len : ℕ) (payload : List ℕ) (cmd : Command)
    → len ≤ length payload
    → len < 2 ^ 63
    → create_send_command true true fd type (some payload) len ≡ done (some cmd)
    → IsSound cmd
send-IsSound fd type len payload cmd held small e =
    let same : send_message fd type (if ltb 0 len then some (take len payload) else none) len
        ≡ cmd =
      cc ((create_command-copies fd type payload len held).0, e) in
    subst IsSound same (kept-SoundPayload payload len held small)

pub broadcast-IsSound :
    (exclude : ℤ) (type len : ℕ) (payload : List ℕ) (cmd : Command)
    → len ≤ length payload
    → len < 2 ^ 63
    → create_broadcast_command true true type (some payload) len exclude ≡ done (some cmd)
    → IsSound cmd
broadcast-IsSound exclude type len payload cmd held small e =
    let same : broadcast_message type (if ltb 0 len then some (take len payload) else none) len
          exclude
        ≡ cmd =
      cc ((create_command-copies exclude type payload len held).1, e) in
    subst IsSound same (kept-SoundPayload payload len held small)

kept_promise :
    (before after : ℕ → Producer) (pipe missed : ℕ)
    → ((j : ℕ) → before j ≡ pushed → after j ≡ pushed)
    → Promised pipe missed before
    → Promised pipe missed after
kept_promise before after pipe missed kept (inl bytes) = inl bytes
kept_promise before after pipe missed kept (inr (j, e)) = inr (j, kept j e)

-- The command pipe stays as it is while a thread enters a call.
pub call-Signalled :
    (loop : LoopPoint) (cmds : List Command) (pipe missed : ℕ) (before after : ℕ → Producer)
    → ((j : ℕ) → before j ≡ pushed → after j ≡ pushed)
    → Signalled cmds pipe missed before loop
    → Signalled cmds pipe missed after loop
call-Signalled at_poll cmds pipe missed before after kept h =
    λ ne. kept_promise before after pipe missed kept (h ne)
call-Signalled at_rest cmds pipe missed before after kept h =
    λ ne. kept_promise before after pipe missed kept (h ne)
call-Signalled (at_push cmd) cmds pipe missed before after kept h =
    λ ne. kept_promise before after pipe missed kept (h ne)
call-Signalled at_read cmds pipe missed before after kept h = h
call-Signalled at_check cmds pipe missed before after kept h = h
call-Signalled at_pop cmds pipe missed before after kept h = h
call-Signalled (at_command cmd) cmds pipe missed before after kept h = h
call-Signalled at_write cmds pipe missed before after kept h = h
call-Signalled at_failed cmds pipe missed before after kept h = h
call-Signalled at_end cmds pipe missed before after kept h = h
call-Signalled at_null cmds pipe missed before after kept h = h

pub push-Signalled :
    (loop : LoopPoint) (cmds cmds' : List Command) (pipe missed i : ℕ) (before after : ℕ → Producer)
    → after i ≡ pushed
    → (cmds ≢ [] → cmds' ≢ [])
    → Signalled cmds pipe missed before loop
    → Signalled cmds' pipe missed after loop
push-Signalled at_poll cmds cmds' pipe missed i before after e more h = λ ne. inr (i, e)
push-Signalled at_rest cmds cmds' pipe missed i before after e more h = λ ne. inr (i, e)
push-Signalled (at_push cmd) cmds cmds' pipe missed i before after e more h = λ ne. inr (i, e)
push-Signalled at_read cmds cmds' pipe missed i before after e more h = h
push-Signalled at_check cmds cmds' pipe missed i before after e more h = h
push-Signalled at_pop cmds cmds' pipe missed i before after e more h = more h
push-Signalled (at_command cmd) cmds cmds' pipe missed i before after e more h = h
push-Signalled at_write cmds cmds' pipe missed i before after e more h = h
push-Signalled at_failed cmds cmds' pipe missed i before after e more h = h
push-Signalled at_end cmds cmds' pipe missed i before after e more h = h
push-Signalled at_null cmds cmds' pipe missed i before after e more h = h

-- After a write, one more byte stands in the pipe, or one more write has failed.
pub write-Signalled :
    (loop : LoopPoint) (cmds : List Command) (pipe missed pipe' missed' : ℕ)
    (before after : ℕ → Producer)
    → pipe ≤ pipe'
    → pipe + missed < pipe' + missed'
    → Signalled cmds pipe missed before loop
    → Signalled cmds pipe' missed' after loop
write-Signalled at_poll cmds pipe missed pipe' missed' before after le lt h =
    λ ne. inl (omega arith)
write-Signalled at_rest cmds pipe missed pipe' missed' before after le lt h =
    λ ne. inl (omega arith)
write-Signalled (at_push cmd) cmds pipe missed pipe' missed' before after le lt h =
    λ ne. inl (omega arith)
write-Signalled at_read cmds pipe missed pipe' missed' before after le lt h = omega (arith, h)
write-Signalled at_check cmds pipe missed pipe' missed' before after le lt h = h
write-Signalled at_pop cmds pipe missed pipe' missed' before after le lt h = h
write-Signalled (at_command cmd) cmds pipe missed pipe' missed' before after le lt h = h
write-Signalled at_write cmds pipe missed pipe' missed' before after le lt h = h
write-Signalled at_failed cmds pipe missed pipe' missed' before after le lt h = h
write-Signalled at_end cmds pipe missed pipe' missed' before after le lt h = h
write-Signalled at_null cmds pipe missed pipe' missed' before after le lt h = h

-- What one thread becomes is sound if it was before.
pub update-SoundProducer :
    (producers : ℕ → Producer) (i : ℕ) (p : Producer)
    → SoundProducer p
    → ((j : ℕ) → SoundProducer (producers j))
    → (j : ℕ) → SoundProducer (update producers i p j)
update-SoundProducer producers i p h all j = elim (Bool-cases (i == j)) [
  | inl same ↦ rw same h
  | inr other ↦ rw other (all j)
]

pub update-same : (producers : ℕ → Producer) (i : ℕ) (p : Producer) → update producers i p i ≡ p
update-same producers i p = rw (eq→== i i refl)

-- A thread that was idle was not about to write.
pub keeps_pushed :
    (producers : ℕ → Producer) (i : ℕ) (p : Producer)
    → producers i ≡ idle
    → (j : ℕ) → producers j ≡ pushed
    → update producers i p j ≡ pushed
keeps_pushed producers i p at j e = elim (Bool-cases (i == j)) [
  | inl same ↦ let z : i ≡ j = ground arith in absurd (cc (ap producers z, at, e))
  | inr other ↦ rw other e
]

pub snoc-not_nil : (cmds : List Command) (cmd : Command) → cmds ++ cmd ∷ [] ≢ []
snoc-not_nil [] cmd e = cc
snoc-not_nil (c ∷ cmds) cmd e = cc
