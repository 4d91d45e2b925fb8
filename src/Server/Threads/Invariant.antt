-- ===== src/Server/Threads/Invariant.antt =====
-- What holds whenever the threads stop to be looked at.
use mogakso.Server.Threads.{
  Producer, made, pushed, LoopPoint, at_poll, at_read, at_pop, at_command, at_rest, at_push,
  at_null, Shared, contents_of,
}
use mogakso.Common.{All, ℕ, ◌+◌, ◌<◌, ◌≡◌, ◌≢◌, ◌⊎◌, List, [], ◌∷◌, ◌++◌}
use mogakso.Server.Commands.Process.{IsSound}
use mogakso.Server.State.{Fifo}
use mogakso.Command.{Command}

-- The command that the loop has popped and not yet run.
abbrev pub in_hand : LoopPoint → List Command
in_hand (at_command cmd) = cmd ∷ []
in_hand _ = []

abbrev pub SoundPoint : LoopPoint → Type 0
SoundPoint (at_command cmd) = IsSound cmd
SoundPoint (at_push cmd) = IsSound cmd
SoundPoint at_null = ⊥
SoundPoint _ = Unit

abbrev pub SoundProducer : Producer → Type 0
SoundProducer (made cmd) = IsSound cmd
SoundProducer _ = Unit

-- A signal for the queued commands stands in the pipe, is about to be written, or was lost.
abbrev pub Promised : ℕ → ℕ → (ℕ → Producer) → Type 0
Promised pipe missed producers = (0 < pipe + missed) ⊎ ((i : ℕ) × (producers i ≡ pushed))

-- What the loop's position says of the queue and the pipe.
abbrev pub Signalled : List Command → (pipe missed : ℕ) → (ℕ → Producer) → LoopPoint → Type 0
Signalled cmds pipe missed producers at_poll = cmds ≢ [] → Promised pipe missed producers
Signalled cmds pipe missed producers at_rest = cmds ≢ [] → Promised pipe missed producers
Signalled cmds pipe missed producers (at_push cmd) = cmds ≢ [] → Promised pipe missed producers
Signalled cmds pipe missed producers at_read = 0 < pipe
Signalled cmds pipe missed producers at_pop = cmds ≢ []
Signalled cmds pipe missed producers _ = Unit

pub record IsOrderly {Q : Type 0} (fifo : Fifo Q) (m : Shared Q) (producers : ℕ → Producer)
    (loop : LoopPoint) : Type 0 where
  pub order : m.ran ++ (in_hand loop ++ contents_of fifo m) ≡ m.queued
  pub sound_queue : All IsSound (contents_of fifo m)
  pub sound_point : SoundPoint loop
  pub sound_producers : (i : ℕ) → SoundProducer (producers i)
  pub woken : Signalled (contents_of fifo m) m.pipe m.missed producers loop
