-- ===== src/Server/Threads/Kept.antt =====
-- What holds between the threads, after a step that leaves the queue alone, and after a push.
use mogakso.Server.Threads.{Producer, LoopPoint, Shared, with_queue, contents_of}
use mogakso.Server.State.{Fifo}
use mogakso.Common.{All-snoc, ℕ, ◌≡◌, sym, ap, ◌∙◌, [], ◌∷◌, ◌++◌, append_assoc}
use mogakso.Server.Commands.Process.{IsSound}
use mogakso.Server.Threads.Invariant.{in_hand, SoundPoint, SoundProducer, Signalled, IsOrderly}
use mogakso.Command.{Command}

module _ {Q : Type 0} (fifo : Fifo Q) where
  -- A step that leaves the queue and the two records alone.
  pub kept-IsOrderly :
      (m m' : Shared Q) (producers producers' : ℕ → Producer) (l0 l : LoopPoint)
      → m'.stx.command_queue ≡ m.stx.command_queue
      → m'.ran ≡ m.ran
      → m'.queued ≡ m.queued
      → in_hand l0 ≡ in_hand l
      → SoundPoint l
      → ((i : ℕ) → SoundProducer (producers' i))
      → Signalled (contents_of fifo m) m'.pipe m'.missed producers' l
      → IsOrderly fifo m producers l0
      → IsOrderly fifo m' producers' l
  kept-IsOrderly m m' producers producers' l0 l queue ran queued hand sound all woken inv = record {
    order = rw (queue, ran, queued, sym hand) inv.order;
    sound_queue = rw queue inv.sound_queue;
    sound_point = sound;
    sound_producers = all;
    woken = rw queue woken;
  }

  -- A push that the queue takes.
  pub pushed-IsOrderly :
      (m : Shared Q) (cmd : Command) (producers producers' : ℕ → Producer) (l0 l : LoopPoint)
      → fifo.contents (fifo.push m.stx.command_queue cmd) ≡ contents_of fifo m ++ cmd ∷ []
      → IsSound cmd
      → in_hand l0 ≡ in_hand l
      → SoundPoint l
      → ((i : ℕ) → SoundProducer (producers' i))
      → Signalled (fifo.contents (fifo.push m.stx.command_queue cmd)) m.pipe m.missed producers' l
      → IsOrderly fifo m producers l0
      → IsOrderly fifo
          (record (with_queue m (fifo.push m.stx.command_queue cmd)) {
            queued = m.queued ++ cmd ∷ [];
          })
          producers'
          l
  pushed-IsOrderly m cmd producers producers' l0 l e fits hand sound all woken inv = record {
    order =
        rw (e, sym hand)
          (ap (λ l. m.ran ++ l) (sym (append_assoc (in_hand l0) (contents_of fifo m) (cmd ∷ [])))
            ∙ sym (append_assoc m.ran (in_hand l0 ++ contents_of fifo m) (cmd ∷ []))
            ∙ ap (λ l. l ++ cmd ∷ []) inv.order);
    sound_queue = rw e (All-snoc IsSound (contents_of fifo m) cmd inv.sound_queue fits);
    sound_point = sound;
    sound_producers = all;
    woken = woken;
  }

  -- A push for which there was no memory.
  pub dropped-IsOrderly :
      (m : Shared Q) (q : Q) (producers producers' : ℕ → Producer) (l0 l : LoopPoint)
      → fifo.contents q ≡ contents_of fifo m
      → in_hand l0 ≡ in_hand l
      → SoundPoint l
      → ((i : ℕ) → SoundProducer (producers' i))
      → Signalled (fifo.contents q) m.pipe m.missed producers' l
      → IsOrderly fifo m producers l0
      → IsOrderly fifo (with_queue m q) producers' l
  dropped-IsOrderly m q producers producers' l0 l e hand sound all woken inv = record {
    order = rw (e, sym hand) inv.order;
    sound_queue = rw e inv.sound_queue;
    sound_point = sound;
    sound_producers = all;
    woken = woken;
  }
