-- ===== src/Server/Threads/Moves.antt =====
-- Every step of the threads keeps what holds between them.
use mogakso.Server.Threads.Kept.{kept-IsOrderly, pushed-IsOrderly, dropped-IsOrderly}
use mogakso.Server.Threads.{
  Producer, idle, made, pushed, LoopPoint, at_poll, at_read, at_check, at_pop, at_command, at_rest,
  at_push, at_write, at_failed, at_end, Shared, with_queue, contents_of, ProducerMove, call_send,
  call_broadcast, push_command, push_dropped, write_byte, write_failed, in_call, LoopMove,
  poll_failed, poll_shutdown, poll_command, poll_other, read_bytes, find_more, find_empty,
  pop_command, pop_null, finish_command, finish_turn,
}
use mogakso.Server.State.{Fifo, update, handle_error}
use mogakso.Common.{
  All, List-cases, ℕ, ◌+◌, ◌≡◌, refl, sym, ◌∙◌, subst, inl, inr, true, some, List, [], ◌∷◌,
  append_assoc, arith,
}
use mogakso.Server.Threads.Signals.{
  send-IsSound, broadcast-IsSound, call-Signalled, push-Signalled, write-Signalled,
  update-SoundProducer, update-same, keeps_pushed, snoc-not_nil,
}
use mogakso.Server.Commands.Process.{IsSound}
use mogakso.Server.Threads.Invariant.{in_hand, SoundPoint, SoundProducer, Signalled, IsOrderly}
use mogakso.Os.{Os}
use mogakso.Command.{Command}

module _ {Q : Type 0} (fifo : Fifo Q) (capacity : ℕ) where
  call-IsOrderly :
      (m : Shared Q) (producers : ℕ → Producer) (loop : LoopPoint) (i : ℕ) (cmd : Command)
      → IsSound cmd
      → producers i ≡ idle
      → IsOrderly fifo m producers loop
      → IsOrderly fifo m (update producers i (made cmd)) loop
  call-IsOrderly m producers loop i cmd sound at inv =
      kept-IsOrderly fifo m m producers _ loop loop refl refl refl refl inv.sound_point
        (update-SoundProducer producers i (made cmd) sound inv.sound_producers)
        (call-Signalled loop (contents_of fifo m) m.pipe m.missed producers _
          (keeps_pushed producers i (made cmd) at) inv.woken)
        inv

  -- A producer's step, by the thread's index.
  pub produce-IsOrderly :
      (m : Shared Q) (producers : ℕ → Producer) (loop : LoopPoint) (i : ℕ) (p0 : Producer)
      {m' : Shared Q} {p : Producer}
      → ProducerMove fifo capacity m p0 m' p
      → producers i ≡ p0
      → IsOrderly fifo m producers loop
      → IsOrderly fifo m' (update producers i p) loop
  unfolding handle_error
  produce-IsOrderly m producers loop i p0 (call_send fd type len payload {cmd} held small e) at
        inv =
      call-IsOrderly m producers loop i cmd (send-IsSound fd type len payload cmd held small e) at
        inv
  produce-IsOrderly m producers loop i p0 (call_broadcast fd type len payload {cmd} held small e) at
        inv =
      call-IsOrderly m producers loop i cmd (broadcast-IsSound fd type len payload cmd held small e)
        at inv
  produce-IsOrderly m producers loop i p0 (push_command {cmd} e) at inv =
      pushed-IsOrderly fifo m cmd producers _ loop loop e
        (subst SoundProducer at (inv.sound_producers i)) refl inv.sound_point
        (update-SoundProducer producers i pushed tt inv.sound_producers)
        (push-Signalled loop (contents_of fifo m) _ m.pipe m.missed i producers _
          (update-same producers i pushed)
          (λ ne z. snoc-not_nil (contents_of fifo m) cmd (sym e ∙ z)) inv.woken)
        inv
  produce-IsOrderly m producers loop i p0 (push_dropped {cmd} e) at inv =
      dropped-IsOrderly fifo m _ producers _ loop loop e refl inv.sound_point
        (update-SoundProducer producers i pushed tt inv.sound_producers)
        (push-Signalled loop (contents_of fifo m) _ m.pipe m.missed i producers _
          (update-same producers i pushed) (λ ne z. ne (sym e ∙ z)) inv.woken)
        inv
  produce-IsOrderly m producers loop i p0 (write_byte room) at inv =
      kept-IsOrderly fifo m _ producers _ loop loop refl refl refl refl inv.sound_point
        (update-SoundProducer producers i idle tt inv.sound_producers)
        (write-Signalled loop (contents_of fifo m) m.pipe m.missed (m.pipe + 1) m.missed producers _
          (omega arith) (omega arith) inv.woken)
        inv
  produce-IsOrderly m producers loop i p0 (write_failed code) at inv =
      kept-IsOrderly fifo m _ producers _ loop loop refl refl refl refl inv.sound_point
        (update-SoundProducer producers i idle tt inv.sound_producers)
        (write-Signalled loop (contents_of fifo m) m.pipe m.missed m.pipe (m.missed + 1) producers _
          (omega arith) (omega arith) inv.woken)
        inv

  -- A step of the loop's thread in a callback's call of the API.
  pub callback-IsOrderly :
      (m : Shared Q) (producers : ℕ → Producer) (p0 : Producer) {m' : Shared Q} {p : Producer}
      → ProducerMove fifo capacity m p0 m' p
      → IsOrderly fifo m producers (in_call p0)
      → IsOrderly fifo m' producers (in_call p)
  unfolding handle_error
  callback-IsOrderly m producers p0 (call_send fd type len payload {cmd} held small e) inv =
      kept-IsOrderly fifo m m producers producers at_rest (at_push cmd) refl refl refl refl
        (send-IsSound fd type len payload cmd held small e) inv.sound_producers inv.woken inv
  callback-IsOrderly m producers p0 (call_broadcast fd type len payload {cmd} held small e) inv =
      kept-IsOrderly fifo m m producers producers at_rest (at_push cmd) refl refl refl refl
        (broadcast-IsSound fd type len payload cmd held small e) inv.sound_producers inv.woken inv
  callback-IsOrderly m producers p0 (push_command {cmd} e) inv =
      pushed-IsOrderly fifo m cmd producers producers (at_push cmd) at_write e inv.sound_point refl
        tt inv.sound_producers tt inv
  callback-IsOrderly m producers p0 (push_dropped {cmd} e) inv =
      dropped-IsOrderly fifo m _ producers producers (at_push cmd) at_write e refl tt
        inv.sound_producers tt inv
  callback-IsOrderly m producers p0 (write_byte room) inv =
      kept-IsOrderly fifo m _ producers producers at_write at_rest refl refl refl refl tt
        inv.sound_producers (λ ne. inl (omega arith)) inv
  callback-IsOrderly m producers p0 (write_failed code) inv =
      kept-IsOrderly fifo m _ producers producers at_write at_rest refl refl refl refl tt
        inv.sound_producers (λ ne. inl (omega arith)) inv

module _ {Q : Type 0} (os : Os) (fifo : Fifo Q) where
  -- The loop moves on, without a change to the queue.
  point-IsOrderly :
      (m m' : Shared Q) (producers : ℕ → Producer) (l0 l : LoopPoint)
      → m'.stx.command_queue ≡ m.stx.command_queue
      → m'.ran ≡ m.ran
      → m'.queued ≡ m.queued
      → in_hand l0 ≡ in_hand l
      → SoundPoint l
      → Signalled (contents_of fifo m) m'.pipe m'.missed producers l
      → IsOrderly fifo m producers l0
      → IsOrderly fifo m' producers l
  point-IsOrderly m m' producers l0 l queue ran queued hand sound woken inv =
      kept-IsOrderly fifo m m' producers producers l0 l queue ran queued hand sound
        inv.sound_producers woken inv

  pub found_empty :
      (m : Shared Q) → fifo.is_empty m.stx.command_queue ≡ true → contents_of fifo m ≡ []
  found_empty m e = elim (List-cases (contents_of fifo m)) [
    | inl none_left ↦ none_left
    | inr (c, cs, z) ↦ absurd (cc (fifo.is_empty_cons m.stx.command_queue c cs z, e))
  ]

  pop-IsOrderly :
      (m : Shared Q) (producers : ℕ → Producer) (cmd c : Command) (cs : List Command)
      → (fifo.pop m.stx.command_queue).0 ≡ some cmd
      → contents_of fifo m ≡ c ∷ cs
      → IsOrderly fifo m producers at_pop
      → IsOrderly fifo (with_queue m (fifo.pop m.stx.command_queue).1) producers (at_command cmd)
  pop-IsOrderly m producers cmd c cs e z inv =
      let (got, left) = fifo.pop_cons m.stx.command_queue c cs z in
      let same : c ≡ cmd = cc in
      let sound : All IsSound (c ∷ cs) = subst (All IsSound) z inv.sound_queue in
      record {
        order = rw (left, sym same, sym z) inv.order;
        sound_queue = rw left sound.1;
        sound_point = subst IsSound same sound.0;
        sound_producers = inv.sound_producers;
        woken = tt;
      }

  pub turn-IsOrderly :
      (m : Shared Q) (producers : ℕ → Producer) (l0 : LoopPoint) {m' : Shared Q} {l : LoopPoint}
      → LoopMove os fifo m l0 m' l
      → IsOrderly fifo m producers l0
      → IsOrderly fifo m' producers l
  unfolding handle_error
  turn-IsOrderly m producers l0 (poll_failed code) inv =
      point-IsOrderly m _ producers at_poll at_failed refl refl refl refl tt tt inv
  turn-IsOrderly m producers l0 (poll_shutdown {n} a b c) inv =
      point-IsOrderly m _ producers at_poll at_end refl refl refl refl tt tt inv
  turn-IsOrderly m producers l0 (poll_command no_end some_byte) inv =
      point-IsOrderly m m producers at_poll at_read refl refl refl refl tt some_byte inv
  turn-IsOrderly m producers l0 (poll_other no_end none_there) inv =
      point-IsOrderly m m producers at_poll at_rest refl refl refl refl tt inv.woken inv
  turn-IsOrderly m producers l0 (read_bytes {n} a b c) inv =
      point-IsOrderly m _ producers at_read at_check refl refl refl refl tt tt inv
  turn-IsOrderly m producers l0 (find_more e) inv =
      point-IsOrderly m m producers at_check at_pop refl refl refl refl tt
        (λ z. cc (fifo.is_empty_nil m.stx.command_queue z, e)) inv
  turn-IsOrderly m producers l0 (find_empty e) inv =
      point-IsOrderly m m producers at_check at_rest refl refl refl refl tt
        (λ ne. absurd (ne (found_empty m e))) inv
  turn-IsOrderly m producers l0 (pop_command {cmd} e) inv = elim (List-cases (contents_of fifo m)) [
    | inl none_left ↦ absurd (inv.woken none_left)
    | inr (c, cs, z) ↦ pop-IsOrderly m producers cmd c cs e z inv
  ]
  turn-IsOrderly m producers l0 (pop_null e) inv = elim (List-cases (contents_of fifo m)) [
    | inl none_left ↦ absurd (inv.woken none_left)
    | inr (c, cs, z) ↦ absurd (cc ((fifo.pop_cons m.stx.command_queue c cs z).0, e))
  ]
  turn-IsOrderly m producers l0 (finish_command {cmd} e) inv = record {
    order = append_assoc m.ran (cmd ∷ []) (contents_of fifo m) ∙ inv.order;
    sound_queue = inv.sound_queue;
    sound_point = tt;
    sound_producers = inv.sound_producers;
    woken = tt;
  }
  turn-IsOrderly m producers l0 (finish_turn stx' e) inv =
      point-IsOrderly m _ producers at_rest at_poll e refl refl refl tt inv.woken inv
