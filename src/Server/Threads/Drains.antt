-- ===== src/Server/Threads/Drains.antt =====
-- What the threads around the command queue guarantee: commands run in the order in which they were
-- put into the queue, none stays behind, and none runs twice.
use mogakso.Server.Threads.Work.{
  OutOfCall, idle_or_busy, work, poll-quiet, move-work, move-calm, can_move,
}
use mogakso.Server.Threads.{
  Producer, idle, LoopPoint, at_poll, at_failed, at_end, at_null, Shared, System, contents_of,
  LoopMove, produce, turn, callback, request_shutdown, Reach, start, later,
}
use mogakso.Server.Threads.Moves.{produce-IsOrderly, callback-IsOrderly, turn-IsOrderly}
use mogakso.Server.State.{Fifo, ServerContext}
use mogakso.Os.{Os, Sane}
use mogakso.Server.Threads.Invariant.{in_hand, SoundPoint, IsOrderly}
use mogakso.Common.{ℕ, zero, suc, ◌<◌, ◌≡◌, refl, subst, ◌≢◌, ◌⊎◌, inl, inr, [], ◌++◌, arith}

module _ {Q : Type 0} (os : Os) (fifo : Fifo Q) where
  -- Every way in which the loop goes on comes back to `poll` with nothing left to do, or leaves the
  -- loop.
  pub data Drains : Shared Q → LoopPoint → Type 0 where
    drained :
        {m : Shared Q} {l : LoopPoint} → l ≡ at_poll → m.pipe ≡ 0 → m.ran ≡ m.queued → Drains m l
    left_loop : {m : Shared Q} {l : LoopPoint} → (l ≡ at_failed) ⊎ (l ≡ at_end) → Drains m l
    goes_on :
        {m : Shared Q} {l : LoopPoint}
        → ((m' : Shared Q) × (l' : LoopPoint) × LoopMove os fifo m l m' l')
        → ((m' : Shared Q) (l' : LoopPoint) → LoopMove os fifo m l m' l' → Drains m' l')
        → Drains m l

module _ {Q : Type 0} (os : Os) (fifo : Fifo Q) (sane : Sane os) (producers : ℕ → Producer)
    (quiet : (i : ℕ) → producers i ≡ idle) where
  drain :
      (fuel : ℕ) (m : Shared Q) (l : LoopPoint)
      → IsOrderly fifo m producers l
      → m.missed ≡ 0
      → OutOfCall l
      → work fifo m l < fuel
      → Drains os fifo m l
  drain zero m l inv calm out h = absurd (omega arith)
  drain (suc fuel) m l inv calm out h = elim (idle_or_busy l m.pipe) [
    | inl (at, dry) ↦
        drained at dry
          (poll-quiet fifo m producers (subst (IsOrderly fifo m producers) at inv) quiet dry calm).0
    | inr (inl left) ↦ left_loop left
    | inr (inr (busy, nf, ne)) ↦
        goes_on (can_move os fifo sane m producers l inv out nf ne) λ m' l' mv.
          drain fuel m' l' (turn-IsOrderly os fifo m producers l mv inv)
            (move-calm os fifo m l mv calm).0 (move-calm os fifo m l mv calm).1
            (omega (arith, move-work os fifo m producers l mv inv busy))
  ]

module _ {Q : Type 0} (os : Os) (fifo : Fifo Q) (capacity : ℕ) where
  pub Reach-IsOrderly :
      {stx : ServerContext Q} {s : System Q}
      → Reach os fifo capacity stx s
      → IsOrderly fifo s.mem s.producers s.loop
  Reach-IsOrderly {stx} (start e) = record {
    order = e;
    sound_queue = rw e tt;
    sound_point = tt;
    sound_producers = λ i. tt;
    woken = λ ne. absurd (ne e);
  }
  Reach-IsOrderly (later {s} r (produce i mv)) =
      produce-IsOrderly fifo capacity s.mem s.producers s.loop i (s.producers i) mv refl
        (Reach-IsOrderly r)
  Reach-IsOrderly (later {s} r (turn mv)) =
      turn-IsOrderly os fifo s.mem s.producers s.loop mv (Reach-IsOrderly r)
  Reach-IsOrderly (later {s} r (callback {p} at mv)) =
      callback-IsOrderly fifo capacity s.mem s.producers p mv
        (subst (IsOrderly fifo s.mem s.producers) at (Reach-IsOrderly r))
  Reach-IsOrderly (later {s} r request_shutdown) =
      let inv = Reach-IsOrderly r in
      record {
        order = inv.order;
        sound_queue = inv.sound_queue;
        sound_point = inv.sound_point;
        sound_producers = inv.sound_producers;
        woken = inv.woken;
      }

  -- Whatever the order in which the threads take their steps, the commands that were run, the one
  -- that the loop is about to run and those in the queue are together the commands that were put
  -- into the queue, each once and in that order; and the loop never dereferences a popped NULL.
  pub Reach-in_order :
      {stx : ServerContext Q} {s : System Q}
      → Reach os fifo capacity stx s
      → (s.mem.ran ++ (in_hand s.loop ++ contents_of fifo s.mem) ≡ s.mem.queued)
        × (s.loop ≢ at_null)
  Reach-in_order {s} r =
      let inv = Reach-IsOrderly r in (inv.order, λ e. subst SoundPoint e inv.sound_point)

  -- A wake-up is lost only with a failed write: when no thread is in a call of the API, the loop waits
  -- in `poll` with nothing in the command pipe, and no write into that pipe has failed since the loop
  -- last read from it, every command that was put into the queue has been run, those of the callbacks
  -- included.
  pub quiet-ran :
      {stx : ServerContext Q} {s : System Q}
      → Reach os fifo capacity stx s
      → ((i : ℕ) → s.producers i ≡ idle)
      → s.loop ≡ at_poll
      → s.mem.pipe ≡ 0
      → s.mem.missed ≡ 0
      → (s.mem.ran ≡ s.mem.queued) × (contents_of fifo s.mem ≡ [])
  quiet-ran {s} r quiet at dry calm =
      poll-quiet fifo s.mem s.producers
        (subst (IsOrderly fifo s.mem s.producers) at (Reach-IsOrderly r)) quiet dry calm

  -- From every state that the threads reach in which no thread and no callback is in a call of the API
  -- and no write into the command pipe has failed since the loop last read from it, the loop, as long
  -- as its callbacks make no further call, whatever it takes from the pipe at a time and whatever else
  -- it serves between two polls, cannot run on without end or get stuck: it comes back to `poll` with
  -- the pipe empty and every command run that was queued, or it is left, which it is only for a failed
  -- `poll` or a byte in the shutdown pipe. The system's answers are sane.
  pub quiet-Drains :
      (sane : Sane os) {stx : ServerContext Q} {s : System Q}
      → Reach os fifo capacity stx s
      → ((i : ℕ) → s.producers i ≡ idle)
      → OutOfCall s.loop
      → s.mem.missed ≡ 0
      → Drains os fifo s.mem s.loop
  quiet-Drains sane {stx} {s} r quiet out calm =
      drain os fifo sane s.producers quiet (suc (work fifo s.mem s.loop)) s.mem s.loop
        (Reach-IsOrderly r) calm out (omega arith)
