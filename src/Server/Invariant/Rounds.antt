-- ===== src/Server/Invariant/Rounds.antt =====
-- A turn of the event loop, its parts and its order, keeps what holds of the context.
use mogakso.Server.Invariant.Calm.{add_client-Calm}
use mogakso.Os.{Event, error_callback, SameOpen, Proper, Os, Sane}
use mogakso.Os.Keeps.{Leaves}
use mogakso.Server.Commands.Order.{process_commands-ordered}
use mogakso.Server.Commands.Keeps.{Safe, run_all-Safe}
use mogakso.Server.EventLoop.Retries.{Settles, read_signal-ends}
use mogakso.Server.Slots.Valid.{used}
use mogakso.Server.Slots.AddRemove.{IsValid-frame}
use mogakso.Server.Invariant.Clients.{ServesTo, serve_clients-ServesTo}
use mogakso.Server.Invariant.Accept.{add_client-IsGood}
use mogakso.Server.EventLoop.{
  Turn, poll_interrupted, poll_failed, polled, queued, Loop, waiting, finished, serve_commands,
  serve_listener, with_revents, serve_round, serve_turn,
}
use mogakso.Server.Commands.Process.{IsSound}
use mogakso.Server.Invariant.{IsGood, Quiet}
use mogakso.Common.{
  Bool-cases, All, All-snoc, pos, done, ℕ, zero, suc, ◌+◌, ◌≡◌, refl, sym, ◌∙◌, subst, inl, inr,
  List, ◌∷◌, arith,
}
use mogakso.Server.State.{Revents, Poller, Fifo, ServerContext, handle_error}

-- The payload of a command that another thread queues is as long as it says.
abbrev pub SoundTurn : Turn → Type 0
SoundTurn poll_interrupted = Unit
SoundTurn poll_failed = Unit
SoundTurn (polled events) = Unit
SoundTurn (queued cmd) = IsSound cmd

used-revents :
    (rounds i : ℕ) (p q : ℕ → Poller)
    → ((j : ℕ) → (p j).fd ≡ (q j).fd)
    → used rounds i p ≡ used rounds i q
unfolding used
used-revents zero i p q same = refl
used-revents (suc rounds) i p q same = rw (same i, used-revents rounds (i + 1) p q same)

module _ {Q : Type 0} (os : Os) (fifo : Fifo Q) (retries : ℕ) (sane : Sane os)
    (u : Settles os retries) where
  -- The loop waits, or has ended, in a good context with so many slots.
  abbrev pub GoodLoop : ℕ → Loop Q → Type 0
  GoodLoop m (waiting stx) = IsGood fifo stx × (stx.max_clients ≡ m)
  GoodLoop m (finished stx) = IsGood fifo stx × (stx.max_clients ≡ m)

  with_revents-IsGood :
      (stx : ServerContext Q) (events : ℕ → Revents)
      → IsGood fifo stx
      → IsGood fifo (with_revents os fifo retries stx events)
        × Quiet (with_revents os fifo retries stx events)
  with_revents-IsGood stx events g = (
    record {
      table = record {
        slots = λ j lo hi. elim (g.table.slots j lo hi) [
          | inl free ↦ inl free
          | inr (fd, o) ↦ inr (
            fd,
            record {
              polled = o.polled;
              known = o.known;
              below = o.below;
              mapped = o.mapped;
              parser = o.parser;
              has_parser = o.has_parser;
              live = o.live;
            },
          )
        ];
        map_back = g.table.map_back;
        count = g.table.count ∙ used-revents stx.max_clients 3 _ _ (λ j. refl);
      };
      track = record {
        bytes = g.track.bytes;
        mapped_open = g.track.mapped_open;
        sound = g.track.sound;
      };
      proper = g.proper;
      stop_polled = g.stop_polled;
    },
    λ j e. rw e,
  )

  -- The log and the queue change, and the table stays.
  queue_changed :
      (stx : ServerContext Q) (q : Q) (l : List Event)
      → IsGood fifo stx
      → Safe stx.client_map l
      → All IsSound (fifo.contents q)
      → IsGood fifo (record stx { command_queue = q; log = l })
  queue_changed stx q l g same h = record {
    table =
        IsValid-frame stx (record stx { command_queue = q; log = l }) refl refl refl refl refl
          g.table;
    track = record { bytes = g.track.bytes; mapped_open = same.1; sound = h };
    proper = same.0;
    stop_polled = g.stop_polled;
  }

  -- What the log gets beside, which opens no descriptor and closes none.
  beside-Safe :
      (stx : ServerContext Q) (l : List Event)
      → IsGood fifo stx
      → SameOpen stx.log l
      → Proper l
      → Safe stx.client_map l
  beside-Safe stx l g same pr = (pr, λ fd i e. same (pos fd) ∙ g.track.mapped_open fd i e)

  serve_commands-IsGood :
      (stx : ServerContext Q)
      → IsGood fifo stx
      → Quiet stx
      → ServesTo os fifo retries sane stx (serve_commands os fifo retries stx)
  unfolding serve_commands
  serve_commands-IsGood stx g q = elim (Bool-cases (stx.pollers 2).revents.pollin) [
    | inr idle ↦ rw idle (stx, refl, g, q, refl)
    | inl ready ↦
        let (log1, drains, same1, pr1) = read_signal-ends os retries u stx.command_read stx.log in
        let (queue, log, walked, ends, empty) =
          process_commands-ordered os sane fifo (fifo.contents stx.command_queue)
            (record stx { log = log1 }) refl g.track.sound in
        let safe = subst (Leaves (Safe stx.client_map)) walked (
          run_all-Safe os (record stx { log = log1 }) (fifo.contents stx.command_queue) log1
            (beside-Safe stx log1 g same1 (pr1 g.proper))) in
        rw (ready, drains)
          (
            record stx { command_queue = queue; log = log },
            ends,
            queue_changed stx queue log g safe (subst (All IsSound) (sym empty) tt),
            q,
            refl,
          )
  ]

  serve_listener-IsGood :
      (stx : ServerContext Q)
      → IsGood fifo stx
      → Quiet stx
      → IsGood fifo (serve_listener os fifo retries stx)
        × Quiet (serve_listener os fifo retries stx)
        × ((serve_listener os fifo retries stx).max_clients ≡ stx.max_clients)
  unfolding serve_listener
  serve_listener-IsGood stx g q = elim (Bool-cases (stx.pollers 0).revents.pollin) [
    | inr idle ↦ rw idle (g, q, refl)
    | inl ready ↦
        let (q', m) = add_client-Calm os stx q in
        rw ready (add_client-IsGood fifo os stx sane g, q', m)
  ]

  serve_round-IsGood :
      (stx : ServerContext Q)
      → IsGood fifo stx
      → Quiet stx
      → (l : Loop Q) × (serve_round os fifo retries stx ≡ done l) × GoodLoop stx.max_clients l
  unfolding serve_round
  serve_round-IsGood stx g q = elim (Bool-cases (stx.pollers 1).revents.pollin) [
    | inl stop ↦
        let (log1, drains, same1, pr1) = read_signal-ends os retries u stx.shutdown_read stx.log in
        rw (stop, drains)
          (
            finished _,
            refl,
            (
              queue_changed stx stx.command_queue log1 g
                  (beside-Safe stx log1 g same1 (pr1 g.proper)) g.track.sound,
              refl,
            ),
          )
    | inr on ↦
        let (stx1, e1, g1, q1, m1) = serve_commands-IsGood stx g q in
        let (g2, q2, m2) = serve_listener-IsGood stx1 g1 q1 in
        let stx2 = serve_listener os fifo retries stx1 in
        let (stx3, e3, g3, q3, m3) =
          serve_clients-ServesTo os fifo retries sane stx2.max_clients 3 stx2 g2 q2 (omega arith)
            (omega arith) in
        rw (on, e1, e3) (waiting stx3, refl, (g3, m3 ∙ (m2 ∙ m1)))
  ]

  pub serve_turn-IsGood :
      (stx : ServerContext Q) (turn : Turn)
      → IsGood fifo stx
      → SoundTurn turn
      → (l : Loop Q) × (serve_turn os fifo retries stx turn ≡ done l) × GoodLoop stx.max_clients l
  unfolding serve_turn handle_error
  serve_turn-IsGood stx poll_interrupted g h = (waiting stx, refl, (g, refl))
  serve_turn-IsGood stx poll_failed g h =
      let l : List Event = error_callback (os.errno stx.log) ∷ stx.log in
      let safe = beside-Safe stx l g (λ fd. refl) (tt, g.proper) in
      (finished _, refl, (queue_changed stx stx.command_queue l g safe g.track.sound, refl))
  serve_turn-IsGood stx (polled events) g h =
      let (g', q') = with_revents-IsGood stx events g in
      serve_round-IsGood (with_revents os fifo retries stx events) g' q'
  serve_turn-IsGood stx (queued cmd) g h = (
    waiting _,
    refl,
    (
      queue_changed stx (fifo.push stx.command_queue cmd) stx.log g (g.proper, g.track.mapped_open)
          (elim (fifo.push_lem stx.command_queue cmd) [
            | inl e ↦
                subst (All IsSound) (sym e)
                  (All-snoc IsSound (fifo.contents stx.command_queue) cmd g.track.sound h)
            | inr e ↦ subst (All IsSound) (sym e) g.track.sound
          ]),
      refl,
    ),
  )
