-- ===== src/Server/Invariant/Runs.antt =====
-- Whole runs of the event loop.
use mogakso.Server.EventLoop.Retries.{Settles, read_signal-ends}
use mogakso.Server.Invariant.Rounds.{SoundTurn, GoodLoop, serve_turn-IsGood}
use mogakso.Server.Slots.AddRemove.{IsValid-frame}
use mogakso.Server.EventLoop.{
  Turn, polled, Loop, waiting, finished, serve_round, serve_turn, stop_server, server_run,
}
use mogakso.Server.Invariant.{IsGood}
use mogakso.Common.{
  All, Run, done, ◌>>=◌, ℕ, ◌≡◌, refl, sym, ap, ◌∙◌, subst, true, List, [], ◌∷◌, ◌++◌,
}
use mogakso.Server.State.{stopped, Revents, Fifo, ServerContext}
use mogakso.Os.{Os, Sane}

module _ {Q : Type 0} (os : Os) (fifo : Fifo Q) (retries : ℕ) (sane : Sane os)
    (u : Settles os retries) where
  -- After the loop, the state is written.
  abbrev pub GoodEnd : ℕ → Loop Q → Type 0
  GoodEnd m (waiting stx) = IsGood fifo stx × (stx.max_clients ≡ m)
  GoodEnd m (finished stx) = IsGood fifo stx × (stx.max_clients ≡ m) × (stx.server_state ≡ stopped)

  -- What `server_run` does after a turn.
  abbrev onward : List Turn → Loop Q → Run (Loop Q)
  onward turns (waiting stx) = server_run os fifo retries turns stx
  onward turns (finished stx) = done (finished (stop_server os fifo retries stx))

  -- From a good context `_server_run` never faults, whatever turns it takes: accepted, refused and
  -- failed connections, data, failures and ends of clients, queued commands with sound payloads. It
  -- waits for the next turn in a good context, or has ended in one, in the stopped state, and the
  -- number of slots is the same. Of any
  -- `retries` reads in a row from a pipe, one is not interrupted.
  pub server_run-IsGood :
      (turns : List Turn) (stx : ServerContext Q)
      → IsGood fifo stx
      → All SoundTurn turns
      → (l : Loop Q) × (server_run os fifo retries turns stx ≡ done l) × GoodEnd stx.max_clients l
  unfolding server_run
  server_run-IsGood [] stx g h = (waiting stx, refl, (g, refl))
  server_run-IsGood (turn ∷ turns) stx g h =
      let (l, e, good) = serve_turn-IsGood os fifo retries sane u stx turn g h.0 in
      let (l', e', good') = after l good (λ stx1 g1. server_run-IsGood turns stx1 g1 h.1) in
      (l', ap (λ r. r >>= onward turns) e ∙ e', good')
    where
      after :
          (l : Loop Q)
          → GoodLoop os fifo retries sane u stx.max_clients l
          → ((stx1 : ServerContext Q)
              → IsGood fifo stx1
              → (l' : Loop Q) × (server_run os fifo retries turns stx1 ≡ done l')
                × GoodEnd stx1.max_clients l')
          → (l' : Loop Q) × (onward turns l ≡ done l') × GoodEnd stx.max_clients l'
      after (waiting stx1) (good, same) go =
          let (l', e', end) = go stx1 good in (l', e', subst (λ m. GoodEnd m l') same end)
      after (finished stx1) (good, same) go = (
        finished (stop_server os fifo retries stx1),
        refl,
        (
          record {
            table =
                IsValid-frame stx1 (stop_server os fifo retries stx1) refl refl refl refl refl
                  good.table;
            track = record {
              bytes = good.track.bytes;
              mapped_open = good.track.mapped_open;
              sound = good.track.sound;
            };
            proper = good.proper;
            stop_polled = good.stop_polled;
          },
          same,
          refl,
        ),
      )

  -- The loop has ended, and the server is stopped.
  abbrev pub Stops : Run (Loop Q) → Type 0
  Stops r = (stx : ServerContext Q) × (r ≡ done (finished stx)) × (stx.server_state ≡ stopped)

  stop_turn :
      (events : ℕ → Revents) (rest : List Turn) (stx : ServerContext Q)
      → (events 1).pollin ≡ true
      → IsGood fifo stx
      → Stops (server_run os fifo retries (polled events ∷ rest) stx)
  unfolding server_run serve_turn serve_round
  stop_turn events rest stx ready g =
      let (log1, drains, same1, pr1) = read_signal-ends os retries u stx.shutdown_read stx.log in
      rw (g.stop_polled, ready, drains) (_, refl, refl)

  after_turn :
      (m : ℕ) (turns : List Turn) (l : Loop Q)
      → GoodLoop os fifo retries sane u m l
      → ((stx1 : ServerContext Q)
          → IsGood fifo stx1
          → Stops (server_run os fifo retries turns stx1))
      → Stops (onward turns l)
  after_turn m turns (waiting stx1) good go = go stx1 good.0
  after_turn m turns (finished stx1) good go = (_, refl, refl)

  -- A byte in the shutdown pipe ends `_server_run`, in the stopped state, at the latest in the turn
  -- in which `poll` reports it, whatever turns come before from a good context, and whatever else is
  -- reported with it. Of any `retries` reads in a row from a pipe, one is not interrupted.
  pub server_run-Stops :
      (turns rest : List Turn) (events : ℕ → Revents) (stx : ServerContext Q)
      → IsGood fifo stx
      → All SoundTurn turns
      → (events 1).pollin ≡ true
      → Stops (server_run os fifo retries (turns ++ polled events ∷ rest) stx)
  unfolding server_run
  server_run-Stops [] rest events stx g h ready = stop_turn events rest stx ready g
  server_run-Stops (turn ∷ turns) rest events stx g h ready =
      let (l, e, good) = serve_turn-IsGood os fifo retries sane u stx turn g h.0 in
      subst (λ r. Stops (r >>= onward (turns ++ polled events ∷ rest))) (sym e)
        (after_turn stx.max_clients (turns ++ polled events ∷ rest) l good
          (λ stx1 g1. server_run-Stops turns rest events stx1 g1 h.1 ready))
