-- ===== src/Server/Invariant/Capacity.antt =====
-- A server from its creation on: `server_create`, `server_start` and the event loop.
use mogakso.Server.EventLoop.Retries.{Settles}
use mogakso.Server.Slots.AddRemove.{IsValid-frame}
use mogakso.Server.Lifecycle.Fresh.{new_context-IsValid}
use mogakso.Server.Commands.Process.{IsSound}
use mogakso.Server.Invariant.Rounds.{SoundTurn}
use mogakso.Server.Invariant.Runs.{GoodEnd, server_run-IsGood}
use mogakso.Server.EventLoop.{Turn, Loop, waiting, finished, start_from, server_start, server_run}
use mogakso.Server.State.{stopped, running, Fifo, ServerContext, max_fd_limit}
use mogakso.Server.Lifecycle.{new_context}
use mogakso.Os.{is_open, Proper, Os, Sane}
use mogakso.Server.Invariant.{IsGood}
use mogakso.Common.{
  All, ℤ, pos, is_neg, done, ℕ, ◌+◌, ◌≤◌, ◌<◌, ◌≡◌, refl, sym, subst, inl, inr, true, false, some,
  List, [], arith,
}
use mogakso.Server.Slots.Valid.{IsValid, used-le}

module _ {Q : Type 0} (fifo : Fifo Q) where
  pub new_context-IsGood :
      (socket : ℤ) (shutdown command : ℤ × ℤ) (queue : Q) (port max_clients : ℕ)
      → fifo.contents queue ≡ []
      → is_neg shutdown.0 ≡ false
      → IsGood fifo (new_context socket shutdown command queue port max_clients)
  new_context-IsGood socket shutdown command queue port max_clients empty polled_pipe = record {
    table = new_context-IsValid socket shutdown command queue port max_clients;
    track = record {
      bytes = λ i p e. absurd (cc);
      mapped_open = λ fd i e. absurd (cc);
      sound = subst (All IsSound) (sym empty) tt;
    };
    proper = tt;
    stop_polled = polled_pipe;
  }

  -- No descriptor was used, or closed, while it was not open; no more clients than slots; a descriptor that the map knows is open, is below the limit, and has
  -- an index among the slots.
  abbrev pub Bounded : ℕ → ServerContext Q → Type 0
  Bounded m stx =
      Proper stx.log
      × (stx.client_count ≤ m)
      × ((fd i : ℕ)
          → stx.client_map fd ≡ some i
          → (i < m) × (fd < max_fd_limit) × (is_open (pos fd) stx.log ≡ true))

  mapped_below :
      (stx : ServerContext Q) (fd i : ℕ)
      → IsValid stx
      → stx.client_map fd ≡ some i
      → (i < stx.max_clients) × (fd < max_fd_limit)
  mapped_below stx fd i v e =
      let (lt, at) = v.map_back fd i e in
      elim (v.slots (i + 3) (omega arith) (omega arith)) [
        | inl free ↦ absurd (cc)
        | inr (g, o) ↦ (lt, omega (arith, o.below, (let same : g ≡ fd = cc in same)))
      ]

  IsGood-Bounded :
      (m : ℕ) (stx : ServerContext Q) → IsGood fifo stx → stx.max_clients ≡ m → Bounded m stx
  IsGood-Bounded m stx g e = (
    g.proper,
    omega (arith, g.table.count, e, used-le stx.max_clients 3 stx.pollers),
    λ fd i known.
        let (lt, below) = mapped_below stx fd i g.table known in
        (omega arith, below, g.track.mapped_open fd i known),
  )

  -- The loop waits in a bounded context, or has ended in one, which is stopped.
  abbrev pub Within : ℕ → Loop Q → Type 0
  Within m (waiting stx) = Bounded m stx
  Within m (finished stx) = Bounded m stx × (stx.server_state ≡ stopped)

  module _ (os : Os) (retries : ℕ) (sane : Sane os) (u : Settles os retries) where
    GoodEnd-Within : (m : ℕ) (l : Loop Q) → GoodEnd os fifo retries sane u m l → Within m l
    GoodEnd-Within m (waiting stx) (g, e) = IsGood-Bounded m stx g e
    GoodEnd-Within m (finished stx) (g, e, ended) = (IsGood-Bounded m stx g e, ended)

    -- A context as `server_create` makes it, with an empty queue and a pipe for the shutdown, starts,
    -- and its event loop never faults on any turns whose queued commands have sound payloads. After them each event was
    -- allowed when it came: nothing was sent to, received from, called back for or closed but an open
    -- descriptor, so that none was closed twice. There are at most `max_clients` clients, and each
    -- descriptor that the map knows is open, below 4096, and at an index below `max_clients`; if the
    -- loop has ended, the server is stopped. Of any `retries` reads in a row from a pipe, one is not
    -- interrupted.
    pub server_run-Within :
        (socket : ℤ) (shutdown command : ℤ × ℤ) (queue : Q) (port max_clients : ℕ)
        (turns : List Turn)
        → fifo.contents queue ≡ []
        → is_neg shutdown.0 ≡ false
        → All SoundTurn turns
        → (up : ServerContext Q) × (l : Loop Q) × (server_start
              (some (new_context socket shutdown command queue port max_clients))
              0
            ≡ (pos 0, some up))
          × (up.server_state ≡ running)
          × (server_run os fifo retries turns up ≡ done l)
          × Within max_clients l
    unfolding server_start start_from
    server_run-Within socket shutdown command queue port max_clients turns empty polled_pipe h =
        let g =
          new_context-IsGood socket shutdown command queue port max_clients empty polled_pipe in
        let stx = new_context socket shutdown command queue port max_clients in
        let up : ServerContext Q = record stx { server_state = running; has_thread = true } in
        let (l, e, good) = server_run-IsGood os fifo retries sane u turns up (started stx g) h in
        (up, l, refl, refl, e, GoodEnd-Within max_clients l good)
      where
        started :
            (stx : ServerContext Q)
            → IsGood fifo stx
            → IsGood fifo (record stx { server_state = running; has_thread = true })
        started stx g = record {
          table = IsValid-frame stx _ refl refl refl refl refl g.table;
          track = record {
            bytes = g.track.bytes;
            mapped_open = g.track.mapped_open;
            sound = g.track.sound;
          };
          proper = g.proper;
          stop_polled = g.stop_polled;
        }
