-- ===== src/Server/EventLoop/States.antt =====
-- The states of the server: from its start to its end after a shutdown.
use mogakso.Common.{pos, done, ℕ, ◌≡◌, refl, ◌∙◌, Bool, List}
use mogakso.Os.{Event, SameOpen, Proper, Os, Sane}
use mogakso.Server.Slots.AddRemove.{IsValid-frame}
use mogakso.Server.Invariant.{IsGood}
use mogakso.Server.EventLoop.Retries.{Settles}
use mogakso.Server.State.{ServerState, shutting_down, Fifo, ServerContext}
use mogakso.Server.EventLoop.{signal_shutdown}

module _ {Q : Type 0} (fifo : Fifo Q) where
  -- A change of the state, and events that open and close nothing.
  pub moved-IsGood :
      (stx : ServerContext Q) (state : ServerState) (thread : Bool) (log' : List Event)
      → SameOpen stx.log log'
      → Proper log'
      → IsGood fifo stx
      → IsGood fifo (record stx { server_state = state; has_thread = thread; log = log' })
  moved-IsGood stx state thread log' same pr g = record {
    table = IsValid-frame stx _ refl refl refl refl refl g.table;
    track = record {
      bytes = g.track.bytes;
      mapped_open = λ fd i e. same (pos fd) ∙ g.track.mapped_open fd i e;
      sound = g.track.sound;
    };
    proper = pr;
    stop_polled = g.stop_polled;
  }

module _ {Q : Type 0} (os : Os) (fifo : Fifo Q) (retries : ℕ) (sane : Sane os)
    (u : Settles os retries) where
  -- The server as it is while `server_shutdown` waits.
  record Signalling (stx : ServerContext Q) : Type 0 where
    waiter : ServerContext Q
    signals : signal_shutdown os fifo retries stx ≡ done waiter
    good : IsGood fifo waiter
    state : waiter.server_state ≡ shutting_down
    thread : waiter.has_thread ≡ stx.has_thread
