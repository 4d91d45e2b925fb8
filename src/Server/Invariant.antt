-- ===== src/Server/Invariant.antt =====
-- What holds of the server's context between the turns of its event loop, and that the changes of
-- the slot table keep it.
use mogakso.Protocol.Parser.{StreamParser}
use mogakso.Server.Slots.Valid.{IsValid}
use mogakso.Server.Commands.Process.{IsSound}
use mogakso.Server.Slots.{no_events}
use mogakso.Server.State.{Fifo, ServerContext}
use mogakso.Common.{All, pos, negsuc, is_neg, ℕ, ◌≡◌, true, false, some}
pub mod Table
pub mod Accept
pub mod Calm
pub mod Clients
pub mod Rounds
pub mod Runs
pub mod Capacity
use mogakso.Os.{is_open, Proper}
use mogakso.Protocol.Parser.Live.{view}
use mogakso.Server.Receive.Delivery.{Bytes}

module _ {Q : Type 0} (fifo : Fifo Q) where
  -- Beside the slot table: parsers hold bytes, the descriptors of clients are open, and the payloads
  -- of the queued commands are as long as they say.
  pub record IsTracked (stx : ServerContext Q) : Type 0 where
    pub bytes : (i : ℕ) (p : StreamParser) → (stx.clients i).client_parser ≡ some p → Bytes (view p)
    pub mapped_open : (fd i : ℕ) → stx.client_map fd ≡ some i → is_open (pos fd) stx.log ≡ true
    pub sound : All IsSound (fifo.contents stx.command_queue)

  pub record IsGood (stx : ServerContext Q) : Type 0 where
    pub table : IsValid stx
    pub track : IsTracked stx
    -- No descriptor was used, or closed, while it was not open.
    pub proper : Proper stx.log
    -- The pipe for the shutdown is polled.
    pub stop_polled : is_neg (stx.pollers 1).fd ≡ false

-- `poll` has reported nothing of a free slot.
abbrev pub Quiet : {Q : Type 0} → ServerContext Q → Type 0
Quiet stx = (j : ℕ) → (stx.pollers j).fd ≡ negsuc 0 → (stx.pollers j).revents ≡ no_events
