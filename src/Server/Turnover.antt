-- ===== src/Server/Turnover.antt =====
-- `server_start` and `server_shutdown` of chat_server.c in any number of threads, and the threads of
-- `_server_run` that they start and stop, in any order.
--
-- What a thread does between locking and unlocking `state_mutex` is one step. A `server_start` that is
-- refused, or has no thread created, and a `server_shutdown` of a server that does not run change
-- nothing and are no steps. The write into the shutdown pipe succeeds; `stop_bytes` counts the bytes
-- that stand in it.
pub mod OneLoop
pub mod Clean
pub mod Moves
pub mod Stopping
use mogakso.Common.{ℕ, suc, ◌+◌, ◌-◌, ◌<◌, min, ◌≡◌, Bool, true}
use mogakso.Server.State.{ServerState, stopped, shutting_down, running, update}

-- Where a thread stands in `server_shutdown`.
pub data Stopper : Type 0 where
  away : Stopper
  told : Stopper  -- the state is written, the byte is not
  wrote : Stopper  -- before `pthread_join`

-- Where a thread of `_server_run` stands.
pub data LoopThread : Type 0 where
  unborn : LoopThread
  looping : LoopThread
  leaving : LoopThread  -- the loop is left, the state is not written
  ended : LoopThread

-- The threads of `_server_run` are numbered as they are created; `server_thread` is the last.
pub record Turnover : Type 0 where
  pub state : ServerState
  pub stop_bytes : ℕ
  pub created_threads : ℕ
  pub loops : ℕ → LoopThread

-- A step of a thread in `server_start` or `server_shutdown`.
pub data StopperMove (m : Turnover) : Stopper → Turnover → Stopper → Type 0 where
  start_loop :
      m.state ≡ stopped
      → StopperMove m away
          (record m {
            state = running;
            created_threads = suc m.created_threads;
            loops = update m.loops m.created_threads looping;
          })
          away
  tell : m.state ≡ running → StopperMove m away (record m { state = shutting_down }) told
  write_stop : StopperMove m told (record m { stop_bytes = m.stop_bytes + 1 }) wrote
  join_loop : m.loops (m.created_threads - 1) ≡ ended → StopperMove m wrote m away

-- A step of a thread of `_server_run`; `poll` and the read that it reports are one. Whether either
-- may fail otherwise than by a signal is a parameter, `may_fail`. The read takes what
-- there is, up to `char buf[8]`.
pub data LoopThreadMove (may_fail : Bool) (m : Turnover) (k : ℕ)
    : LoopThread → Turnover → LoopThread → Type 0 where
  serve_others : m.stop_bytes ≡ 0 → LoopThreadMove may_fail m k looping m looping
  read_stop :
      0 < m.stop_bytes
      → LoopThreadMove may_fail m k looping
          (record m { stop_bytes = m.stop_bytes - min 8 m.stop_bytes })
          leaving
  fail_poll : may_fail ≡ true → LoopThreadMove may_fail m k looping m leaving
  write_stopped : LoopThreadMove may_fail m k leaving (record m { state = stopped }) ended

pub record Operation : Type 0 where
  pub server : Turnover
  pub stoppers : ℕ → Stopper

pub data Turning (may_fail : Bool) (s : Operation) : Operation → Type 0 where
  by_stopper :
      (i : ℕ) {m : Turnover} {p : Stopper}
      → StopperMove s.server (s.stoppers i) m p
      → Turning may_fail s (record { server = m; stoppers = update s.stoppers i p })
  by_loop :
      (k : ℕ) {m : Turnover} {l : LoopThread}
      → LoopThreadMove may_fail s.server k (s.server.loops k) m l
      → Turning may_fail s (record s { server = record m { loops = update m.loops k l } })

-- After `server_create`.
abbrev pub not_started : Operation
not_started = record {
  server = record { state = stopped; stop_bytes = 0; created_threads = 0; loops = λ k. unborn };
  stoppers = λ i. away;
}

pub data Turned (may_fail : Bool) : Operation → Type 0 where
  first : Turned may_fail not_started
  next_turn : {s t : Operation} → Turned may_fail s → Turning may_fail s t → Turned may_fail t
