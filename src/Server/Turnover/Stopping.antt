-- ===== src/Server/Turnover/Stopping.antt =====
-- While `poll` does not fail, a server stops when it is told to, and only then.
use mogakso.Server.Turnover.Clean.{quiet_state}
use mogakso.Server.Turnover.Moves.{Turned-IsClean}
use mogakso.Common.{ℕ, suc, ◌≡◌, refl, ◌≢◌, inl, inr, true, false, arith}
use mogakso.Server.Turnover.{
  told, LoopThread, unborn, looping, leaving, ended, Turnover, LoopThreadMove, serve_others,
  read_stop, fail_poll, write_stopped, Operation, Turned,
}
use mogakso.Server.State.{stopped, shutting_down, running}
use mogakso.Server.Turnover.OneLoop.{is_live, Turned-HasOne}

-- From its creation on, while `poll` and `read` do not fail, and whatever threads start and shut down
-- the server in whatever order: while the state is running, no byte stands in the shutdown pipe, no
-- call of `server_shutdown` is about to write one, and the thread that was started last is in its
-- loop.
pub Turned-running :
    {s : Operation}
    → Turned false s
    → s.server.state ≡ running
    → (s.server.stop_bytes ≡ 0)
      × ((i : ℕ) → s.stoppers i ≢ told)
      × ((k : ℕ) × (suc k ≡ s.server.created_threads) × (s.server.loops k ≡ looping))
Turned-running {s} r on =
    let (zero_bytes, nobody, none_left) =
      quiet_state s.server s.stoppers (Turned-IsClean r) (λ e. cc) in
    let (k, last_one, live) = (Turned-HasOne r).busy (λ e. cc) in
    (zero_bytes, nobody, (k, last_one, is_looping (s.server.loops k) live (none_left k)))
  where
    is_looping : (l : LoopThread) → is_live l ≡ true → l ≢ leaving → l ≡ looping
    is_looping looping live ne = refl
    is_looping leaving live ne = absurd (ne refl)
    is_looping unborn live ne = absurd (cc live)
    is_looping ended live ne = absurd (cc live)

-- From here on every way in which the loop's thread goes on ends with the state stopped.
pub data Ends : Turnover → ℕ → LoopThread → Type 0 where
  over : {m : Turnover} {k : ℕ} {l : LoopThread} → m.state ≡ stopped → Ends m k l
  goes_on :
      {m : Turnover} {k : ℕ} {l : LoopThread}
      → ((m' : Turnover) × (l' : LoopThread) × LoopThreadMove false m k l m' l')
      → ((m' : Turnover) (l' : LoopThread) → LoopThreadMove false m k l m' l' → Ends m' k l')
      → Ends m k l

leaving-Ends : (m : Turnover) (k : ℕ) → Ends m k leaving
leaving-Ends m k = goes_on (_, _, write_stopped) (after m)
  where
    after :
        (m m' : Turnover) (l' : LoopThread) → LoopThreadMove false m k leaving m' l' → Ends m' k l'
    after m m' l' write_stopped = over refl

looping-Ends : (m : Turnover) (k : ℕ) → m.stop_bytes ≡ 1 → Ends m k looping
looping-Ends m k one = goes_on (_, _, read_stop (omega (arith, one))) (after m one)
  where
    after :
        (m : Turnover)
        → m.stop_bytes ≡ 1
        → (m' : Turnover) (l' : LoopThread) → LoopThreadMove false m k looping m' l'
        → Ends m' k l'
    after m one m' l' (serve_others e) = absurd (omega (arith, one, e))
    after m one m' l' (read_stop e) = leaving-Ends m' k
    after m one m' l' (fail_poll e) = absurd (cc e)

-- While `poll` and `read` do not fail: once the server is shutting down and the byte has been
-- written, the loop's thread by itself, in every way in which it goes on, ends and leaves the state
-- stopped, in finitely many steps and without getting stuck.
pub Turned-Ends :
    {s : Operation}
    → Turned false s
    → s.server.state ≡ shutting_down
    → ((i : ℕ) → s.stoppers i ≢ told)
    → (k : ℕ) × Ends s.server k (s.server.loops k)
Turned-Ends {s} r down nobody =
    let c = Turned-IsClean r in
    let (k, last_one, live) = (Turned-HasOne r).busy (λ e. cc) in
    elim (c.phase down) [
      | inl (i, e) ↦ absurd (nobody i e)
      | inr (inl one) ↦ (k, waits k (s.server.loops k) live one)
      | inr (inr (j, e)) ↦ (j, rw e (leaving-Ends s.server j))
    ]
  where
    waits :
        (k : ℕ) (l : LoopThread) → is_live l ≡ true → s.server.stop_bytes ≡ 1 → Ends s.server k l
    waits k looping live one = looping-Ends s.server k one
    waits k leaving live one = leaving-Ends s.server k
    waits k unborn live one = absurd (cc live)
    waits k ended live one = absurd (cc live)
