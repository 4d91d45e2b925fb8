-- ===== src/Server/Turnover/OneLoop.antt =====
-- Never do two event loops run on one server.
use mogakso.Common.{
  eq→==, ℕ, suc, ◌≡◌, refl, sym, ap, subst, ◌≢◌, inl, inr, Bool, true, false, arith,
}
use mogakso.Server.Turnover.{
  Stopper, LoopThread, unborn, looping, leaving, ended, Turnover, StopperMove, start_loop, tell,
  write_stop, join_loop, LoopThreadMove, serve_others, read_stop, fail_poll, write_stopped,
  Operation, by_stopper, by_loop, Turned, first, next_turn,
}
use mogakso.Server.State.{stopped, update, update-cases}

-- The thread has not ended.
abbrev pub is_live : LoopThread → Bool
is_live unborn = false
is_live looping = true
is_live leaving = true
is_live ended = false

-- A thread that has not ended is the last that was created; while the state is not stopped, there is
-- one.
pub record HasOne (m : Turnover) : Type 0 where
  pub live_last :
      (k : ℕ) → is_live (m.loops k) ≡ true → (suc k ≡ m.created_threads) × (m.state ≢ stopped)
  pub busy :
      m.state ≢ stopped → (k : ℕ) × (suc k ≡ m.created_threads) × (is_live (m.loops k) ≡ true)

stopper-HasOne :
    (m : Turnover) {p0 : Stopper} {m' : Turnover} {p : Stopper}
    → StopperMove m p0 m' p
    → HasOne m
    → HasOne m'
stopper-HasOne m (start_loop off) h = record {
  live_last = λ k live. elim (update-cases m.loops m.created_threads looping k) [
    | inl (same, e) ↦ (ap suc (sym same), λ z. cc z)
    | inr (other, e) ↦ absurd ((h.live_last k (rw e at live)).1 off)
  ];
  busy = λ ne. (m.created_threads, refl, rw (eq→== m.created_threads m.created_threads refl));
}
stopper-HasOne m (tell on) h = record {
  live_last = λ k live. ((h.live_last k live).0, λ z. cc z);
  busy = λ ne. h.busy (λ z. cc z);
}
stopper-HasOne m write_stop h = record { live_last = h.live_last; busy = h.busy }
stopper-HasOne m (join_loop e) h = h

-- A loop's thread goes from one point to another, and the state stays.
moved-HasOne :
    (m : Turnover) (bytes k : ℕ) (l : LoopThread)
    → is_live (m.loops k) ≡ true
    → is_live l ≡ true
    → HasOne m
    → HasOne (record m { stop_bytes = bytes; loops = update m.loops k l })
moved-HasOne m bytes k l was is h = record {
  live_last = λ j live. elim (update-cases m.loops k l j) [
    | inl (same, e) ↦
        subst (λ x. (suc x ≡ m.created_threads) × (m.state ≢ stopped)) same (h.live_last k was)
    | inr (other, e) ↦ h.live_last j (rw e at live)
  ];
  busy = λ ne. (k, (h.live_last k was).0, rw (eq→== k k refl) is);
}

loop-HasOne :
    (may_fail : Bool) (m : Turnover) (k : ℕ) (l0 : LoopThread) {m' : Turnover} {l : LoopThread}
    → LoopThreadMove may_fail m k l0 m' l
    → m.loops k ≡ l0
    → HasOne m
    → HasOne (record m' { loops = update m'.loops k l })
loop-HasOne may_fail m k l0 (serve_others e) at h =
    moved-HasOne m m.stop_bytes k looping (rw at refl) refl h
loop-HasOne may_fail m k l0 (read_stop e) at h = moved-HasOne m _ k leaving (rw at refl) refl h
loop-HasOne may_fail m k l0 (fail_poll e) at h =
    moved-HasOne m m.stop_bytes k leaving (rw at refl) refl h
loop-HasOne may_fail m k l0 write_stopped at h = record {
  live_last = λ j live. elim (update-cases m.loops k ended j) [
    | inl (same, e) ↦ absurd (cc (rw e at live))
    | inr (other, e) ↦
        absurd
          (other (omega (arith, (h.live_last k (rw at refl)).0, (h.live_last j (rw e at live)).0)))
  ];
  busy = λ ne. absurd (ne refl);
}

pub Turned-HasOne : {may_fail : Bool} {s : Operation} → Turned may_fail s → HasOne s.server
Turned-HasOne first = record {
  live_last = λ k live. absurd (cc live);
  busy = λ ne. absurd (ne refl);
}
Turned-HasOne (next_turn {s} r (by_stopper i mv)) = stopper-HasOne s.server mv (Turned-HasOne r)
Turned-HasOne {may_fail} (next_turn {s} r (by_loop k mv)) =
    loop-HasOne may_fail s.server k (s.server.loops k) mv refl (Turned-HasOne r)

-- Whatever threads start and shut down the server, in whatever order, and even if `poll` fails, two
-- threads that have not ended are the same one: no two event loops run on one server.
pub Turned-one_loop :
    {may_fail : Bool} {s : Operation}
    → Turned may_fail s
    → (j k : ℕ) → is_live (s.server.loops j) ≡ true
    → is_live (s.server.loops k) ≡ true
    → j ≡ k
Turned-one_loop r j k lj lk =
    let h = Turned-HasOne r in omega (arith, (h.live_last j lj).0, (h.live_last k lk).0)
