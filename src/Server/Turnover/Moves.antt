-- ===== src/Server/Turnover/Moves.antt =====
-- Every step of those threads keeps it.
use mogakso.Common.{eq→==, ℕ, ◌≡◌, refl, sym, ap, ◌∙◌, inl, inr, false, arith}
use mogakso.Server.Turnover.{
  Stopper, away, wrote, LoopThread, looping, leaving, ended, Turnover, StopperMove, start_loop,
  tell, write_stop, join_loop, LoopThreadMove, serve_others, read_stop, fail_poll, write_stopped,
  Operation, by_stopper, by_loop, Turned, first, next_turn,
}
use mogakso.Server.State.{update, update-cases}
use mogakso.Server.Turnover.OneLoop.{HasOne, Turned-HasOne}
use mogakso.Server.Turnover.Clean.{
  IsClean, quiet_state, still_none, still_nobody, told_before, leaving_before, only_told,
  all_quiet-IsClean,
}

stopper-IsClean :
    (m : Turnover) (stoppers : ℕ → Stopper) (i : ℕ) (p0 : Stopper) {m' : Turnover} {p : Stopper}
    → StopperMove m p0 m' p
    → stoppers i ≡ p0
    → IsClean m stoppers
    → IsClean m' (update stoppers i p)
stopper-IsClean m stoppers i p0 (start_loop off) at c =
    let (zero_bytes, nobody, none_left) = quiet_state m stoppers c (λ e. cc) in
    all_quiet-IsClean _ _ (λ e. cc e) zero_bytes
      (still_nobody stoppers i away (λ e. cc) (λ j ne. nobody j))
      (still_none m.loops m.created_threads looping (λ e. cc) none_left)
stopper-IsClean m stoppers i p0 (tell on) at c =
    let (zero_bytes, nobody, none_left) = quiet_state m stoppers c (λ e. cc) in
    record {
      phase = λ e. inl (i, rw (eq→== i i refl));
      telling = λ j e. (refl, zero_bytes, none_left);
      told_one = λ j k e f. sym (only_told stoppers i j nobody e) ∙ only_told stoppers i k nobody f;
      bytes = inl zero_bytes;
      leave = λ k e. absurd (none_left k e);
    }
stopper-IsClean m stoppers i p0 write_stop at c =
    let (down, zero_bytes, none_left) = c.telling i at in
    let nobody = still_nobody stoppers i wrote (λ e. cc) (λ j ne z. ne (c.told_one i j at z)) in
    record {
      phase = λ e. inr (inl (omega (arith, zero_bytes)));
      telling = λ j e. absurd (nobody j e);
      told_one = λ j k e f. absurd (nobody j e);
      bytes = inr (omega (arith, zero_bytes), down, nobody, none_left);
      leave = λ k e. absurd (none_left k e);
    }
stopper-IsClean m stoppers i p0 (join_loop e) at c = record {
  phase = λ down. elim (c.phase down) [
    | inr later_on ↦ inr later_on
    | inl (j, z) ↦ elim (update-cases stoppers i away j) [
      | inl (same, e') ↦ absurd (cc (ap stoppers same, at, z))
      | inr (other, e') ↦ inl (j, e' ∙ z)
    ]
  ];
  telling = λ j z. c.telling j (told_before stoppers i away j (λ w. cc) z);
  told_one = λ j k z w.
      c.told_one j k (told_before stoppers i away j (λ v. cc) z)
        (told_before stoppers i away k (λ v. cc) w);
  bytes = elim c.bytes [
    | inl zero_bytes ↦ inl zero_bytes
    | inr (one, down, nobody, none_left) ↦
        inr (one, down, still_nobody stoppers i away (λ z. cc) (λ j ne. nobody j), none_left)
  ];
  leave = λ k z.
      let (down, zero_bytes, nobody) = c.leave k z in
      (down, zero_bytes, still_nobody stoppers i away (λ w. cc) (λ j ne. nobody j));
}

loop-IsClean :
    (m : Turnover) (stoppers : ℕ → Stopper) (k : ℕ) (l0 : LoopThread) {m' : Turnover}
    {l : LoopThread}
    → LoopThreadMove false m k l0 m' l
    → m.loops k ≡ l0
    → HasOne m
    → IsClean m stoppers
    → IsClean (record m' { loops = update m'.loops k l }) stoppers
loop-IsClean m stoppers k l0 (serve_others e) at h c = record {
  phase = λ down. elim (c.phase down) [
    | inl somebody ↦ inl somebody
    | inr (inl one) ↦ inr (inl one)
    | inr (inr (j, z)) ↦ elim (update-cases m.loops k looping j) [
      | inl (same, e') ↦ absurd (cc (ap m.loops same, at, z))
      | inr (other, e') ↦ inr (inr (j, e' ∙ z))
    ]
  ];
  telling = λ i z.
      let (down, zero_bytes, none_left) = c.telling i z in
      (down, zero_bytes, still_none m.loops k looping (λ w. cc) none_left);
  told_one = c.told_one;
  bytes = inl e;
  leave = λ j z. c.leave j (leaving_before m.loops k looping j (λ w. cc) z);
}
loop-IsClean m stoppers k l0 (read_stop e) at h c = elim c.bytes [
  | inl zero_bytes ↦ absurd (omega (arith, zero_bytes, e))
  | inr (one, down, nobody, none_left) ↦ record {
    phase = λ e. inr (inr (k, rw (eq→== k k refl)));
    telling = λ i z. absurd (nobody i z);
    told_one = λ i j z w. absurd (nobody i z);
    bytes = inl (omega (arith, one));
    leave = λ j z. (down, omega (arith, one), nobody);
  }
]
loop-IsClean m stoppers k l0 (fail_poll e) at h c = absurd (cc e)
loop-IsClean m stoppers k l0 write_stopped at h c =
    let (down, zero_bytes, nobody) = c.leave k at in
    all_quiet-IsClean _ stoppers (λ e. cc e) zero_bytes nobody
      (λ j e. elim (update-cases m.loops k ended j) [
        | inl (same, e') ↦ cc (e', e)
        | inr (other, e') ↦
            let left : m.loops j ≡ leaving = sym e' ∙ e in
            other (omega (arith, (h.live_last k (rw at refl)).0, (h.live_last j (rw left refl)).0))
      ])

pub Turned-IsClean : {s : Operation} → Turned false s → IsClean s.server s.stoppers
Turned-IsClean first = all_quiet-IsClean _ _ (λ e. cc e) refl (λ i e. cc e) (λ k e. cc e)
Turned-IsClean (next_turn {s} r (by_stopper i mv)) =
    stopper-IsClean s.server s.stoppers i (s.stoppers i) mv refl (Turned-IsClean r)
Turned-IsClean (next_turn {s} r (by_loop k mv)) =
    loop-IsClean s.server s.stoppers k (s.server.loops k) mv refl (Turned-HasOne r)
      (Turned-IsClean r)
