-- ===== src/Server/Threads/Work.antt =====
-- How much the event loop has left to do when no command is added, and that it can always go on.
use mogakso.Server.Threads.{
  Producer, idle, LoopPoint, at_poll, at_read, at_check, at_pop, at_command, at_rest, at_push,
  at_write, at_failed, at_end, at_null, Shared, contents_of, LoopMove, poll_failed, poll_shutdown,
  poll_command, poll_other, read_bytes, find_more, find_empty, pop_command, pop_null,
  finish_command, finish_turn,
}
use mogakso.Server.State.{Fifo, handle_error}
use mogakso.Server.Commands.Process.{run_command-Returns}
use mogakso.Os.{Os, Sane}
use mogakso.Server.Threads.Invariant.{IsOrderly}
use mogakso.Common.{
  Bool-cases, lt_eq_gt, length, List-cases, ℕ, zero, suc, ◌+◌, ◌*◌, ◌<◌, ◌≡◌, refl, sym, ap, ◌∙◌,
  ◌≢◌, ◌⊎◌, inl, inr, [], ◌++◌, append-nil, arith,
}

-- The steps left at a point of the loop.
abbrev pub rank : LoopPoint → ℕ
rank at_null = 0
rank at_failed = 0
rank at_end = 0
rank (at_push cmd) = 0
rank at_write = 0
rank at_read = 0
rank at_poll = 1
rank at_rest = 2
rank at_pop = 2
rank at_check = 3
rank (at_command cmd) = 4

-- No callback is in a call of the API.
abbrev pub OutOfCall : LoopPoint → Type 0
OutOfCall (at_push cmd) = ⊥
OutOfCall at_write = ⊥
OutOfCall _ = Unit

-- The loop has nothing to read, or is left, or goes on.
abbrev pub Standing : LoopPoint → ℕ → Type 0
Standing l pipe =
    ((l ≡ at_poll) × (pipe ≡ 0))
    ⊎ (((l ≡ at_failed) ⊎ (l ≡ at_end))
        ⊎ ((l ≡ at_poll → 0 < pipe) × (l ≢ at_failed) × (l ≢ at_end)))

pub idle_or_busy : (l : LoopPoint) (pipe : ℕ) → Standing l pipe
idle_or_busy at_poll zero = inl (refl, refl)
idle_or_busy at_poll (suc n) = inr (inr (λ e. omega arith, λ e. cc, λ e. cc))
idle_or_busy at_read n = inr (inr (λ e. cc, λ e. cc, λ e. cc))
idle_or_busy at_check n = inr (inr (λ e. cc, λ e. cc, λ e. cc))
idle_or_busy at_pop n = inr (inr (λ e. cc, λ e. cc, λ e. cc))
idle_or_busy (at_command cmd) n = inr (inr (λ e. cc, λ e. cc, λ e. cc))
idle_or_busy at_rest n = inr (inr (λ e. cc, λ e. cc, λ e. cc))
idle_or_busy (at_push cmd) n = inr (inr (λ e. cc, λ e. cc, λ e. cc))
idle_or_busy at_write n = inr (inr (λ e. cc, λ e. cc, λ e. cc))
idle_or_busy at_null n = inr (inr (λ e. cc, λ e. cc, λ e. cc))
idle_or_busy at_failed n = inr (inl (inl refl))
idle_or_busy at_end n = inr (inl (inr refl))

module _ {Q : Type 0} (fifo : Fifo Q) where
  -- What is left to do when no command is added.
  abbrev pub work : Shared Q → LoopPoint → ℕ
  work m l = 4 * m.pipe + 3 * length (contents_of fifo m) + rank l

  pub poll-quiet :
      (m : Shared Q) (producers : ℕ → Producer)
      → IsOrderly fifo m producers at_poll
      → ((i : ℕ) → producers i ≡ idle)
      → m.pipe ≡ 0
      → m.missed ≡ 0
      → (m.ran ≡ m.queued) × (contents_of fifo m ≡ [])
  poll-quiet m producers inv quiet dry none_missed = elim (List-cases (contents_of fifo m)) [
    | inl none_left ↦
        (sym (append-nil m.ran) ∙ ap (λ l. m.ran ++ l) (sym none_left) ∙ inv.order, none_left)
    | inr (c, cs, z) ↦
        absurd
          (elim (inv.woken (λ e. cc)) [ inl bytes ↦ omega arith | inr (i, e) ↦ cc (quiet i, e) ])
  ]

module _ {Q : Type 0} (os : Os) (fifo : Fifo Q) where
  -- A step of the loop leaves less to do.
  pub move-work :
      (m : Shared Q) (producers : ℕ → Producer) (l : LoopPoint) {m' : Shared Q} {l' : LoopPoint}
      → LoopMove os fifo m l m' l'
      → IsOrderly fifo m producers l
      → (l ≡ at_poll → 0 < m.pipe)
      → work fifo m' l' < work fifo m l
  unfolding handle_error
  move-work m producers l (poll_failed code) inv busy = omega arith
  move-work m producers l (poll_shutdown a b c) inv busy = omega arith
  move-work m producers l (poll_command no_end some_byte) inv busy = omega arith
  move-work m producers l (poll_other no_end none_there) inv busy =
      absurd (omega (arith, busy refl))
  move-work m producers l (read_bytes a b c) inv busy = omega arith
  move-work m producers l (find_more e) inv busy = omega arith
  move-work m producers l (find_empty e) inv busy = omega arith
  move-work m producers l (pop_command e) inv busy = elim (List-cases (contents_of fifo m)) [
    | inl none_left ↦ absurd (inv.woken none_left)
    | inr (c, cs, z) ↦
        let left = (fifo.pop_cons m.stx.command_queue c cs z).1 in rw (left, z) (omega arith)
  ]
  move-work m producers l (pop_null e) inv busy = elim (List-cases (contents_of fifo m)) [
    | inl none_left ↦ absurd (inv.woken none_left)
    | inr (c, cs, z) ↦ absurd (cc ((fifo.pop_cons m.stx.command_queue c cs z).0, e))
  ]
  move-work m producers l (finish_command e) inv busy = omega arith
  move-work m producers l (finish_turn stx' e) inv busy = rw e (omega arith)

  -- No step of the loop misses a signal, or is one of a callback's call.
  pub move-calm :
      (m : Shared Q) (l : LoopPoint) {m' : Shared Q} {l' : LoopPoint}
      → LoopMove os fifo m l m' l'
      → m.missed ≡ 0
      → (m'.missed ≡ 0) × OutOfCall l'
  move-calm m l (poll_failed code) calm = (calm, tt)
  move-calm m l (poll_shutdown a b c) calm = (calm, tt)
  move-calm m l (poll_command a b) calm = (calm, tt)
  move-calm m l (poll_other a b) calm = (calm, tt)
  move-calm m l (read_bytes a b c) calm = (refl, tt)
  move-calm m l (find_more e) calm = (calm, tt)
  move-calm m l (find_empty e) calm = (calm, tt)
  move-calm m l (pop_command e) calm = (calm, tt)
  move-calm m l (pop_null e) calm = (calm, tt)
  move-calm m l (finish_command e) calm = (calm, tt)
  move-calm m l (finish_turn stx' e) calm = (calm, tt)

  can_poll : (m : Shared Q) → (m' : Shared Q) × (l' : LoopPoint) × LoopMove os fifo m at_poll m' l'
  can_poll m = elim (lt_eq_gt 0 m.shutdown) [
    | inl bytes ↦ (_, _, poll_shutdown {n = 1} (omega arith) (omega arith) bytes)
    | inr (inl no_end) ↦ elim (lt_eq_gt 0 m.pipe) [
      | inl bytes ↦ (_, _, poll_command (sym no_end) bytes)
      | inr (inl e) ↦ (_, _, poll_other (sym no_end) (sym e))
      | inr (inr lt) ↦ absurd (omega arith)
    ]
    | inr (inr lt) ↦ absurd (omega arith)
  ]

  pub can_move :
      (sane : Sane os) (m : Shared Q) (producers : ℕ → Producer) (l : LoopPoint)
      → IsOrderly fifo m producers l
      → OutOfCall l
      → l ≢ at_failed
      → l ≢ at_end
      → (m' : Shared Q) × (l' : LoopPoint) × LoopMove os fifo m l m' l'
  can_move sane m producers at_poll inv out nf ne = can_poll m
  can_move sane m producers at_failed inv out nf ne = absurd (nf refl)
  can_move sane m producers at_end inv out nf ne = absurd (ne refl)
  can_move sane m producers (at_push cmd) inv out nf ne = absurd out
  can_move sane m producers at_write inv out nf ne = absurd out
  can_move sane m producers at_read inv out nf ne =
      (_, _, read_bytes {n = 1} (omega arith) (omega arith) (omega (arith, inv.woken)))
  can_move sane m producers at_check inv out nf ne =
      elim (Bool-cases (fifo.is_empty m.stx.command_queue)) [
        | inl e ↦ (_, _, find_empty e)
        | inr e ↦ (_, _, find_more e)
      ]
  can_move sane m producers at_pop inv out nf ne = elim (List-cases (contents_of fifo m)) [
    | inl none_left ↦ absurd (inv.woken none_left)
    | inr (c, cs, z) ↦ (_, _, pop_command (fifo.pop_cons m.stx.command_queue c cs z).0)
  ]
  can_move sane m producers (at_command cmd) inv out nf ne =
      (_, _, finish_command (run_command-Returns os sane m.stx cmd inv.sound_point).1)
  can_move sane m producers at_rest inv out nf ne = (_, _, finish_turn m.stx refl)
  can_move sane m producers at_null inv out nf ne = absurd inv.sound_point
