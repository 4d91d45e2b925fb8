-- ===== src/Server/Invariant/Clients.antt =====
-- The loop over the clients' pollers keeps the invariant.
use mogakso.Server.Receive.Table.{handle_client_data-Outcome}
use mogakso.Server.Invariant.Table.{Outcome-IsGood, Outcome-Quiet}
use mogakso.Server.EventLoop.{serve_clients}
use mogakso.Server.State.{Fifo, ServerContext}
use mogakso.Server.Receive.{handle_client_data}
use mogakso.Os.{Os, Sane}
use mogakso.Server.Invariant.{IsGood, Quiet}
use mogakso.Common.{
  if◌then◌else◌, Bool-cases, Run, done, ◌>>=◌, ℕ, zero, suc, ◌+◌, ◌-◌, ◌≤◌, ◌<◌, ◌≡◌, refl, ap, ◌∙◌,
  inl, inr, ◌||◌, arith,
}

module _ {Q : Type 0} (os : Os) (fifo : Fifo Q) (retries : ℕ) (sane : Sane os) where
  abbrev pub ServesTo : ServerContext Q → Run (ServerContext Q) → Type 0
  ServesTo stx r =
      (stx' : ServerContext Q) × (r ≡ done stx')
      × IsGood fifo stx'
      × Quiet stx'
      × (stx'.max_clients ≡ stx.max_clients)

  -- What is done for one slot.
  one_slot :
      (stx : ServerContext Q) (i : ℕ)
      → IsGood fifo stx
      → Quiet stx
      → 3 ≤ i
      → i < stx.max_clients + 3
      → ServesTo stx (
          if (stx.pollers i).revents.pollin || (stx.pollers i).revents.broken
          then handle_client_data os fifo retries stx i
          else done stx)
  one_slot stx i g q lo hi = elim (g.table.slots i lo hi) [
    | inl free ↦ rw (q i free) (stx, refl, g, q, refl)
    | inr (fd, o) ↦
        elim (Bool-cases ((stx.pollers i).revents.pollin || (stx.pollers i).revents.broken)) [
          | inr idle ↦ rw idle (stx, refl, g, q, refl)
          | inl ready ↦
              let (stx', e, out) =
                handle_client_data-Outcome os fifo retries sane stx i fd o
                  (g.track.bytes (i - 3) o.parser o.has_parser) in
              let (q', m) = Outcome-Quiet fifo stx i fd stx' o q out in
              rw ready (stx', e, Outcome-IsGood fifo stx i fd stx' g lo hi o out, q', m)
        ]
  ]

  pub serve_clients-ServesTo :
      (rounds i : ℕ) (stx : ServerContext Q)
      → IsGood fifo stx
      → Quiet stx
      → 3 ≤ i
      → i + rounds ≤ stx.max_clients + 3
      → ServesTo stx (serve_clients os fifo retries rounds i stx)
  unfolding serve_clients
  serve_clients-ServesTo zero i stx g q lo hi = (stx, refl, g, q, refl)
  serve_clients-ServesTo (suc rounds) i stx g q lo hi =
      let (stx1, e1, g1, q1, m1) = one_slot stx i g q lo (omega arith) in
      let (stx2, e2, g2, q2, m2) =
        serve_clients-ServesTo rounds (i + 1) stx1 g1 q1 (omega arith) (omega arith) in
      (stx2, ap (λ r. r >>= serve_clients os fifo retries rounds (i + 1)) e1 ∙ e2, g2, q2, m2 ∙ m1)
