-- ===== src/Os/Keeps.antt =====
-- What holds of a log and is kept by the events of a run holds of the log that the run leaves.
use mogakso.Os.Send.{send_loop}
use mogakso.Os.{Event, sent, Os}
use mogakso.Common.{
  drop, ℤ, pos, negsuc, Run, done, fault, out_of_fuel, ◌>>=◌, ℕ, zero, suc, ◌≡◌, refl, List, [],
  ◌∷◌,
}

-- The property holds of the log, where the run ends.
abbrev pub Leaves : (List Event → Type 0) → Run (List Event) → Type 0
Leaves P (done log) = P log
Leaves P fault = Unit
Leaves P out_of_fuel = Unit

abbrev pub LeavesWith : {A : Type 0} → (List Event → Type 0) → Run (A × List Event) → Type 0
LeavesWith P (done (a, log)) = P log
LeavesWith P fault = Unit
LeavesWith P out_of_fuel = Unit

module _ (P : List Event → Type 0) where
  pub bind-Leaves :
      (r : Run (List Event)) (k : List Event → Run (List Event))
      → Leaves P r
      → ((log : List Event) → P log → Leaves P (k log))
      → Leaves P (r >>= k)
  bind-Leaves (done log) k h go = go log h
  bind-Leaves fault k h go = tt
  bind-Leaves out_of_fuel k h go = tt

  pub with-Leaves :
      {A : Type 0} (r : Run (A × List Event)) (k : A × List Event → Run (List Event))
      → LeavesWith P r
      → ((a : A) (log : List Event) → P log → Leaves P (k (a, log)))
      → Leaves P (r >>= k)
  with-Leaves (done (a, log)) k h go = go a log h
  with-Leaves fault k h go = tt
  with-Leaves out_of_fuel k h go = tt

  -- What comes first has no events.
  pub any-Leaves :
      {A : Type 0} (r : Run A) (k : A → Run (List Event))
      → ((a : A) → Leaves P (k a))
      → Leaves P (r >>= k)
  any-Leaves (done a) k go = go a
  any-Leaves fault k go = tt
  any-Leaves out_of_fuel k go = tt

  module _ (os : Os) (fd : ℤ)
      (keeps : (offered : List ℕ) (n : ℤ) (log : List Event)
        → P log
        → P (sent fd offered n ∷ log)) where
    after_send-Leaves :
        (fuel : ℕ) (b : ℕ) (bs : List ℕ) (log : List Event) (answer : ℤ)
        → os.send log fd (b ∷ bs) ≡ answer
        → P log
        → ((m : ℕ) (log' : List Event)
            → P log'
            → LeavesWith P (send_loop os fuel fd (drop m bs) log'))
        → LeavesWith P (send_loop os (suc fuel) fd (b ∷ bs) log)
    unfolding send_loop
    after_send-Leaves fuel b bs log (negsuc m) e h go =
        rw (e, send_loop) (keeps (b ∷ bs) (negsuc m) log h)
    after_send-Leaves fuel b bs log (pos zero) e h go =
        rw (e, send_loop) (keeps (b ∷ bs) (pos 0) log h)
    after_send-Leaves fuel b bs log (pos (suc m)) e h go =
        rw (e, send_loop)
          (go m (sent fd (b ∷ bs) (pos (suc m)) ∷ log) (keeps (b ∷ bs) (pos (suc m)) log h))

    pub send_loop-Leaves :
        (fuel : ℕ) (rest : List ℕ) (log : List Event)
        → P log
        → LeavesWith P (send_loop os fuel fd rest log)
    unfolding send_loop
    send_loop-Leaves fuel [] log h = h
    send_loop-Leaves zero (b ∷ bs) log h = tt
    send_loop-Leaves (suc fuel) (b ∷ bs) log h =
        after_send-Leaves fuel b bs log (os.send log fd (b ∷ bs)) refl h
          (λ m log' h'. send_loop-Leaves fuel (drop m bs) log' h')
