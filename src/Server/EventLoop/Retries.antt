-- ===== src/Server/EventLoop/Retries.antt =====
-- The calls on pipes that are repeated while a signal interrupts them.
use mogakso.Common.{
  Bool-cases, ℤ, negsuc, eqb_ℤ, done, ℕ, zero, suc, ◌<◌, ◌≡◌, refl, sym, ap, ◌∙◌, subst, inl, inr,
  Bool, true, false, ◌&&◌, List, ◌∷◌, append-nil, arith,
}
use mogakso.Os.Send.{stream}
use mogakso.Server.Commands.{write_signal}
use mogakso.Server.EventLoop.{read_signal}
use mogakso.Os.{Event, signalled, drained, SameOpen, Proper, Os}

-- What stands in the log after so many reads, or writes, in a row.
abbrev pub after_reads : Os → ℤ → ℕ → List Event → List Event
after_reads os fd zero log = log
after_reads os fd (suc i) log = after_reads os fd i (drained fd (os.read log fd) ∷ log)

abbrev pub after_writes : Os → ℤ → ℕ → List Event → List Event
after_writes os fd zero log = log
after_writes os fd (suc i) log = after_writes os fd i (signalled fd (os.write log fd) ∷ log)

-- Of any `retries` reads, or writes, in a row on a pipe one is not interrupted by a signal.
pub record Settles (os : Os) (retries : ℕ) : Type 0 where
  pub reads :
      (fd : ℤ) (log : List Event)
      → (i : ℕ) × (i < retries) × (os.interrupted (after_reads os fd (suc i) log) ≡ false)
  pub writes :
      (fd : ℤ) (log : List Event)
      → (i : ℕ) × (i < retries) × (os.interrupted (after_writes os fd (suc i) log) ≡ false)

-- Whether the write after so many others is repeated.
abbrev pub again : Os → ℤ → ℕ → List Event → Bool
again os fd i log =
    eqb_ℤ (os.write (after_writes os fd i log) fd) (negsuc 0)
    && os.interrupted (after_writes os fd (suc i) log)

-- One byte is written; the write is repeated as long as it fails for a signal, and no longer. The
-- result is that of the last write.
pub record Signals (os : Os) (fd : ℤ) (log : List Event) (n : ℤ) (log' : List Event) : Type 0 where
  pub repeats : ℕ
  pub repeated : (j : ℕ) → j < repeats → again os fd j log ≡ true
  pub over : again os fd repeats log ≡ false
  pub last : n ≡ os.write (after_writes os fd repeats log) fd
  pub logs : log' ≡ after_writes os fd (suc repeats) log

-- The bytes given to descriptors are the same.
abbrev pub SameStreams : List Event → List Event → Type 0
SameStreams log log' = (g : ℤ) → stream g log' ≡ stream g log

read_signal-within :
    (os : Os) (i fuel : ℕ) (fd : ℤ) (log : List Event)
    → i < fuel
    → os.interrupted (after_reads os fd (suc i) log) ≡ false
    → (log' : List Event) × (read_signal os fuel fd log ≡ done log')
      × SameOpen log log'
      × (Proper log → Proper log')
unfolding read_signal
read_signal-within os i zero fd log lt calm = absurd (omega arith)
read_signal-within os zero (suc fuel) fd log lt calm =
    elim (Bool-cases (eqb_ℤ (os.read log fd) (negsuc 0))) [
      | inl failed ↦ rw (failed, read_signal, calm, read_signal) (_, refl, λ g. refl, λ h. (tt, h))
      | inr fine ↦ rw (fine, read_signal) (_, refl, λ g. refl, λ h. (tt, h))
    ]
read_signal-within os (suc i) (suc fuel) fd log lt calm =
    let log1 : List Event = drained fd (os.read log fd) ∷ log in
    let (log', ends, same, pr) = read_signal-within os i fuel fd log1 (omega arith) calm in
    elim (Bool-cases (eqb_ℤ (os.read log fd) (negsuc 0) && os.interrupted log1)) [
      | inl again ↦ rw (again, read_signal) (log', ends, same, λ h. pr (tt, h))
      | inr over ↦ rw (over, read_signal) (log1, refl, λ g. refl, λ h. (tt, h))
    ]

after_writes-stream :
    (os : Os) (fd : ℤ) (n : ℕ) (log : List Event) → SameStreams log (after_writes os fd n log)
after_writes-stream os fd zero log g = refl
after_writes-stream os fd (suc n) log g =
    after_writes-stream os fd n (signalled fd (os.write log fd) ∷ log) g ∙ append-nil (stream g log)

pub Signals-stream :
    (os : Os) (fd : ℤ) (log : List Event) (n : ℤ) (log' : List Event)
    → Signals os fd log n log'
    → SameStreams log log'
Signals-stream os fd log n log' s g =
    ap (stream g) s.logs ∙ after_writes-stream os fd (suc s.repeats) log g

after_writes-Proper :
    (os : Os) (fd : ℤ) (n : ℕ) (log : List Event)
    → SameOpen log (after_writes os fd n log) × (Proper log → Proper (after_writes os fd n log))
after_writes-Proper os fd zero log = (λ g. refl, λ h. h)
after_writes-Proper os fd (suc n) log =
    let (same, pr) = after_writes-Proper os fd n (signalled fd (os.write log fd) ∷ log) in
    (same, λ h. pr (tt, h))

pub Signals-Proper :
    (os : Os) (fd : ℤ) (log : List Event) (n : ℤ) (log' : List Event)
    → Signals os fd log n log'
    → SameOpen log log' × (Proper log → Proper log')
Signals-Proper os fd log n log' s =
    subst (λ l. SameOpen log l × (Proper log → Proper l)) (sym s.logs)
      (after_writes-Proper os fd (suc s.repeats) log)

-- A write that is not repeated is the last one.
one_write :
    (os : Os) (fuel : ℕ) (fd : ℤ) (log : List Event)
    → again os fd 0 log ≡ false
    → (n : ℤ) × (log' : List Event) × (write_signal os (suc fuel) fd log ≡ done (n, log'))
      × Signals os fd log n log'
unfolding write_signal
one_write os fuel fd log over = (
  os.write log fd,
  signalled fd (os.write log fd) ∷ log,
  rw (over, write_signal) refl,
  record {
    repeats = 0;
    repeated = λ j lt. absurd (omega arith);
    over = over;
    last = refl;
    logs = refl;
  },
)

write_signal-within :
    (os : Os) (i fuel : ℕ) (fd : ℤ) (log : List Event)
    → i < fuel
    → os.interrupted (after_writes os fd (suc i) log) ≡ false
    → (n : ℤ) × (log' : List Event) × (write_signal os fuel fd log ≡ done (n, log'))
      × Signals os fd log n log'
unfolding write_signal
write_signal-within os i zero fd log lt calm = absurd (omega arith)
write_signal-within os zero (suc fuel) fd log lt calm = one_write os fuel fd log (ground arith)
write_signal-within os (suc i) (suc fuel) fd log lt calm =
    let log1 : List Event = signalled fd (os.write log fd) ∷ log in
    let (n, log', ends, s) = write_signal-within os i fuel fd log1 (omega arith) calm in
    elim (Bool-cases (again os fd 0 log)) [
      | inl more ↦ (
        n,
        log',
        rw (more, write_signal) ends,
        record {
          repeats = suc s.repeats;
          repeated = λ j. later_again s.repeats j more s.repeated;
          over = s.over;
          last = s.last;
          logs = s.logs;
        },
      )
      | inr over ↦ one_write os fuel fd log over
    ]
  where
    later_again :
        (k j : ℕ)
        → again os fd 0 log ≡ true
        → ((j : ℕ) → j < k → again os fd j (signalled fd (os.write log fd) ∷ log) ≡ true)
        → j < suc k
        → again os fd j log ≡ true
    later_again k zero more rest le = more
    later_again k (suc j) more rest le = rest j (omega arith)

module _ (os : Os) (retries : ℕ) (settles : Settles os retries) where
  -- `retries` rounds are enough for the loops.
  pub read_signal-ends :
      (fd : ℤ) (log : List Event)
      → (log' : List Event) × (read_signal os retries fd log ≡ done log')
        × SameOpen log log'
        × (Proper log → Proper log')
  read_signal-ends fd log =
      let (i, lt, calm) = settles.reads fd log in read_signal-within os i retries fd log lt calm

  pub write_signal-Signals :
      (fd : ℤ) (log : List Event)
      → (n : ℤ) × (log' : List Event) × (write_signal os retries fd log ≡ done (n, log'))
        × Signals os fd log n log'
  write_signal-Signals fd log =
      let (i, lt, calm) = settles.writes fd log in write_signal-within os i retries fd log lt calm
