-- ===== src/Server/Turnover/Clean.antt =====
-- What holds between the threads that start and stop a server while `poll` does not fail.
use mogakso.Common.{ℕ, ◌≡◌, sym, ◌∙◌, ◌≢◌, ◌⊎◌, inl, inr}
use mogakso.Server.Turnover.{Stopper, told, LoopThread, leaving, Turnover}
use mogakso.Server.State.{shutting_down, update, update-cases}

-- Nobody is between the two halves of `server_shutdown`; no loop has been left.
abbrev pub NobodyTold : (ℕ → Stopper) → Type 0
NobodyTold stoppers = (i : ℕ) → stoppers i ≢ told

abbrev pub NoneLeaving : (ℕ → LoopThread) → Type 0
NoneLeaving loops = (k : ℕ) → loops k ≢ leaving

-- A shutdown is in one of three phases: the byte is to be written, it stands in the pipe, or the
-- loop has read it and is leaving.
pub record IsClean (m : Turnover) (stoppers : ℕ → Stopper) : Type 0 where
  pub telling :
      (i : ℕ)
      → stoppers i ≡ told
      → (m.state ≡ shutting_down) × (m.stop_bytes ≡ 0) × NoneLeaving m.loops
  pub told_one : (i j : ℕ) → stoppers i ≡ told → stoppers j ≡ told → i ≡ j
  pub bytes :
      (m.stop_bytes ≡ 0)
      ⊎ ((m.stop_bytes ≡ 1) × (m.state ≡ shutting_down) × NobodyTold stoppers × NoneLeaving m.loops)
  pub leave :
      (k : ℕ)
      → m.loops k ≡ leaving
      → (m.state ≡ shutting_down) × (m.stop_bytes ≡ 0) × NobodyTold stoppers
  pub phase :
      m.state ≡ shutting_down
      → ((i : ℕ) × (stoppers i ≡ told)) ⊎ ((m.stop_bytes ≡ 1) ⊎ ((k : ℕ) × (m.loops k ≡ leaving)))

-- While the server is not shutting down, no byte waits, nobody is telling it and no loop is left.
pub quiet_state :
    (m : Turnover) (stoppers : ℕ → Stopper)
    → IsClean m stoppers
    → m.state ≢ shutting_down
    → (m.stop_bytes ≡ 0) × NobodyTold stoppers × NoneLeaving m.loops
quiet_state m stoppers c ne = (
  elim c.bytes [
    | inl none_there ↦ none_there
    | inr (one, down, nobody, none_left) ↦ absurd (ne down)
  ],
  λ i e. ne (c.telling i e).0,
  λ k e. ne (c.leave k e).0,
)

pub still_none :
    (loops : ℕ → LoopThread) (k : ℕ) (l : LoopThread)
    → l ≢ leaving
    → NoneLeaving loops
    → NoneLeaving (update loops k l)
still_none loops k l ne none_left j e = elim (update-cases loops k l j) [
  | inl (same, e') ↦ ne (sym e' ∙ e)
  | inr (other, e') ↦ none_left j (sym e' ∙ e)
]

pub still_nobody :
    (stoppers : ℕ → Stopper) (i : ℕ) (p : Stopper)
    → p ≢ told
    → ((j : ℕ) → i ≢ j → stoppers j ≢ told)
    → NobodyTold (update stoppers i p)
still_nobody stoppers i p ne others j e = elim (update-cases stoppers i p j) [
  | inl (same, e') ↦ ne (sym e' ∙ e)
  | inr (other, e') ↦ others j other (sym e' ∙ e)
]

pub told_before :
    (stoppers : ℕ → Stopper) (i : ℕ) (p : Stopper) (j : ℕ)
    → p ≢ told
    → update stoppers i p j ≡ told
    → stoppers j ≡ told
told_before stoppers i p j ne e = elim (update-cases stoppers i p j) [
  | inl (same, e') ↦ absurd (ne (sym e' ∙ e))
  | inr (other, e') ↦ sym e' ∙ e
]

pub leaving_before :
    (loops : ℕ → LoopThread) (k : ℕ) (l : LoopThread) (j : ℕ)
    → l ≢ leaving
    → update loops k l j ≡ leaving
    → loops j ≡ leaving
leaving_before loops k l j ne e = elim (update-cases loops k l j) [
  | inl (same, e') ↦ absurd (ne (sym e' ∙ e))
  | inr (other, e') ↦ sym e' ∙ e
]

pub only_told :
    (stoppers : ℕ → Stopper) (i j : ℕ)
    → NobodyTold stoppers
    → update stoppers i told j ≡ told
    → i ≡ j
only_told stoppers i j nobody e = elim (update-cases stoppers i told j) [
  | inl (same, e') ↦ same
  | inr (other, e') ↦ absurd (nobody j (sym e' ∙ e))
]

-- No byte, nobody telling and no loop left is clean while the server is not shutting down.
pub all_quiet-IsClean :
    (m : Turnover) (stoppers : ℕ → Stopper)
    → m.state ≢ shutting_down
    → m.stop_bytes ≡ 0
    → NobodyTold stoppers
    → NoneLeaving m.loops
    → IsClean m stoppers
all_quiet-IsClean m stoppers up zero_bytes nobody none_left = record {
  phase = λ e. absurd (up e);
  telling = λ i e. absurd (nobody i e);
  told_one = λ i j e f. absurd (nobody i e);
  bytes = inl zero_bytes;
  leave = λ k e. absurd (none_left k e);
}
