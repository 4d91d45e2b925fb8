-- ===== src/Protocol/Parser/Forgetting.antt =====
-- The parser of protocol.c up to what its buffers hold of the open frame: what is left in
-- `header_buffer` from earlier frames, and where a byte is kept, is forgotten.
use mogakso.Protocol.Parser.Pieces.{feed-append}
use mogakso.Protocol.Parser.Reader.{Fed, reading, refused, continue, feed}
use mogakso.Protocol.Parser.Live.{IsLive, view}
use mogakso.Protocol.Parser.Refine.{Agrees, parse_stream-Agrees}
use mogakso.Common.{
  ℤ, pos, negsuc, Run, done, ℕ, ◌≡◌, refl, sym, ap, ◌∙◌, ◌⊎◌, inl, inr, Bool, Option, some, List,
  ◌++◌,
}
use mathlib.Core.Quot
use mathlib.Core.Quot.{Quot, Quot-set}
use mogakso.Protocol.Parser.{StreamParser, Callback, parse_stream}

abbrev pub LiveParser : Type 0
LiveParser = (p : StreamParser) × IsLive p

abbrev pub SameView : LiveParser → LiveParser → Type 0
SameView p q = view p.0 ≡ view q.0

-- A parser between two calls, as far as its user can tell.
abbrev pub OpenFrame : Type 0
OpenFrame = Quot SameView

-- The new parser and what the callbacks did, or, after a refused allocation, only the latter.
abbrev pub Outcome : Type 0 → Type 0
Outcome World = (OpenFrame × World) ⊎ World

abbrev pub onward :
    {World : Type 0} → Outcome World → (OpenFrame → World → Outcome World) → Outcome World
onward (inl (q, w)) k = k q w
onward (inr w) k = inr w

module _ {World : Type 0} (World-set : IsSet World) (calloc_ok : World → ℕ → Bool)
    (on_complete_cb : Callback World) where
  Outcome-set : IsSet (Outcome World)
  Outcome-set = hlevel Quot-set

  -- What a call leaves, by what the reader does.
  abbrev left_by :
      (x : Fed World) (r : Run (ℤ × Option StreamParser × World)) → Agrees x r → Outcome World
  left_by (reading f w) r (p, ends, live, same) = inl (Quot.mk (p, live), w)
  left_by (refused w) r (p, ends, stuck) = inr w

  left_by-respects :
      (x x' : Fed World) (r r' : Run (ℤ × Option StreamParser × World)) (a : Agrees x r)
      (a' : Agrees x' r')
      → x ≡ x'
      → left_by x r a ≡ left_by x' r' a'
  left_by-respects (reading f w) (reading f' w') r r' (p, ends, live, same)
        (p', ends', live', same') e =
      let frames_same : f ≡ f' = cc in
      let worlds_same : w ≡ w' = cc in
      ap (λ q. inl (q, w)) (Quot.sound (same ∙ frames_same ∙ sym same'))
      ∙ ap (λ v. inl (Quot.mk (p', live'), v)) worlds_same
  left_by-respects (refused w) (refused w') r r' a a' e = let same : w ≡ w' = cc in ap inr same
  left_by-respects (reading f w) (refused w') r r' a a' e = absurd (cc e)
  left_by-respects (refused w) (reading f w') r r' a a' e = absurd (cc e)

  abbrev call : LiveParser → List ℕ → World → Outcome World
  call (p, live) bytes w =
      left_by (feed calloc_ok on_complete_cb (view p) bytes w)
        (parse_stream calloc_ok (some p) (some bytes) (some on_complete_cb) w)
        (parse_stream-Agrees calloc_ok on_complete_cb p bytes w live)

  -- Parsers with the same open frame cannot be told apart.
  call-respects :
      (bytes : List ℕ) (w : World) (p q : LiveParser)
      → SameView p q
      → call p bytes w ≡ call q bytes w
  call-respects bytes w (p, live) (q, live') same =
      left_by-respects _ _ _ _ _ _ (ap (λ f. feed calloc_ok on_complete_cb f bytes w) same)

  -- `parse_stream` on an open frame.
  pub receive : OpenFrame → List ℕ → World → Outcome World
  receive q bytes w = Quot.lift Outcome-set (λ p. call p bytes w) (call-respects bytes w) q

  after_call :
      (x y : Fed World) (r r2 : Run (ℤ × Option StreamParser × World)) (cs : List ℕ)
      (a : Agrees x r) (a2 : Agrees y r2)
      → y ≡ continue x (λ f w. feed calloc_ok on_complete_cb f cs w)
      → left_by y r2 a2 ≡ onward (left_by x r a) (λ q w. receive q cs w)
  unfolding receive
  after_call (reading f w) y r r2 cs (p, ends, live, same) a2 e =
      left_by-respects _ _ _ _ a2 _ (e ∙ ap (λ g. feed calloc_ok on_complete_cb g cs w) (sym same))
  after_call (refused w) y r r2 cs a a2 e = left_by-respects y (refused w) r2 r a2 a e

  receive-append :
      (q : OpenFrame) (bs cs : List ℕ) (w : World)
      → receive q (bs ++ cs) w ≡ onward (receive q bs w) (λ q' w'. receive q' cs w')
  unfolding receive
  receive-append q bs cs w =
      Quot.ind
        (λ q'.
          Outcome-set (receive q' (bs ++ cs) w)
            (onward (receive q' bs w) (λ q2 w'. receive q2 cs w')))
        (λ p. after_call _ _ _ _ cs _ _ (feed-append calloc_ok on_complete_cb (view p.0) bs cs w)) q

  -- What a run of `parse_stream` shows of an outcome.
  abbrev pub Shows : Outcome World → Run (ℤ × Option StreamParser × World) → Type 0
  Shows (inl (q, w)) r =
      (p : LiveParser) × (r ≡ done (pos 0, some p.0, w)) × (◌≡◌ {A = OpenFrame} (Quot.mk p) q)
  Shows (inr w) r = (p : StreamParser) × (r ≡ done (negsuc 0, some p, w))

  left-Shows :
      (x : Fed World) (r : Run (ℤ × Option StreamParser × World)) (a : Agrees x r)
      → Shows (left_by x r a) r
  left-Shows (reading f w) r (p, ends, live, same) = ((p, live), ends, refl)
  left-Shows (refused w) r (p, ends, stuck) = (p, ends)

  -- The parser between two calls is an element of the quotient of the live parsers by the bytes of
  -- the open frame that they hold: from a live parser, `parse_stream` runs without a fault and leaves
  -- what `receive` says of that element alone, and receiving some bytes and then more is receiving
  -- the ones and then, if no memory was refused, the others, as an equation in the quotient. The
  -- states that the callbacks change form a set.
  pub parse_stream-Shows :
      (p : LiveParser) (bytes cs : List ℕ) (w : World)
      → Shows
          (receive (Quot.mk p) bytes w)
          (parse_stream calloc_ok (some p.0) (some bytes) (some on_complete_cb) w)
        × (receive (Quot.mk p) (bytes ++ cs) w
            ≡ onward (receive (Quot.mk p) bytes w) (λ q' w'. receive q' cs w'))
  unfolding receive
  parse_stream-Shows (p, live) bytes cs w = (
    left-Shows _ _ (parse_stream-Agrees calloc_ok on_complete_cb p bytes w live),
    receive-append (Quot.mk (p, live)) bytes cs w,
  )
