-- ===== src/Protocol/Parser/Reader.antt =====
-- What `parse_stream` promises, one byte at a time: the bytes of the frame that is not complete yet
-- are kept; a complete frame is handed to the callback.
use mogakso.Common.{
  ltb, ◌==◌, if◌then◌else◌, Bool-cases, length, get_or, drop, ℕ, ◌+◌, ◌≡◌, inl, inr, Bool, true,
  false, ◌&&◌, Option, none, some, List, [], ◌∷◌, ◌++◌,
}
use mogakso.Protocol.Wire.{ntohl_bytes}
use mogakso.Protocol.Parser.{Callback}

-- `reading` keeps the bytes of the open frame. `refused`: there was no memory for a payload.
pub data Fed (World : Type 0) : Type 0 where
  reading : List ℕ → World → Fed World
  refused : World → Fed World

-- The payload length that a frame's header announces.
unfoldable pub announced : List ℕ → ℕ
announced f = ntohl_bytes (drop 1 f)

abbrev pub continue : {World : Type 0} → Fed World → (List ℕ → World → Fed World) → Fed World
continue (reading f w) k = k f w
continue (refused w) k = refused w

module _ {World : Type 0} (calloc_ok : World → ℕ → Bool) (on_complete_cb : Callback World) where
  -- Five bytes have come: the header is complete.
  unfoldable pub at_header : List ℕ → World → Fed World
  at_header f w =
      if announced f == 0
      then reading [] (on_complete_cb (get_or f 0 0) none 0 w)
      else if calloc_ok w (announced f)
      then reading f w
      else refused w

  -- The frame is complete.
  unfoldable pub at_end : List ℕ → World → Fed World
  at_end f w = reading [] (on_complete_cb (get_or f 0 0) (some (drop 5 f)) (announced f) w)

  -- What becomes of an open frame when a byte has been added to it.
  unfoldable pub settle : List ℕ → World → Fed World
  settle f w =
      if length f == 5
      then at_header f w
      else if ltb 5 (length f) && length f == 5 + announced f
      then at_end f w
      else reading f w

  unfoldable pub feed : List ℕ → List ℕ → World → Fed World
  feed f [] w = reading f w
  feed f (b ∷ bs) w = continue (settle (f ++ b ∷ []) w) (λ f' w'. feed f' bs w')

  -- The three outcomes of a complete header.
  pub at_header-empty :
      (f : List ℕ) (w : World)
      → (announced f == 0) ≡ true
      → at_header f w ≡ reading [] (on_complete_cb (get_or f 0 0) none 0 w)
  unfolding at_header
  at_header-empty f w e = rw e

  pub at_header-given :
      (f : List ℕ) (w : World)
      → (announced f == 0) ≡ false
      → calloc_ok w (announced f) ≡ true
      → at_header f w ≡ reading f w
  unfolding at_header
  at_header-given f w e g = rw (e, g)

  pub at_header-denied :
      (f : List ℕ) (w : World)
      → (announced f == 0) ≡ false
      → calloc_ok w (announced f) ≡ false
      → at_header f w ≡ refused w
  unfolding at_header
  at_header-denied f w e g = rw (e, g)

-- What the callback keeps of the world, the reader keeps.
abbrev pub Kept : {World : Type 0} → (World → Type 0) → Fed World → Type 0
Kept P (reading f w) = P w
Kept P (refused w) = P w

module _ {World : Type 0} (calloc_ok : World → ℕ → Bool) (on_complete_cb : Callback World)
    (P : World → Type 0)
    (keeps : (type : ℕ) (payload : Option (List ℕ)) (len : ℕ) (w : World)
      → P w
      → P (on_complete_cb type payload len w)) where
  settle-Kept : (f : List ℕ) (w : World) → P w → Kept P (settle calloc_ok on_complete_cb f w)
  unfolding settle at_header at_end
  settle-Kept f w h = elim (Bool-cases (length f == 5)) [
    | inl header ↦ elim (Bool-cases (announced f == 0)) [
      | inl empty ↦ rw (header, empty) (keeps (get_or f 0 0) none 0 w h)
      | inr some_bytes ↦ elim (Bool-cases (calloc_ok w (announced f))) [
        | inl memory ↦ rw (header, some_bytes, memory) h
        | inr denied ↦ rw (header, some_bytes, denied) h
      ]
    ]
    | inr other ↦ elim (Bool-cases (ltb 5 (length f) && length f == 5 + announced f)) [
      | inl end ↦ rw (other, end) (keeps (get_or f 0 0) (some (drop 5 f)) (announced f) w h)
      | inr unfinished ↦ rw (other, unfinished) h
    ]
  ]

  onward_Kept :
      (x : Fed World) (k : List ℕ → World → Fed World)
      → Kept P x
      → ((f : List ℕ) (w : World) → P w → Kept P (k f w))
      → Kept P (continue x k)
  onward_Kept (reading f w) k h go = go f w h
  onward_Kept (refused w) k h go = h

  pub feed-Kept : (f bs : List ℕ) (w : World) → P w → Kept P (feed calloc_ok on_complete_cb f bs w)
  unfolding feed
  feed-Kept f [] w h = h
  feed-Kept f (b ∷ bs) w h =
      onward_Kept (settle calloc_ok on_complete_cb (f ++ b ∷ []) w) _
        (settle-Kept (f ++ b ∷ []) w h) (λ f' w' h'. feed-Kept f' bs w' h')
