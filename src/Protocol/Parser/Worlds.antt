-- ===== src/Protocol/Parser/Worlds.antt =====
-- The reader in one world and in another that is an image of it, and the reader that has memory.
use mogakso.Protocol.Parser.{Callback}
use mogakso.Common.{
  ltb, ◌==◌, Bool-cases, length, get_or, drop, ℕ, ◌+◌, ◌≡◌, refl, inl, inr, Bool, true, ◌&&◌,
  Option, none, some, List, [], ◌∷◌, ◌++◌,
}
use mogakso.Protocol.Parser.Reader.{
  Fed, reading, refused, announced, continue, at_header, at_end, settle, feed,
}

module _ {V W : Type 0} (h : V → W) where
  -- The same open frame, in the other world.
  abbrev pub image : Fed V → Fed W
  image (reading f v) = reading f (h v)
  image (refused v) = refused (h v)

  module _ (can : V → ℕ → Bool) (can' : W → ℕ → Bool) (cb : Callback V) (cb' : Callback W)
      (same_memory : (v : V) (n : ℕ) → can' (h v) n ≡ can v n)
      (same_call : (type : ℕ) (payload : Option (List ℕ)) (len : ℕ) (v : V)
        → cb' type payload len (h v) ≡ h (cb type payload len v)) where
    settle-image : (f : List ℕ) (v : V) → settle can' cb' f (h v) ≡ image (settle can cb f v)
    unfolding settle at_header at_end
    settle-image f v = elim (Bool-cases (length f == 5)) [
      | inl header ↦ elim (Bool-cases (announced f == 0)) [
        | inl empty ↦ rw (header, empty, same_call (get_or f 0 0) none 0 v)
        | inr some_bytes ↦ elim (Bool-cases (can v (announced f))) [
          | inl memory ↦ rw (header, some_bytes, same_memory v (announced f), memory)
          | inr denied ↦ rw (header, some_bytes, same_memory v (announced f), denied)
        ]
      ]
      | inr other ↦ elim (Bool-cases (ltb 5 (length f) && length f == 5 + announced f)) [
        | inl end ↦ rw (other, end, same_call (get_or f 0 0) (some (drop 5 f)) (announced f) v)
        | inr unfinished ↦ rw (other, unfinished)
      ]
    ]

    onward_image :
        (x : Fed V) (k : List ℕ → V → Fed V) (k' : List ℕ → W → Fed W)
        → ((f : List ℕ) (v : V) → k' f (h v) ≡ image (k f v))
        → continue (image x) k' ≡ image (continue x k)
    onward_image (reading f v) k k' go = go f v
    onward_image (refused v) k k' go = refl

    pub feed-image : (f bs : List ℕ) (v : V) → feed can' cb' f bs (h v) ≡ image (feed can cb f bs v)
    unfolding feed
    feed-image f [] v = refl
    feed-image f (b ∷ bs) v =
        rw (settle-image (f ++ b ∷ []) v)
          (onward_image (settle can cb (f ++ b ∷ []) v) _ _ (λ f' v'. feed-image f' bs v'))

module _ {W : Type 0} (can : W → ℕ → Bool) (cb : Callback W)
    (memory : (w : W) (n : ℕ) → can w n ≡ true) where
  abbrev Reads : Fed W → Type 0
  Reads x = (f : List ℕ) × (w : W) × (x ≡ reading f w)

  settle-Reads : (f : List ℕ) (w : W) → Reads (settle can cb f w)
  unfolding settle at_header at_end
  settle-Reads f w = elim (Bool-cases (length f == 5)) [
    | inl header ↦ elim (Bool-cases (announced f == 0)) [
      | inl empty ↦ rw (header, empty) (_, _, refl)
      | inr some_bytes ↦ rw (header, some_bytes, memory w (announced f)) (_, _, refl)
    ]
    | inr other ↦ elim (Bool-cases (ltb 5 (length f) && length f == 5 + announced f)) [
      | inl end ↦ rw (other, end) (_, _, refl)
      | inr unfinished ↦ rw (other, unfinished) (_, _, refl)
    ]
  ]

  -- With memory the reader goes on.
  pub feed-Reads : (f bs : List ℕ) (w : W) → Reads (feed can cb f bs w)
  unfolding feed
  feed-Reads f [] w = (f, w, refl)
  feed-Reads f (b ∷ bs) w =
      let (f1, w1, e) = settle-Reads (f ++ b ∷ []) w in rw e (feed-Reads f1 bs w1)
