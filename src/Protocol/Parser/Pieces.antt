-- ===== src/Protocol/Parser/Pieces.antt =====
-- The reader fed with a whole piece: one that leaves the frame open, one that completes its header,
-- one that completes its payload.
use mogakso.Common.{
  ltb, Bool-cases, length, get_or, take, drop, length-append, take-append-drop, length-take,
  drop-append-length, ℕ, suc, ◌+◌, ◌-◌, ◌^◌, ◌≤◌, ◌<◌, ◌≡◌, refl, sym, ap, ◌∙◌, fun_ext, ◌⊎◌, inl,
  inr, Bool, some, List, [], ◌∷◌, ◌++◌, append-nil, append_assoc, arith,
}
use mogakso.Protocol.Parser.{bytes_to_copy, Callback, bytes_needed}
use mogakso.Protocol.Parser.Reader.{
  Fed, reading, refused, announced, continue, at_header, at_end, settle, feed,
}

pub announced-append : (f g : List ℕ) → 5 ≤ length f → announced (f ++ g) ≡ announced f
unfolding announced
announced-append [] g h = absurd (omega arith)
announced-append (_ ∷ []) g h = absurd (omega arith)
announced-append (_ ∷ _ ∷ []) g h = absurd (omega arith)
announced-append (_ ∷ _ ∷ _ ∷ []) g h = absurd (omega arith)
announced-append (_ ∷ _ ∷ _ ∷ _ ∷ []) g h = absurd (omega arith)
announced-append (a ∷ b ∷ c ∷ d ∷ e ∷ f) g h = refl

length-snoc : (f : List ℕ) (b : ℕ) → length (f ++ b ∷ []) ≡ suc (length f)
length-snoc f b = omega (arith, length-append f (b ∷ []))

continue-reading : {World : Type 0} (x : Fed World) → continue x reading ≡ x
continue-reading (reading f w) = refl
continue-reading (refused w) = refl

continue_assoc :
    {World : Type 0} (s : Fed World) (k l : List ℕ → World → Fed World)
    → continue s (λ f w. continue (k f w) l) ≡ continue (continue s k) l
continue_assoc (reading f w) k l = refl
continue_assoc (refused w) k l = refl

module _ {World : Type 0} (calloc_ok : World → ℕ → Bool) (on_complete_cb : Callback World) where
  abbrev feeding : List ℕ → List ℕ → World → Fed World
  feeding = feed calloc_ok on_complete_cb

  pub feed-append :
      (f xs ys : List ℕ) (w : World)
      → feed calloc_ok on_complete_cb f (xs ++ ys) w
        ≡ continue
            (feed calloc_ok on_complete_cb f xs w)
            (λ f' w'. feed calloc_ok on_complete_cb f' ys w')
  unfolding feed
  feed-append f [] ys w = refl
  feed-append f (x ∷ xs) ys w =
      ap (continue (settle calloc_ok on_complete_cb (f ++ x ∷ []) w))
        (fun_ext λ f'. fun_ext λ w'. feed-append f' xs ys w')
      ∙ continue_assoc (settle calloc_ok on_complete_cb (f ++ x ∷ []) w) (λ f' w'. feeding f' xs w')
          (λ f' w'. feeding f' ys w')

  -- A piece that ends before the header does.
  pub feed-header_open :
      (f bs : List ℕ) (w : World)
      → length f + length bs < 5
      → feed calloc_ok on_complete_cb f bs w ≡ reading (f ++ bs) w
  unfolding feed settle
  feed-header_open f [] w h = ap (λ g. reading g w) (sym (append-nil f))
  feed-header_open f (b ∷ bs) w h =
      ground
        (arith, length-snoc f b, feed-header_open (f ++ b ∷ []) bs w, append_assoc f (b ∷ []) bs)

  -- A piece that ends with the header.
  pub feed-header_full :
      (f : List ℕ) (b : ℕ) (bs : List ℕ) (w : World)
      → length f + length (b ∷ bs) ≡ 5
      → feed calloc_ok on_complete_cb f (b ∷ bs) w
        ≡ at_header calloc_ok on_complete_cb (f ++ b ∷ bs) w
  unfolding feed settle
  feed-header_full f b [] w h = ground (
    arith,
    length-snoc f b,
    continue-reading (at_header calloc_ok on_complete_cb (f ++ b ∷ []) w),
  )
  feed-header_full f b (c ∷ bs) w h = ground (
    arith,
    length-snoc f b,
    feed-header_full (f ++ b ∷ []) c bs w,
    append_assoc f (b ∷ []) (c ∷ bs),
  )

  -- A piece that ends before the payload does.
  pub feed-payload_open :
      (f bs : List ℕ) (w : World)
      → 5 ≤ length f
      → length f + length bs < 5 + announced f
      → feed calloc_ok on_complete_cb f bs w ≡ reading (f ++ bs) w
  unfolding feed settle
  feed-payload_open f [] w h k = ap (λ g. reading g w) (sym (append-nil f))
  feed-payload_open f (b ∷ bs) w h k = ground (
    arith,
    length-snoc f b,
    announced-append f (b ∷ []),
    feed-payload_open (f ++ b ∷ []) bs w,
    append_assoc f (b ∷ []) bs,
  )

  -- A piece that ends with the frame.
  pub feed-payload_full :
      (f : List ℕ) (b : ℕ) (bs : List ℕ) (w : World)
      → 5 ≤ length f
      → length f + length (b ∷ bs) ≡ 5 + announced f
      → feed calloc_ok on_complete_cb f (b ∷ bs) w ≡ at_end calloc_ok on_complete_cb (f ++ b ∷ bs) w
  unfolding feed settle
  feed-payload_full f b [] w h k = ground (
    arith,
    length-snoc f b,
    announced-append f (b ∷ []),
    continue-reading (at_end calloc_ok on_complete_cb (f ++ b ∷ []) w),
  )
  feed-payload_full f b (c ∷ bs) w h k = ground (
    arith,
    length-snoc f b,
    announced-append f (b ∷ []),
    feed-payload_full (f ++ b ∷ []) c bs w,
    append_assoc f (b ∷ []) (c ∷ bs),
  )

get_or-append : (f g : List ℕ) → 0 < length f → get_or (f ++ g) 0 0 ≡ get_or f 0 0
get_or-append [] g h = absurd (omega arith)
get_or-append (x ∷ f) g h = refl

-- A round copies all that is left, or the `suc k` bytes that are needed.
pub piece_cases :
    (received total left : ℕ)
    → received < total
    → total < 2 ^ 33
    → ((bytes_to_copy left (bytes_needed total received) ≡ left) × (received + left < total))
      ⊎ ((k : ℕ) × (bytes_to_copy left (bytes_needed total received) ≡ suc k)
          × (received + suc k ≡ total)
          × (suc k ≤ left))
piece_cases received total left h small =
    elim (Bool-cases (ltb left (bytes_needed total received))) [
      | inl less ↦ inl (ground arith, ground arith)
      | inr enough ↦ inr (total - received - 1, ground arith, ground arith, ground arith)
    ]

-- The first `suc k` bytes of an input that has them.
pub split_input :
    (k : ℕ) (xs : List ℕ)
    → suc k ≤ length xs
    → (b : ℕ) × (bs rest : List ℕ) × (xs ≡ b ∷ bs ++ rest) × (length (b ∷ bs) ≡ suc k)
split_input k [] h = absurd (omega arith)
split_input k (x ∷ xs) h = (
  x,
  take k xs,
  drop k xs,
  ap (◌∷◌ x) (sym (take-append-drop k xs)),
  omega (arith, length-take k xs),
)

-- A complete frame, taken apart.
pub at_end-header :
    {World : Type 0} (calloc_ok : World → ℕ → Bool) (on_complete_cb : Callback World)
    (header payload : List ℕ) (w : World)
    → length header ≡ 5
    → at_end calloc_ok on_complete_cb (header ++ payload) w
      ≡ reading [] (on_complete_cb (get_or header 0 0) (some payload) (announced header) w)
unfolding at_end
at_end-header calloc_ok on_complete_cb header payload w size = rw (
  get_or-append header payload (omega arith),
  announced-append header payload (omega arith),
  ap (λ n. drop n (header ++ payload)) (sym size) ∙ drop-append-length header payload,
)
