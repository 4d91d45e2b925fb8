-- ===== src/Server/Receive/Delivery.antt =====
-- What `_handle_client_data` makes of received bytes.
use mogakso.Protocol.Parser.{Callback}
use mogakso.Os.{Event, message_callback, Os}
use mogakso.Server.Receive.{on_internal_parse_complete, can_calloc}
use mogakso.Common.{
  ltb, ◌==◌, ne→==_false, Bool-cases, length, get_or, drop, All, ℤ, Run, done, ℕ, ◌+◌, ◌<◌, ◌≡◌,
  refl, inl, inr, Bool, ◌&&◌, Option, none, some, List, [], ◌∷◌, ◌++◌, arith,
}
use mogakso.Protocol.Parser.Reader.{
  Fed, reading, refused, announced, continue, at_header, at_end, settle, feed,
}
use mogakso.Server.State.{Fifo, ServerContext}

abbrev pub Bytes : List ℕ → Type 0
Bytes bs = All (λ x. x < 256) bs

abbrev pub app_callback : ℤ → Callback (List Event)
app_callback fd type payload len log = message_callback fd type payload len ∷ log

first-Bytes : (f : List ℕ) → Bytes f → get_or f 0 0 < 256
first-Bytes [] h = omega arith
first-Bytes (x ∷ xs) h = h.0

abbrev pub KeepsBytes : Fed (List Event) → Type 0
KeepsBytes (reading f l) = Bytes f
KeepsBytes (refused l) = Unit

module _ {Q : Type 0} where
  abbrev pub with_log : ServerContext Q → List Event → ServerContext Q
  with_log stx l = record stx { log = l }

  abbrev pub lifted : ServerContext Q → Fed (List Event) → Fed (Run (ServerContext Q))
  lifted stx (reading f l) = reading f (done (with_log stx l))
  lifted stx (refused l) = refused (done (with_log stx l))

module _ {Q : Type 0} (os : Os) (fifo : Fifo Q) (retries : ℕ) (fd : ℤ) (stx : ServerContext Q) where
  abbrev deliver_context : Callback (Run (ServerContext Q))
  deliver_context = on_internal_parse_complete os fifo retries fd

  abbrev can : Run (ServerContext Q) → ℕ → Bool
  can = can_calloc os fifo retries

  abbrev can_log : List Event → ℕ → Bool
  can_log l n = os.calloc_ok l n

  -- A type of one byte is not that of a ping.
  delivered :
      (type : ℕ) (payload : Option (List ℕ)) (len : ℕ) (l : List Event)
      → type < 256
      → deliver_context type payload len (done (with_log stx l))
        ≡ done (with_log stx (app_callback fd type payload len l))
  unfolding on_internal_parse_complete
  delivered type payload len l small = rw (ne→==_false type 900 (omega arith))

  at_header-lifted :
      (f : List ℕ) (l : List Event)
      → Bytes f
      → at_header can deliver_context f (done (with_log stx l))
        ≡ lifted stx (at_header can_log (app_callback fd) f l)
  unfolding at_header
  at_header-lifted f l h = elim (Bool-cases (announced f == 0)) [
    | inl empty ↦ rw (empty, delivered (get_or f 0 0) none 0 l (first-Bytes f h))
    | inr some_bytes ↦ elim (Bool-cases (os.calloc_ok l (announced f))) [
      | inl memory ↦ rw (some_bytes, memory)
      | inr denied ↦ rw (some_bytes, denied)
    ]
  ]

  settle-lifted :
      (f : List ℕ) (l : List Event)
      → Bytes f
      → settle can deliver_context f (done (with_log stx l))
        ≡ lifted stx (settle can_log (app_callback fd) f l)
  unfolding settle at_end
  settle-lifted f l h = elim (Bool-cases (length f == 5)) [
    | inl header ↦ rw header (at_header-lifted f l h)
    | inr other ↦ elim (Bool-cases (ltb 5 (length f) && length f == 5 + announced f)) [
      | inl end ↦
          rw
            (
              other,
              end,
              delivered (get_or f 0 0) (some (drop 5 f)) (announced f) l (first-Bytes f h),
            )
            refl
      | inr unfinished ↦ rw (other, unfinished)
    ]
  ]

  settle-Bytes :
      (f : List ℕ) (l : List Event) → Bytes f → KeepsBytes (settle can_log (app_callback fd) f l)
  unfolding settle at_header at_end
  settle-Bytes f l h = elim (Bool-cases (length f == 5)) [
    | inl header ↦ elim (Bool-cases (announced f == 0)) [
      | inl empty ↦ rw (header, empty) tt
      | inr some_bytes ↦ elim (Bool-cases (os.calloc_ok l (announced f))) [
        | inl memory ↦ rw (header, some_bytes, memory) h
        | inr denied ↦ rw (header, some_bytes, denied) tt
      ]
    ]
    | inr other ↦ elim (Bool-cases (ltb 5 (length f) && length f == 5 + announced f)) [
      | inl end ↦ rw (other, end) tt
      | inr unfinished ↦ rw (other, unfinished) h
    ]
  ]

  snoc-Bytes : (f : List ℕ) (b : ℕ) → Bytes f → b < 256 → Bytes (f ++ b ∷ [])
  snoc-Bytes [] b h k = (k, tt)
  snoc-Bytes (x ∷ xs) b h k = (h.0, snoc-Bytes xs b h.1 k)

  -- The reader on the server's context is the reader on its log, and its open frame is of bytes.
  pub feed-lifted :
      (f bs : List ℕ) (l : List Event)
      → Bytes f
      → Bytes bs
      → (feed can deliver_context f bs (done (with_log stx l))
          ≡ lifted stx (feed can_log (app_callback fd) f bs l))
        × KeepsBytes (feed can_log (app_callback fd) f bs l)
  unfolding feed
  feed-lifted f [] l h k = (refl, h)
  feed-lifted f (b ∷ bs) l h k = rw (settle-lifted (f ++ b ∷ []) l (snoc-Bytes f b h k.0)) (
      onward (settle can_log (app_callback fd) (f ++ b ∷ []) l)
        (settle-Bytes (f ++ b ∷ []) l (snoc-Bytes f b h k.0))
        (λ f1 l1 h1. feed-lifted f1 bs l1 h1 k.1))
    where
      onward :
          (x : Fed (List Event))
          → KeepsBytes x
          → ((f' : List ℕ) (l' : List Event)
              → Bytes f'
              → (feed can deliver_context f' bs (done (with_log stx l'))
                  ≡ lifted stx (feed can_log (app_callback fd) f' bs l'))
                × KeepsBytes (feed can_log (app_callback fd) f' bs l'))
          → (continue (lifted stx x) (λ f' w. feed can deliver_context f' bs w)
              ≡ lifted stx (continue x (λ f' w. feed can_log (app_callback fd) f' bs w)))
            × KeepsBytes (continue x (λ f' w. feed can_log (app_callback fd) f' bs w))
      onward (reading f' l') h' go = go f' l' h'
      onward (refused l') h' go = (refl, tt)
