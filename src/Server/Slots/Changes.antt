-- ===== src/Server/Slots/Changes.antt =====
-- `_add_client` and `_remove_client` keep the slot table valid.
use mogakso.Os.{Os}
use mogakso.Protocol.Parser.Live.{init_parser-IsLive}
use mogakso.Protocol.Parser.{init_parser}
use mogakso.Common.{
  ◌==◌, eq→==, ne→==_false, Bool-cases, lt_eq_gt, pos, negsuc, ℕ, ◌+◌, ◌-◌, ◌≤◌, ◌<◌, ◌≡◌, refl,
  sym, ap, fun_ext, ◌∙◌, ◌≢◌, ◌⊎◌, inl, inr, true, none, some, arith,
}
use mogakso.Server.State.{ClientInfo, Poller, ServerContext, max_fd_limit, update}
use mogakso.Server.Slots.{placed, unplaced}
use mogakso.Server.Slots.Valid.{used, Occupied, IsValid, used-update}

pub update-same {ℓ} : {A : Type ℓ} (f : ℕ → A) (i : ℕ) (a : A) → update f i a i ≡ a
update-same f i a = rw (eq→== i i refl)

pub update-other {ℓ} : {A : Type ℓ} (f : ℕ → A) (i j : ℕ) (a : A) → i ≢ j → update f i a j ≡ f j
update-other f i j a ne = rw (ne→==_false i j ne)

pub update_self {ℓ} : {A : Type ℓ} (f : ℕ → A) (i : ℕ) → update f i (f i) ≡ f
update_self f i = fun_ext (λ j. elim (Bool-cases (i == j)) [
  | inl same ↦ rw same (ap f (ground arith))
  | inr other ↦ rw other
])

pub update-twice {ℓ} :
    {A : Type ℓ} (f : ℕ → A) (i : ℕ) (a b : A) → update (update f i a) i b ≡ update f i b
update-twice f i a b =
    fun_ext (λ j. elim (Bool-cases (i == j)) [ inl same ↦ rw same | inr other ↦ rw other ])

module _ {Q : Type 0} where
  -- A slot stays occupied when what it consists of stays.
  pub Occupied-frame :
      (stx stx' : ServerContext Q) (j fd : ℕ)
      → stx'.pollers j ≡ stx.pollers j
      → stx'.clients (j - 3) ≡ stx.clients (j - 3)
      → stx'.client_map fd ≡ stx.client_map fd
      → Occupied stx j fd
      → Occupied stx' j fd
  Occupied-frame stx stx' j fd p c m o = record {
    polled = ap (λ x. x.fd) p ∙ o.polled;
    known = ap (λ x. x.socket_fd) c ∙ o.known;
    below = o.below;
    mapped = m ∙ o.mapped;
    parser = o.parser;
    has_parser = ap (λ x. x.client_parser) c ∙ o.has_parser;
    live = o.live;
  }

  abbrev pub SlotOk : ServerContext Q → ℕ → Type 0
  SlotOk stx j = ((stx.pollers j).fd ≡ negsuc 0) ⊎ ((fd : ℕ) × Occupied stx j fd)

  -- One slot changes, and the map changes at no descriptor of another slot.
  module _ (stx stx' : ServerContext Q) (v : IsValid stx) (j : ℕ) (p : Poller) (c : ClientInfo)
      (lo : 3 ≤ j) (pollers' : stx'.pollers ≡ update stx.pollers j p)
      (clients' : stx'.clients ≡ update stx.clients (j - 3) c)
      (max' : stx'.max_clients ≡ stx.max_clients)
      (map' : (fd k : ℕ)
        → k ≢ j
        → 3 ≤ k
        → Occupied stx k fd
        → stx'.client_map fd ≡ stx.client_map fd)
      (at_slot : SlotOk stx' j) where
    other_slot : (k : ℕ) → k ≢ j → 3 ≤ k → SlotOk stx k → SlotOk stx' k
    other_slot k ne le (inl free) = inl (
        ap (λ x. (x k).fd) pollers'
        ∙ ap (λ x. x.fd) (update-other stx.pollers j k p (λ e. ne (sym e)))
        ∙ free)
    other_slot k ne le (inr (fd, o)) = inr (
      fd,
      Occupied-frame stx stx' k fd
          (ap (λ x. x k) pollers' ∙ update-other stx.pollers j k p (λ e. ne (sym e)))
          (ap (λ x. x (k - 3)) clients'
            ∙ update-other stx.clients (j - 3) (k - 3) c (λ e. ne (omega arith)))
          (map' fd k ne le o) o,
    )

    pub slots-change : (k : ℕ) → 3 ≤ k → k < stx'.max_clients + 3 → SlotOk stx' k
    slots-change k le lt = elim (lt_eq_gt k j) [
      | inl less ↦ other_slot k (omega arith) le (v.slots k le (omega arith))
      | inr (inl same) ↦ rw same at_slot
      | inr (inr more) ↦ other_slot k (omega arith) le (v.slots k le (omega arith))
    ]

  module _ (os : Os) (stx : ServerContext Q) (v : IsValid stx) (fd j : ℕ) (lo : 3 ≤ j)
      (hi : j < stx.max_clients + 3) (free : (stx.pollers j).fd ≡ negsuc 0) where
    -- No client's descriptor stands in a free slot.
    pub not_here : (fd' i : ℕ) → stx.client_map fd' ≡ some i → j ≢ i + 3
    not_here fd' i e same = ground (arith, v.map_back fd' i e)

    count_taken :
        (p : Poller) (n : ℕ)
        → p.fd ≡ pos n
        → stx.client_count + 1 ≡ used stx.max_clients 3 (update stx.pollers j p)
    count_taken p n e =
        ground (arith, v.count, used-update stx.max_clients 3 j p stx.pollers lo (omega arith))

    count_kept :
        (p : Poller)
        → p.fd ≡ negsuc 0
        → stx.client_count ≡ used stx.max_clients 3 (update stx.pollers j p)
    count_kept p e =
        ground (arith, v.count, used-update stx.max_clients 3 j p stx.pollers lo (omega arith))

    pub placed-IsValid : fd < max_fd_limit → stx.client_map fd ≡ none → IsValid (placed os stx fd j)
    unfolding placed
    placed-IsValid small new = record {
      slots =
          slots-change stx (placed os stx fd j) v j _ _ lo refl refl refl
            (λ fd' k ne le o.
              update-other stx.client_map fd fd' (some (j - 3)) (λ e. apart fd' k o e))
            (inr (
              fd,
              record {
                polled = ap (λ x. x.fd) (update-same stx.pollers j _);
                known = ap (λ x. x.socket_fd) (update-same stx.clients (j - 3) _);
                below = small;
                mapped = update-same stx.client_map fd (some (j - 3));
                parser = init_parser;
                has_parser = ap (λ x. x.client_parser) (update-same stx.clients (j - 3) _);
                live = init_parser-IsLive;
              },
            ));
      map_back = λ fd' i e. back fd' i e;
      count = count_taken (record (stx.pollers j) { fd = pos fd; events = true }) fd refl;
    }
      where
        apart : (fd' k : ℕ) → Occupied stx k fd' → fd ≢ fd'
        apart fd' k o e = cc (o.mapped, new, ap stx.client_map e)

        back :
            (fd' i : ℕ)
            → (placed os stx fd j).client_map fd' ≡ some i
            → (i < stx.max_clients) × (((placed os stx fd j).pollers (i + 3)).fd ≡ pos fd')
        back fd' i e = elim (Bool-cases (fd == fd')) [
          | inl same ↦
              let index : j - 3 ≡ i = ground (arith, rw same at e) in
              let slot : j ≡ i + 3 = omega arith in
              (
                omega arith,
                ap (λ x. x.fd)
                      (ap (update stx.pollers j _) (sym slot) ∙ update-same stx.pollers j _)
                    ∙ ap pos (ground arith),
              )
          | inr other ↦
              let old : stx.client_map fd' ≡ some i = rw other at e in
              (
                (v.map_back fd' i old).0,
                ap (λ x. x.fd) (update-other stx.pollers j (i + 3) _ (not_here fd' i old))
                    ∙ (v.map_back fd' i old).1,
              )
        ]

    pub unplaced-IsValid : IsValid (unplaced os stx fd j)
    unfolding unplaced
    unplaced-IsValid = record {
      slots =
          slots-change stx (unplaced os stx fd j) v j _ _ lo refl refl refl (λ fd' k ne le o. refl)
            (inl (ap (λ x. x.fd) (update-same stx.pollers j _)));
      map_back = λ fd' i e. (
        (v.map_back fd' i e).0,
        ap (λ x. x.fd) (update-other stx.pollers j (i + 3) _ (not_here fd' i e))
            ∙ (v.map_back fd' i e).1,
      );
      count = count_kept (record (stx.pollers j) { fd = negsuc 0; events = true }) refl;
    }
