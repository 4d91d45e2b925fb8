-- ===== src/Server/Commands/Rounds.antt =====
-- The rounds of the broadcast loop of `_process_commands`, one after the other.
use mogakso.Common.{
  Bool-cases, lt_eq_gt, length, take, ℤ, pos, negsuc, eqb_ℤ, Run, done, ◌>>=◌, ℕ, zero, suc, ◌+◌,
  ◌≤◌, ◌<◌, ◌≡◌, refl, sym, ap, ◌∙◌, ◌≢◌, ◌⊎◌, inl, inr, true, false, some, List, ◌++◌, arith,
}
use mogakso.Server.State.{ServerContext}
use mogakso.Os.{Event, Os, Sane}
use mogakso.Os.Send.{stream, reports}
use mogakso.Protocol.Framing.{frame}
use mogakso.Server.Commands.{is_addressed, broadcast_loop}
use mogakso.Server.Commands.SendFrame.{Delivers, internal_send_frame-Delivers}

module _ {Q : Type 0} (stx : ServerContext Q) where
  -- No two slots of the clients poll the same descriptor.
  pub record NoTwice : Type 0 where
    pub apart :
        (j j' fd fd' : ℕ)
        → 3 ≤ j
        → j < stx.max_clients + 3
        → 3 ≤ j'
        → j' < stx.max_clients + 3
        → j ≢ j'
        → (stx.pollers j).fd ≡ pos fd
        → (stx.pollers j').fd ≡ pos fd'
        → eqb_ℤ (pos fd) (pos fd') ≡ false

module _ {Q : Type 0} (os : Os) (sane : Sane os) (stx : ServerContext Q) (exclude : ℤ) (type : ℕ)
    (payload : List ℕ) (small : length payload ≤ 4091) where
  -- The descriptor `fd` of slot `j` is addressed.
  abbrev pub Addressed : ℕ → ℕ → Type 0
  Addressed j fd = ((stx.pollers j).fd ≡ pos fd) × (is_addressed os stx exclude (pos fd) ≡ true)

  -- What the rounds from slot `i` on leave, if no descriptor stands in two slots.
  pub record Broadcasts (rounds i : ℕ) (log : List Event) (r : Run (List Event)) : Type 0 where
    pub log' : List Event
    pub ends : r ≡ done log'
    pub grows : reports log ≤ reports log'
    -- An addressed descriptor gets a prefix of the frame, all of it or else an error is reported.
    pub reached :
        (j fd : ℕ)
        → i ≤ j
        → j < i + rounds
        → Addressed j fd
        → (k : ℕ) × (stream (pos fd) log' ≡ stream (pos fd) log ++ take k (frame type payload))
          × ((take k (frame type payload) ≡ frame type payload) ⊎ (reports log < reports log'))
    -- Nothing is written to any other.
    pub spared :
        (g : ℤ)
        → ((j fd : ℕ) → i ≤ j → j < i + rounds → Addressed j fd → eqb_ℤ (pos fd) g ≡ false)
        → stream g log' ≡ stream g log

  addressed_pos : (a : ℤ) → is_addressed os stx exclude a ≡ true → (fd : ℕ) × (a ≡ pos fd)
  unfolding is_addressed
  addressed_pos (pos n) h = (n, refl)
  addressed_pos (negsuc n) h = absurd (ground arith)

  -- Slot `i` is passed over.
  skip :
      (rounds i : ℕ) (log : List Event) (r : Run (List Event))
      → is_addressed os stx exclude (stx.pollers i).fd ≡ false
      → Broadcasts rounds (i + 1) log r
      → Broadcasts (suc rounds) i log r
  skip rounds i log r no_addr b = record {
    log' = b.log';
    ends = b.ends;
    grows = b.grows;
    reached = λ j fd le lt a. b.reached j fd (later j fd le a) (omega arith) a;
    spared = λ g h. b.spared g (λ j fd le lt a. h j fd (omega arith) (omega arith) a);
  }
    where
      later : (j fd : ℕ) → i ≤ j → Addressed j fd → i + 1 ≤ j
      later j fd le a = elim (lt_eq_gt i j) [
        | inl less ↦ omega arith
        | inr (inl same) ↦ cc (
          no_addr,
          a.1,
          ap (λ x. is_addressed os stx exclude (stx.pollers x).fd) same,
          ap (is_addressed os stx exclude) a.0,
        )
        | inr (inr more) ↦ absurd (omega arith)
      ]

  -- Slot `i` is served, and then the others.
  serve :
      (rounds i fd : ℕ) (log : List Event) (r : Run (List Event))
      (k : List Event → Run (List Event))
      → NoTwice stx
      → 3 ≤ i
      → i + suc rounds ≤ stx.max_clients + 3
      → Addressed i fd
      → Delivers fd (frame type payload) log r
      → ((log1 : List Event) → Broadcasts rounds (i + 1) log1 (k log1))
      → Broadcasts (suc rounds) i log (r >>= k)
  serve rounds i fd log r k twice low high a d go = record {
    log' = b.log';
    ends = ap (λ x. x >>= k) d.ends ∙ b.ends;
    grows = omega (arith, d.grows, b.grows);
    reached = λ j f le lt at. elim (lt_eq_gt i j) [
      | inl less ↦ later j f (omega arith) (omega arith) at
      | inr (inl same) ↦ here j f (sym same) at
      | inr (inr more) ↦ absurd (omega arith)
    ];
    spared = λ g h.
        b.spared g (λ j f le lt at. h j f (omega arith) (omega arith) at)
        ∙ d.others g (h i fd (omega arith) (omega arith) a);
  }
    where
      b : Broadcasts rounds (i + 1) d.log' (k d.log')
      b = go d.log'

      Reaches : ℕ → Type 0
      Reaches f =
          (n : ℕ) × (stream (pos f) b.log' ≡ stream (pos f) log ++ take n (frame type payload))
          × ((take n (frame type payload) ≡ frame type payload) ⊎ (reports log < reports b.log'))

      apart_from :
          (j f : ℕ)
          → i + 1 ≤ j
          → j < i + suc rounds
          → Addressed j f
          → (eqb_ℤ (pos f) (pos fd) ≡ false) × (eqb_ℤ (pos fd) (pos f) ≡ false)
      apart_from j f le lt at = (
        twice.apart j i f fd (omega arith) (omega arith) low (omega arith) (omega arith) at.0 a.0,
        twice.apart i j fd f low (omega arith) (omega arith) (omega arith) (omega arith) a.0 at.0,
      )

      kept : stream (pos fd) b.log' ≡ stream (pos fd) d.log'
      kept = b.spared (pos fd) (λ j f le lt at. (apart_from j f le (omega arith) at).0)

      whole_at :
          (take d.count (frame type payload) ≡ frame type payload) ⊎ (reports log < reports d.log')
          → (take d.count (frame type payload) ≡ frame type payload)
            ⊎ (reports log < reports b.log')
      whole_at (inl e) = inl e
      whole_at (inr lt) = inr (omega (arith, b.grows))

      served : Reaches fd
      served = (d.count, kept ∙ d.prefix, whole_at d.whole)

      here : (j f : ℕ) → j ≡ i → Addressed j f → Reaches f
      here j f same at =
          let e : fd ≡ f = cc (a.0, at.0, ap (λ x. (stx.pollers x).fd) same) in rw (← e) served

      later : (j f : ℕ) → i + 1 ≤ j → j < i + suc rounds → Addressed j f → Reaches f
      later j f le lt at =
          let (n, p, w) = b.reached j f le (omega arith) at in
          (
            n,
            p
                ∙ ap (λ xs. xs ++ take n (frame type payload))
                    (d.others (pos f) (apart_from j f le lt at).1),
            later_whole n w,
          )
        where
          later_whole :
              (n : ℕ)
              → (take n (frame type payload) ≡ frame type payload)
                ⊎ (reports d.log' < reports b.log')
              → (take n (frame type payload) ≡ frame type payload) ⊎ (reports log < reports b.log')
          later_whole n (inl e) = inl e
          later_whole n (inr more) = inr (omega (arith, d.grows))

  pub broadcast_loop-Broadcasts :
      (rounds i : ℕ) (log : List Event)
      → NoTwice stx
      → 3 ≤ i
      → i + rounds ≤ stx.max_clients + 3
      → Broadcasts rounds i log
          (broadcast_loop os stx exclude type (some payload) (length payload) rounds i log)
  unfolding broadcast_loop
  broadcast_loop-Broadcasts zero i log twice low high = record {
    log' = log;
    ends = refl;
    grows = omega arith;
    reached = λ j fd le lt a. absurd (omega arith);
    spared = λ g h. refl;
  }
  broadcast_loop-Broadcasts (suc rounds) i log twice low high =
      elim (Bool-cases (is_addressed os stx exclude (stx.pollers i).fd)) [
        | inl yes_addr ↦
            let (fd, e) = addressed_pos (stx.pollers i).fd yes_addr in
            rw (yes_addr, e)
              (serve rounds i fd log _ _ twice low high (e, rw (← e) yes_addr)
                (internal_send_frame-Delivers os fd type payload log sane small)
                (λ log1.
                  broadcast_loop-Broadcasts rounds (i + 1) log1 twice (omega arith) (omega arith)))
        | inr no_addr ↦ rw no_addr (
            skip rounds i log _ no_addr
              (broadcast_loop-Broadcasts rounds (i + 1) log twice (omega arith) (omega arith)))
      ]
