-- ===== src/Server/Slots/Valid.antt =====
-- The slot table of the server: pollers, clients, the map of descriptors and the count of clients
-- agree, before and after every change.
use mogakso.Common.{
  if◌then◌else◌, eq→==, ne→==_false, Bool-cases, lt_eq_gt, ℤ, pos, negsuc, eqb_ℤ, ℕ, zero, suc, ◌+◌,
  ◌-◌, ◌≤◌, ◌<◌, ◌≡◌, refl, sym, ◌⊎◌, inl, inr, true, none, some, arith,
}
use mogakso.Protocol.Parser.{StreamParser}
use mogakso.Protocol.Parser.Live.{IsLive}
use mogakso.Server.State.{Poller, ServerContext, max_fd_limit, update}
use mogakso.Server.Slots.{find_free}

-- How many of some consecutive pollers have a descriptor.
unfoldable pub used : ℕ → ℕ → (ℕ → Poller) → ℕ
used zero i pollers = 0
used (suc rounds) i pollers =
    (if eqb_ℤ (pollers i).fd (negsuc 0) then 0 else 1) + used rounds (i + 1) pollers

module _ {Q : Type 0} where
  -- The slot of a connected client.
  pub record Occupied (stx : ServerContext Q) (j fd : ℕ) : Type 0 where
    pub polled : (stx.pollers j).fd ≡ pos fd
    pub known : (stx.clients (j - 3)).socket_fd ≡ pos fd
    pub below : fd < max_fd_limit
    pub mapped : stx.client_map fd ≡ some (j - 3)
    pub parser : StreamParser
    pub has_parser : (stx.clients (j - 3)).client_parser ≡ some parser
    pub live : IsLive parser

  pub record IsValid (stx : ServerContext Q) : Type 0 where
    -- A slot is free, or it is that of one client.
    pub slots :
        (j : ℕ)
        → 3 ≤ j
        → j < stx.max_clients + 3
        → ((stx.pollers j).fd ≡ negsuc 0) ⊎ ((fd : ℕ) × Occupied stx j fd)
    -- A descriptor that the map knows has its slot.
    pub map_back :
        (fd i : ℕ)
        → stx.client_map fd ≡ some i
        → (i < stx.max_clients) × ((stx.pollers (i + 3)).fd ≡ pos fd)
    pub count : stx.client_count ≡ used stx.max_clients 3 stx.pollers

is_minus_one : (a : ℤ) → eqb_ℤ a (negsuc 0) ≡ true → a ≡ negsuc 0
is_minus_one a h = ground arith

pub find_free-some :
    (rounds i j : ℕ) (pollers : ℕ → Poller)
    → find_free rounds i pollers ≡ some j
    → (i ≤ j) × (j < i + rounds) × ((pollers j).fd ≡ negsuc 0)
unfolding find_free
find_free-some zero i j pollers h = absurd (cc)
find_free-some (suc rounds) i j pollers h = elim (Bool-cases (eqb_ℤ (pollers i).fd (negsuc 0))) [
  | inl free ↦ here free (rw free at h)
  | inr busy ↦
      let (le, lt, e) = find_free-some rounds (i + 1) j pollers (rw busy at h) in
      (omega arith, omega arith, e)
]
  where
    here :
        eqb_ℤ (pollers i).fd (negsuc 0) ≡ true
        → some i ≡ some j
        → (i ≤ j) × (j < i + suc rounds) × ((pollers j).fd ≡ negsuc 0)
    here free e =
        let same : i ≡ j = cc in
        rw (← same) (omega arith, omega arith, is_minus_one (pollers i).fd free)

-- While fewer slots are in use than there are, one is found.
pub find_free-none :
    (rounds i : ℕ) (pollers : ℕ → Poller)
    → find_free rounds i pollers ≡ none
    → used rounds i pollers ≡ rounds
unfolding find_free used
find_free-none zero i pollers h = refl
find_free-none (suc rounds) i pollers h = ground (arith, find_free-none rounds (i + 1) pollers)

pub used-le : (rounds i : ℕ) (pollers : ℕ → Poller) → used rounds i pollers ≤ rounds
unfolding used
used-le zero i pollers = omega arith
used-le (suc rounds) i pollers = ground (arith, used-le rounds (i + 1) pollers)

used-update_outside :
    (rounds i j : ℕ) (p : Poller) (pollers : ℕ → Poller)
    → j < i
    → used rounds i (update pollers j p) ≡ used rounds i pollers
unfolding used
used-update_outside zero i j p pollers h = refl
used-update_outside (suc rounds) i j p pollers h =
    ground (arith, used-update_outside rounds (i + 1) j p pollers)

-- A change of one poller changes the count by what that poller counts.
pub used-update :
    (rounds i j : ℕ) (p : Poller) (pollers : ℕ → Poller)
    → i ≤ j
    → j < i + rounds
    → used rounds i (update pollers j p) + (if eqb_ℤ (pollers j).fd (negsuc 0) then 0 else 1)
      ≡ used rounds i pollers + (if eqb_ℤ p.fd (negsuc 0) then 0 else 1)
unfolding used
used-update zero i j p pollers h k = absurd (omega arith)
used-update (suc rounds) i j p pollers h k = elim (lt_eq_gt i j) [
  | inl lt ↦
      rw (ne→==_false j i (omega arith))
        (omega (arith, used-update rounds (i + 1) j p pollers (omega arith) (omega arith)))
  | inr (inl e) ↦
      rw (eq→== j i (sym e), used-update_outside rounds (i + 1) j p pollers (omega arith), e)
        (omega arith)
  | inr (inr gt) ↦ absurd (omega arith)
]
