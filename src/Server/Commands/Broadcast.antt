-- ===== src/Server/Commands/Broadcast.antt =====
-- The broadcast loop of `_process_commands`: who gets the message.
use mogakso.Server.Commands.Rounds.{NoTwice, Broadcasts, broadcast_loop-Broadcasts}
use mogakso.Common.{
  leb, ne→==_false, Bool-cases, lt_eq_gt, length, ℤ, pos, eqb_ℤ, ℕ, ◌+◌, ◌-◌, ◌≤◌, ◌<◌, ◌≡◌, ap,
  subst, inl, inr, false, not, some, List, arith,
}
use mogakso.Server.Slots.{is_valid_client}
use mogakso.Server.State.{ServerContext, max_fd_limit}
use mogakso.Command.{broadcast_message}
use mogakso.Server.Slots.Valid.{Occupied, IsValid}
use mogakso.Os.{Os, Sane}
use mogakso.Server.Commands.{is_addressed, run_command}

module _ {Q : Type 0} (stx : ServerContext Q) where
  -- In a valid table no descriptor stands in two slots.
  IsValid-NoTwice : IsValid stx → NoTwice stx
  IsValid-NoTwice v = record {
    apart = λ j k fd fd' lj hj lk hk ne e e'. elim (lt_eq_gt fd fd') [
      | inl lt ↦ ne→==_false fd fd' (omega arith)
      | inr (inl same) ↦
          absurd
            (ne (one_slot j k fd fd' lj lk (slot_map j fd lj hj e) (slot_map k fd' lk hk e') same))
      | inr (inr gt) ↦ ne→==_false fd fd' (omega arith)
    ];
  }
    where
      slot_map :
          (j fd : ℕ)
          → 3 ≤ j
          → j < stx.max_clients + 3
          → (stx.pollers j).fd ≡ pos fd
          → stx.client_map fd ≡ some (j - 3)
      slot_map j fd lj hj e = elim (v.slots j lj hj) [
        | inl free ↦ absurd (cc)
        | inr (g, o) ↦ let same : g ≡ fd = cc (o.polled) in rw (← same) o.mapped
      ]

      one_slot :
          (j k fd fd' : ℕ)
          → 3 ≤ j
          → 3 ≤ k
          → stx.client_map fd ≡ some (j - 3)
          → stx.client_map fd' ≡ some (k - 3)
          → fd ≡ fd'
          → j ≡ k
      one_slot j k fd fd' lj lk m m' same =
          let e : j - 3 ≡ k - 3 = cc (ap stx.client_map same) in omega arith

-- A broadcast of at most 4091 bytes, run in a valid table, ends without a fault. Each client whose
-- descriptor is polled and is not the excluded one gets a prefix of the message's frame, all of it
-- unless an error is reported, and each only once. To no other descriptor is anything written.
pub run_command-Broadcasts :
    {Q : Type 0} (os : Os) (stx : ServerContext Q) (exclude : ℤ) (type : ℕ) (payload : List ℕ)
    (sane : Sane os) (small : length payload ≤ 4091)
    → IsValid stx
    → Broadcasts os sane stx exclude type payload small stx.max_clients 3 stx.log
        (run_command os stx (broadcast_message type (some payload) (length payload) exclude))
unfolding run_command
run_command-Broadcasts os stx exclude type payload sane small v =
    broadcast_loop-Broadcasts os sane stx exclude type payload small stx.max_clients 3 stx.log
      (IsValid-NoTwice stx v) (omega arith) (omega arith)

module _ {Q : Type 0} (os : Os) (stx : ServerContext Q) (exclude : ℤ) where
  occupied_addressed :
      (j fd : ℕ)
      → Occupied stx j fd
      → is_addressed os stx exclude (pos fd) ≡ not (eqb_ℤ (pos fd) exclude)
  unfolding is_addressed is_valid_client
  occupied_addressed j fd o =
      let small : leb max_fd_limit fd ≡ false = ground (arith, o.below) in
      elim (Bool-cases (eqb_ℤ (pos fd) exclude)) [
        | inl same ↦ rw same
        | inr other ↦ rw (other, small, o.mapped)
      ]

  -- In a valid table, a broadcast addresses each descriptor that a client's slot polls, but for the
  -- excluded one.
  pub is_addressed-IsValid :
      (j fd : ℕ)
      → IsValid stx
      → 3 ≤ j
      → j < stx.max_clients + 3
      → (stx.pollers j).fd ≡ pos fd
      → is_addressed os stx exclude (pos fd) ≡ not (eqb_ℤ (pos fd) exclude)
  is_addressed-IsValid j fd v lo hi polled = elim (v.slots j lo hi) [
    | inl free ↦ absurd (cc)
    | inr (g, o) ↦
        let same : g ≡ fd = cc (o.polled) in
        subst (λ n. is_addressed os stx exclude (pos n) ≡ not (eqb_ℤ (pos n) exclude)) same
          (occupied_addressed j g o)
  ]
