-- ===== src/Server/Lifecycle/Fresh.antt =====
-- What `server_create` gives, and what destroying it closes.
use mogakso.Server.Lifecycle.Closing.{pipe_ends, pipe_fds, second_pipe, cleanup-closes}
use mogakso.Server.Lifecycle.{
  CreateAnswers, new_socket, listens, closes, closes_all, cleanup_server_context, fds_of,
  server_destroy, Created, created, failed, no_fds, first_pollers, new_context, held, create_pipes,
  create_socket, server_create,
}
use mogakso.Common.{
  if◌then◌else◌, ne→==_false, Bool-cases, Option-cases, replicate, ℤ, pos, ℕ, zero, suc, ◌+◌, ◌≤◌,
  ◌≡◌, refl, sym, ap, ◌∙◌, inl, inr, Bool, true, false, ◌&&◌, Option, none, some, List, [], ◌++◌,
  append_assoc, arith,
}
use mogakso.Server.State.{stopped, ServerContext}
use mogakso.Server.Slots.Valid.{used, IsValid}

used-free : (rounds i : ℕ) (a b c : ℤ) → 3 ≤ i → used rounds i (first_pollers a b c) ≡ 0
unfolding used
used-free zero i a b c h = refl
used-free (suc rounds) i a b c h = ground (arith, used-free rounds (i + 1) a b c)

module _ {Q : Type 0} where
  pub new_context-IsValid :
      (socket : ℤ) (shutdown command : ℤ × ℤ) (queue : Q) (port max_clients : ℕ)
      → IsValid (new_context socket shutdown command queue port max_clients)
  new_context-IsValid socket shutdown command queue port max_clients = record {
    slots = λ j lo hi. inl (
        rw (
          ne→==_false j 0 (omega arith),
          ne→==_false j 1 (omega arith),
          ne→==_false j 2 (omega arith),
        ));
    map_back = λ fd i e. absurd (cc);
    count = sym (used-free max_clients 3 socket shutdown.0 command.0 (omega arith));
  }

  -- The pipes are asked for once there are the slots' arrays.
  abbrev reaches_pipes : CreateAnswers Q → Bool
  reaches_pipes answers = listens answers && (answers.clients_ok && answers.pollers_ok)

  abbrev pipes_of : CreateAnswers Q → List ℤ
  pipes_of answers =
      pipe_ends answers.shutdown_pipe
      ++ pipe_ends (second_pipe answers.shutdown_pipe answers.command_pipe)

  -- What the system has opened by the end.
  abbrev pub opened_by : CreateAnswers Q → List ℤ
  opened_by answers =
      (if reaches_pipes answers then pipes_of answers else []) ++ closes (new_socket answers)

  -- Descriptor 0 for each slot of `clients`, if the array is there.
  abbrev pub zeros : CreateAnswers Q → ℕ → List ℤ
  zeros answers m = if listens answers && answers.clients_ok then replicate m (pos 0) else []

  -- A new context is valid and stopped, and destroying it closes the zeros and what was opened; a
  -- failure has closed these.
  abbrev pub Fresh : ℕ → (zeros opened : List ℤ) → Created Q → Type 0
  Fresh m zs fds (created stx) =
      IsValid stx
      × (stx.server_state ≡ stopped)
      × (server_destroy stx ≡ some (replicate m (pos 0) ++ fds))
  Fresh m zs fds (failed closed_fds) = closed_fds ≡ zs ++ fds

  fds-fresh :
      (stx : ServerContext Q) (rounds i : ℕ)
      → ((k : ℕ) → (stx.clients k).socket_fd ≡ pos 0)
      → closes_all (fds_of stx rounds i) ≡ replicate rounds (pos 0)
  fds-fresh stx zero i h = refl
  fds-fresh stx (suc rounds) i h = rw (h i, fds-fresh stx rounds (i + 1) h)

  destroyed :
      (socket r w r' w' : ℤ) (queue : Q) (port m : ℕ)
      → server_destroy (new_context socket (r, w) (r', w') queue port m)
        ≡ some (
            replicate m (pos 0)
            ++ ((pipe_ends (some (r, w)) ++ pipe_ends (some (r', w'))) ++ closes socket))
  unfolding server_destroy cleanup_server_context
  destroyed socket r w r' w' queue port m =
      let stx = new_context socket (r, w) (r', w') queue port m in
      let a = closes r in
      let b = closes w in
      let c = closes r' in
      let d = closes w' in
      ap some (
        ap (λ xs. xs ++ (a ++ (b ++ (c ++ (d ++ closes socket))))) (fds-fresh stx m 0 (λ k. refl))
        ∙ ap (λ xs. replicate m (pos 0) ++ xs)
            (ap (λ xs. a ++ (b ++ xs)) (sym (append_assoc c d (closes socket)))
              ∙ sym (append_assoc a b ((c ++ d) ++ closes socket))
              ∙ sym (append_assoc (a ++ b) (c ++ d) (closes socket))))

  module _ (answers : CreateAnswers Q) (port m : ℕ) where
    failed-Fresh :
        (has_clients : Bool) (shutdown command : Option (ℤ × ℤ))
        → cleanup_server_context
            (held answers port m has_clients (pipe_fds shutdown) (pipe_fds command))
          ≡ (if has_clients then replicate m (pos 0) else [])
            ++ ((pipe_ends shutdown ++ pipe_ends command) ++ closes (new_socket answers))
    failed-Fresh has_clients shutdown command =
        cleanup-closes m has_clients shutdown command (new_socket answers)
        ∙ ap (λ xs. (if has_clients then replicate m (pos 0) else []) ++ xs)
            (sym
              (append_assoc (pipe_ends shutdown) (pipe_ends command) (closes (new_socket answers))))

    create_pipes-Fresh :
        Fresh m
          (replicate m (pos 0))
          (pipes_of answers ++ closes (new_socket answers))
          (create_pipes answers port m)
    unfolding create_pipes
    create_pipes-Fresh = elim (Option-cases answers.shutdown_pipe) [
      | inl no_pipe ↦ rw no_pipe (failed-Fresh true none none)
      | inr ((r, w), e) ↦ elim (Option-cases answers.command_pipe) [
        | inl no_pipe ↦ rw (e, no_pipe) (failed-Fresh true (some (r, w)) none)
        | inr ((r', w'), e') ↦ elim (Option-cases answers.new_queue) [
          | inl no_queue ↦ rw (e, e', no_queue) (failed-Fresh true (some (r, w)) (some (r', w')))
          | inr (queue, e'') ↦ elim (Bool-cases answers.mutex_ok) [
            | inl good ↦
                rw (e, e', e'', good)
                  (
                    new_context-IsValid (new_socket answers) (r, w) (r', w') queue port m,
                    refl,
                    destroyed (new_socket answers) r w r' w' queue port m,
                  )
            | inr bad ↦ rw (e, e', e'', bad) (failed-Fresh true (some (r, w)) (some (r', w')))
          ]
        ]
      ]
    ]

    create_socket-Fresh :
        (hears has_clients has_pollers : Bool) (c : Created Q)
        → Fresh m (replicate m (pos 0)) (pipes_of answers ++ closes (new_socket answers)) c
        → Fresh m
            (if hears && has_clients then replicate m (pos 0) else [])
            ((if hears && (has_clients && has_pollers) then pipes_of answers else [])
              ++ closes (new_socket answers))
            (if hears
              then (if has_clients && has_pollers
                  then c
                  else failed
                      (cleanup_server_context (held answers port m has_clients no_fds no_fds)))
              else failed (cleanup_server_context (held answers port m false no_fds no_fds)))
    create_socket-Fresh false has_clients has_pollers c h = failed-Fresh false none none
    create_socket-Fresh true true true c h = h
    create_socket-Fresh true true false c h = failed-Fresh true none none
    create_socket-Fresh true false has_pollers c h = failed-Fresh false none none

  -- `server_create` for a positive number of clients, once it has its context, either gives a context
  -- that is stopped and whose slot table is valid, or fails. A failure closes, wherever it happens,
  -- each descriptor that was opened, and destroying the context closes each of them; but both close
  -- descriptor 0 too, once for each slot, if the slots' array is there.
  pub server_create-Fresh :
      (answers : CreateAnswers Q) (port max_clients : ℕ)
      → answers.context_ok ≡ true
      → Fresh
          (suc max_clients)
          (zeros answers (suc max_clients))
          (opened_by answers)
          (server_create answers port (pos (suc max_clients)))
  unfolding server_create create_socket
  server_create-Fresh answers port max_clients given =
      let m = suc max_clients in
      context (create_socket answers port m) answers.context_ok given (
        create_socket-Fresh answers port m (listens answers) answers.clients_ok answers.pollers_ok
          (create_pipes answers port m) (create_pipes-Fresh answers port m))
    where
      context :
          (c : Created Q) (context_ok : Bool)
          → context_ok ≡ true
          → Fresh (suc max_clients) (zeros answers (suc max_clients)) (opened_by answers) c
          → Fresh
              (suc max_clients)
              (zeros answers (suc max_clients))
              (opened_by answers)
              (if context_ok then c else failed [])
      context c true e h = h
      context c false e h = cc
