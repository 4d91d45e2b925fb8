-- ===== src/Server/Lifecycle/Closing.antt =====
-- The descriptors that the cleanup of a context closes, as lists.
use mogakso.Server.Lifecycle.{closes, closes_all, cleanup_server_context, no_fds}
use mogakso.Common.{
  if◌then◌else◌, replicate, ℤ, pos, ℕ, zero, suc, ◌≡◌, refl, sym, ap, ◌∙◌, Bool, true, false,
  Option, none, some, List, [], ◌∷◌, ◌++◌, append_assoc,
}

-- The descriptors of a pipe, if it was made.
abbrev pub pipe_ends : Option (ℤ × ℤ) → List ℤ
pipe_ends none = []
pipe_ends (some (r, w)) = closes r ++ closes w

-- The descriptors of a pipe, or -1 twice.
abbrev pub pipe_fds : Option (ℤ × ℤ) → ℤ × ℤ
pipe_fds none = no_fds
pipe_fds (some fds) = fds

-- The second pipe is asked for once there is the first.
abbrev pub second_pipe : Option (ℤ × ℤ) → Option (ℤ × ℤ) → Option (ℤ × ℤ)
second_pipe none command = none
second_pipe (some shutdown) command = command

zeros-close : (m : ℕ) → closes_all (replicate m (pos 0)) ≡ replicate m (pos 0)
zeros-close zero = refl
zeros-close (suc m) = ap (◌∷◌ (pos 0)) (zeros-close m)

pub ends-split :
    (pipe : Option (ℤ × ℤ)) (rest : List ℤ)
    → closes (pipe_fds pipe).0 ++ (closes (pipe_fds pipe).1 ++ rest) ≡ pipe_ends pipe ++ rest
ends-split none rest = refl
ends-split (some (r, w)) rest = sym (append_assoc (closes r) (closes w) rest)

-- What the cleanup closes.
pub cleanup-closes :
    (m : ℕ) (has_clients : Bool) (shutdown command : Option (ℤ × ℤ)) (socket : ℤ)
    → cleanup_server_context (record {
      client_fds = if has_clients then replicate m (pos 0) else [];
      shutdown_fds = pipe_fds shutdown;
      command_fds = pipe_fds command;
      listening_fd = socket;
    })
      ≡ (if has_clients then replicate m (pos 0) else [])
        ++ (pipe_ends shutdown ++ (pipe_ends command ++ closes socket))
unfolding cleanup_server_context
cleanup-closes m has_clients shutdown command socket =
    ap
      (λ xs.
        closes_all (if has_clients then replicate m (pos 0) else [])
        ++ (closes (pipe_fds shutdown).0 ++ (closes (pipe_fds shutdown).1 ++ xs)))
      (ends-split command (closes socket))
    ∙ ap (λ xs. closes_all (if has_clients then replicate m (pos 0) else []) ++ xs)
        (ends-split shutdown (pipe_ends command ++ closes socket))
    ∙ ap (λ xs. xs ++ (pipe_ends shutdown ++ (pipe_ends command ++ closes socket)))
        (kept has_clients)
  where
    kept :
        (b : Bool)
        → closes_all (if b then replicate m (pos 0) else [])
          ≡ (if b then replicate m (pos 0) else [])
    kept true = zeros-close m
    kept false = refl
