-- ===== src/Command/Blocks.antt =====
-- What the constructors of commands build, on every branch.
use mogakso.Common.{
  ltb, if◌then◌else◌, Bool-cases, length, take, ℤ, done, read_bytes-fits, ℕ, ◌≤◌, ◌≡◌, refl, inl,
  inr, Bool, true, false, not, ◌&&◌, ◌||◌, Option, none, some, List,
}
use mogakso.Command.{
  send_message, broadcast_message, create_send_command, create_broadcast_command, destroy_command,
}

-- With memory, both constructors keep the arguments and a copy of the first `len` bytes of the
-- payload, or NULL for a payload that is NULL or has length 0, and `destroy_command` frees two
-- blocks or one accordingly. Without memory for the command they return NULL.
pub create_command-copies :
    (fd : ℤ) (type : ℕ) (payload : List ℕ) (len : ℕ)
    → len ≤ length payload
    → let kept : Option (List ℕ) = if ltb 0 len then some (take len payload) else none in
      (create_send_command true true fd type (some payload) len
        ≡ done (some (send_message fd type kept len)))
      × (create_broadcast_command true true type (some payload) len fd
          ≡ done (some (broadcast_message type kept len fd)))
      × (length (destroy_command (some (send_message fd type kept len)))
          ≡ (if ltb 0 len then 2 else 1))
      × (length (destroy_command (some (broadcast_message type kept len fd)))
          ≡ (if ltb 0 len then 2 else 1))
      × (create_send_command false true fd type (some payload) len ≡ done none)
      × (create_broadcast_command false true type (some payload) len fd ≡ done none)
unfolding create_send_command create_broadcast_command destroy_command
create_command-copies fd type payload len h = elim (Bool-cases (ltb 0 len)) [
  | inl some_bytes ↦ (
    rw (some_bytes, read_bytes-fits payload len h),
    rw (some_bytes, read_bytes-fits payload len h),
    rw some_bytes,
    rw some_bytes,
    refl,
    refl,
  )
  | inr empty ↦ (rw empty, rw empty, rw empty, rw empty, refl, refl)
]

-- A command comes of two allocations, the second only for a payload that is not empty.
pub create_command-branches :
    (given copied : Bool) (fd : ℤ) (type : ℕ) (payload : List ℕ) (len : ℕ)
    → len ≤ length payload
    → let kept : Option (List ℕ) = if ltb 0 len then some (take len payload) else none in
      let memory = given && (not (ltb 0 len) || copied) in
      (create_send_command given copied fd type (some payload) len
        ≡ done (if memory then some (send_message fd type kept len) else none))
      × (create_broadcast_command given copied type (some payload) len fd
          ≡ done (if memory then some (broadcast_message type kept len fd) else none))
unfolding create_send_command create_broadcast_command
create_command-branches false copied fd type payload len h = (refl, refl)
create_command-branches true copied fd type payload len h = elim (Bool-cases (ltb 0 len)) [
  | inr empty ↦ (rw empty, rw empty)
  | inl some_bytes ↦ elim (Bool-cases copied) [
    | inl memory ↦ (
      rw (some_bytes, memory, read_bytes-fits payload len h),
      rw (some_bytes, memory, read_bytes-fits payload len h),
    )
    | inr refused ↦ (rw (some_bytes, refused), rw (some_bytes, refused))
  ]
]
