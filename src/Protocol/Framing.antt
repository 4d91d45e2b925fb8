-- ===== src/Protocol/Framing.antt =====
-- protocol.c: `frame_message`, which writes one frame into the caller's buffer.
use mogakso.Common.{
  ltb, if◌then◌else◌, lt→ltb, length, take, drop, length-append, length-take, length-drop, take-all,
  drop-drop, ℤ, pos, negsuc, signed32, Run, done, fault, ◌>>=◌, memcpy, read_bytes, memcpy-fits,
  read_bytes-fits, ℕ, ◌+◌, ◌-◌, ◌/◌, ◌%◌, ◌^◌, ◌≤◌, ◌<◌, ◌≡◌, refl, sym, ap, ◌∙◌, fun_ext, false,
  Option, none, some, List, [], ◌∷◌, ◌++◌, arith,
}
use mogakso.Protocol.Wire.{header_size, htonl_bytes}

-- `HEADER_SIZE + payload_len`, a `size_t`.
frame_size : ℕ → ℕ
frame_size payload_len = (header_size + payload_len) % 2 ^ 64

-- `out_buffer[0] = type` and the length field: the first five bytes.
unfoldable pub header_bytes : ℕ → ℕ → List ℕ
header_bytes type payload_len = (type % 256) ∷ htonl_bytes (payload_len % 2 ^ 32)

-- `memcpy(out_buffer + HEADER_SIZE, payload, payload_len)` under its guard.
write_payload : List ℕ → Option (List ℕ) → ℕ → Run (List ℕ)
write_payload out none payload_len = done out
write_payload out (some payload) payload_len =
    if ltb 0 payload_len
    then (do bytes ← read_bytes payload payload_len; memcpy out header_size bytes)
    else done out

write_frame : ℕ → Option (List ℕ) → ℕ → List ℕ → ℕ → Run (ℤ × List ℕ)
unfolding frame_size header_bytes write_payload
write_frame type payload payload_len out buffer_len =
    if ltb buffer_len (frame_size payload_len) then done (negsuc 0, out) else do
      headed ← memcpy out 0 (header_bytes type payload_len)
      framed ← write_payload headed payload payload_len
      done (signed32 (frame_size payload_len), framed)

-- The result is the returned `int` and the contents of the output buffer afterwards.
unfoldable pub frame_message :
    ℕ → Option (List ℕ) → ℕ → Option (List ℕ) → ℕ → Run (ℤ × Option (List ℕ))
unfolding write_frame
frame_message type payload payload_len none buffer_len = done (negsuc 0, none)
frame_message type payload payload_len (some out) buffer_len = do
  (n, out') ← write_frame type payload payload_len out buffer_len
  done (n, some out')

-- The frame of a message: type, length, payload.
unfoldable pub frame : ℕ → List ℕ → List ℕ
unfolding header_bytes
frame type payload = header_bytes type (length payload) ++ payload

write_header_lem :
    (type n : ℕ) (out : List ℕ)
    → 5 ≤ length out
    → memcpy out 0 (header_bytes type n) ≡ done (header_bytes type n ++ drop 5 out)
unfolding header_bytes
write_header_lem type n out room = memcpy-fits out 0 (header_bytes type n) (omega arith)

write_payload_lem :
    (type n : ℕ) (payload rest : List ℕ)
    → length payload ≤ length rest
    → write_payload (header_bytes type n ++ rest) (some payload) (length payload)
      ≡ done (header_bytes type n ++ (payload ++ drop (length payload) rest))
unfolding header_bytes write_payload
write_payload_lem type n [] rest room = refl
write_payload_lem type n (b ∷ bs) rest room = rw (
  lt→ltb 0 (length (b ∷ bs)) (omega arith),
  read_bytes-fits (b ∷ bs) (length (b ∷ bs)) (omega arith),
  take-all (length (b ∷ bs)) (b ∷ bs) (omega arith),
  memcpy-fits (header_bytes type n ++ rest) 5 (b ∷ bs) (omega arith),
  ← drop-drop 5 (length (b ∷ bs)) (header_bytes type n ++ rest),
)

-- The whole of a frame that fits.
pub frame_message_lem :
    (type : ℕ) (payload out : List ℕ) (buffer_len : ℕ)
    → 5 + length payload ≤ buffer_len
    → buffer_len ≤ length out
    → 5 + length payload < 2 ^ 31
    → frame_message type (some payload) (length payload) (some out) buffer_len
      ≡ done (pos (5 + length payload), some (frame type payload ++ drop (5 + length payload) out))
unfolding frame_message frame
frame_message_lem type payload out buffer_len room held small = rw (
  fits,
  frame_message,
  write_header_lem type (length payload) out (omega arith),
  write_payload_lem type (length payload) payload (drop 5 out) (omega (arith, length-drop 5 out)),
  drop-drop 5 (length payload) out,
  size,
)
  where
    fits : ltb buffer_len (frame_size (length payload)) ≡ false
    fits = ground arith

    size : signed32 (frame_size (length payload)) ≡ pos (5 + length payload)
    size = ground arith

-- Given a buffer of at least `buffer_len` bytes, a `buffer_len` that leaves room for the frame, and a
-- frame shorter than 2 ^ 31 bytes, `frame_message` returns the length of the frame and puts the frame
-- at the front of the buffer: the low byte of the type, the length of the payload in four bytes, the
-- highest first, and the payload. It leaves the rest of the buffer alone.
pub frame_message-frame :
    (type : ℕ) (payload out : List ℕ) (buffer_len : ℕ)
    → 5 + length payload ≤ buffer_len
    → buffer_len ≤ length out
    → 5 + length payload < 2 ^ 31
    → let n = length payload in
      frame_message type (some payload) n (some out) buffer_len
      ≡ done (
        pos (5 + n),
        some (
            (type % 256)
            ∷ (n / 2 ^ 24)
            ∷ (n / 2 ^ 16 % 256)
            ∷ (n / 2 ^ 8 % 256)
            ∷ (n % 256)
            ∷ (payload ++ drop (5 + n) out)),
      )
unfolding frame header_bytes
frame_message-frame type payload out buffer_len room held small =
    frame_message_lem type payload out buffer_len room held small
    ∙ ap
        (λ (b : ℕ × ℕ × ℕ × ℕ). done (
          pos (5 + length payload),
          some ((type % 256) ∷ b.0 ∷ b.1 ∷ b.2 ∷ b.3 ∷ (payload ++ drop (5 + length payload) out)),
        ))
        (digits (length payload) (omega arith))
  where
    digits :
        (n : ℕ)
        → n < 2 ^ 31
        → ◌≡◌ {A = ℕ × ℕ × ℕ × ℕ}
            (
              n % 2 ^ 32 / 2 ^ 24 % 256,
              n % 2 ^ 32 / 2 ^ 16 % 256,
              n % 2 ^ 32 / 2 ^ 8 % 256,
              n % 2 ^ 32 % 256,
            )
            (n / 2 ^ 24, n / 2 ^ 16 % 256, n / 2 ^ 8 % 256, n % 256)
    digits n lt =
        let same : n % 2 ^ 32 ≡ n = omega arith in
        let top : n / 2 ^ 24 % 256 ≡ n / 2 ^ 24 = omega arith in rw (same, top) refl

-- `frame_message` returns -1 and writes nothing where it is given no buffer, or a buffer
-- length below `HEADER_SIZE + payload_len` (as a `size_t`).
pub frame_message-refuses :
    (type : ℕ) (payload : Option (List ℕ)) (n : ℕ) (out : List ℕ) (buffer_len : ℕ)
    → (frame_message type payload n none buffer_len ≡ done (negsuc 0, none))
      × (buffer_len < (5 + n) % 2 ^ 64
          → frame_message type payload n (some out) buffer_len ≡ done (negsuc 0, some out))
unfolding frame_message frame_size
frame_message-refuses type payload n out buffer_len =
    (refl, λ h. rw (lt→ltb buffer_len (frame_size n) h, frame_message))

-- A `payload_len` within five of `SIZE_MAX` passes the length check of every buffer that holds a
-- header, since `HEADER_SIZE + payload_len` wraps, and the copy of the payload leaves its objects.
pub frame_message_overflow :
    (type : ℕ) (payload out : List ℕ) (n : ℕ)
    → 2 ^ 64 - 5 ≤ n
    → n < 2 ^ 64
    → 5 ≤ length out
    → length out < 2 ^ 64
    → frame_message type (some payload) n (some out) (length out) ≡ fault
unfolding frame_message write_payload read_bytes memcpy frame_size header_bytes
frame_message_overflow type payload out n lo hi room small =
    ground (arith, length-append (take n payload) [], length-take n payload, length-drop 5 out)

pub length-frame : (type : ℕ) (payload : List ℕ) → length (frame type payload) ≡ 5 + length payload
unfolding frame
length-frame type payload = omega arith

-- Only the first `n` bytes of the payload count.
write_payload-take :
    (headed payload : List ℕ) (n : ℕ)
    → n ≤ length payload
    → write_payload headed (some payload) n ≡ write_payload headed (some (take n payload)) n
unfolding write_payload
write_payload-take headed payload n held =
    ap (λ r. if ltb 0 n then r >>= (λ bytes. memcpy headed header_size bytes) else done headed)
      (read_bytes-fits payload n held
        ∙ sym (
            read_bytes-fits (take n payload) n (omega (arith, length-take n payload))
            ∙ ap done (take-all n (take n payload) (omega (arith, length-take n payload)))))

pub frame_message-take :
    (type : ℕ) (payload out : List ℕ) (n buffer_len : ℕ)
    → n ≤ length payload
    → frame_message type (some payload) n (some out) buffer_len
      ≡ frame_message type (some (take n payload)) n (some out) buffer_len
unfolding frame_message
frame_message-take type payload out n buffer_len held =
    ap
      (λ (w : List ℕ → Run (List ℕ)).
        (if ltb buffer_len (frame_size n) then done (negsuc 0, out) else do
          headed ← memcpy out 0 (header_bytes type n)
          framed ← w headed
          done (signed32 (frame_size n), framed))
        >>= λ (r, out'). done (r, some out'))
      (fun_ext (λ headed. write_payload-take headed payload n held))

-- A length beyond the payload's end, for which the buffer has room, is read beyond the end.
pub frame_message-overreads :
    (type : ℕ) (payload out : List ℕ) (n buffer_len : ℕ)
    → length payload < n
    → 5 + n ≤ buffer_len
    → buffer_len ≤ length out
    → 5 + n < 2 ^ 64
    → frame_message type (some payload) n (some out) buffer_len ≡ fault
unfolding frame_message write_payload read_bytes memcpy frame_size header_bytes
frame_message-overreads type payload out n buffer_len short room held small = ground arith
