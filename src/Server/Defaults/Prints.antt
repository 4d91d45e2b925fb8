-- ===== src/Server/Defaults/Prints.antt =====
-- What the default message callback prints, and that its local array holds it.
use mogakso.Server.State.{ClientInfo}
use mogakso.Server.Defaults.{
  newline, who_prefix, message_line, text_buffer, text_line, hex_line, payload_lines,
  def_on_complete_message,
}
use mogakso.Common.{
  ltb, ◌==◌, if◌then◌else◌, lt→ltb, Bool-cases, length, take, drop, replicate, length-take,
  length-replicate, codes, until_nul, decimal, hex_bytes, until_nul-append, done, memcpy,
  memcpy-fits, read_bytes-fits, memcpy-Copied, ℕ, zero, suc, ◌+◌, ◌≤◌, ◌<◌, min, ◌≡◌, refl, ap, ◌∙◌,
  inl, inr, Option, some, List, [], ◌∷◌, ◌++◌, arith,
}

-- What is to be printed of a payload: at most 255 bytes as text, up to a NUL, or at most 32 bytes in
-- hexadecimal.
abbrev pub shown : ℕ → List ℕ → ℕ → List ℕ
shown msg_type payload zero = []
shown msg_type payload (suc n) =
    if msg_type == 1
    then codes "Payload (as text, first "
      ++ decimal (min (suc n) 255)
      ++ codes " bytes): \""
      ++ until_nul (take (min (suc n) 255) payload)
      ++ codes "\""
      ++ newline
    else codes "Payload (hex, first "
      ++ decimal (min (suc n) 32)
      ++ codes " bytes):"
      ++ hex_bytes (take (min (suc n) 32) payload)
      ++ newline

-- A copy of `n` bytes to the front of `tmp`, and a NUL behind it.
terminated :
    (tmp bytes : List ℕ) (n : ℕ)
    → length bytes ≡ n
    → n < length tmp
    → (filled end : List ℕ) × (memcpy tmp 0 bytes ≡ done filled)
      × (memcpy filled n (0 ∷ []) ≡ done (bytes ++ 0 ∷ end))
terminated tmp bytes n size room =
    let c = memcpy-Copied tmp 0 bytes (omega arith) in
    (
      c.result,
      drop (n + 1) c.result,
      c.copies,
      memcpy-fits c.result n (0 ∷ []) (omega (arith, c.same_length))
          ∙ ap (λ xs. done (xs ++ 0 ∷ drop (n + 1) c.result))
              (ap (λ k. take k c.result) (let e : n ≡ 0 + length bytes = omega arith in e)
                ∙ c.front),
    )

text_line-prints :
    (payload : List ℕ) (len : ℕ)
    → len ≤ length payload
    → text_line payload len
      ≡ done (
          codes "Payload (as text, first "
          ++ decimal (min len 255)
          ++ codes " bytes): \""
          ++ until_nul (take (min len 255) payload)
          ++ codes "\""
          ++ newline)
unfolding text_line text_buffer
text_line-prints payload len held =
    let n = min len 255 in
    let cut : (if ltb len 256 then len else 255) ≡ min len 255 = ground arith in
    let (filled, end, copied, ended) =
      terminated (replicate 256 0) (take n payload) n (omega (arith, length-take n payload))
        (omega (arith, length-replicate {A = ℕ} 256 0)) in
    rw
      (
        cut,
        read_bytes-fits payload n (omega arith),
        copied,
        ended,
        until_nul-append (take n payload) end,
      )
      refl

hex_line-prints :
    (payload : List ℕ) (len : ℕ)
    → len ≤ length payload
    → hex_line payload len
      ≡ done (
          codes "Payload (hex, first "
          ++ decimal (min len 32)
          ++ codes " bytes):"
          ++ hex_bytes (take (min len 32) payload)
          ++ newline)
unfolding hex_line
hex_line-prints payload len held =
    let cut : (if ltb len 32 then len else 32) ≡ min len 32 = ground arith in
    rw (cut, read_bytes-fits payload (min len 32) (omega arith))

payload_lines-shown :
    (msg_type : ℕ) (payload : List ℕ) (len : ℕ)
    → len ≤ length payload
    → payload_lines msg_type (some payload) len ≡ done (shown msg_type payload len)
unfolding payload_lines
payload_lines-shown msg_type payload zero held = refl
payload_lines-shown msg_type payload (suc n) held =
    rw (lt→ltb 0 (suc n) (omega arith)) (elim (Bool-cases (msg_type == 1)) [
      | inl text ↦ rw text (text_line-prints payload (suc n) held)
      | inr other ↦ rw other (hex_line-prints payload (suc n) held)
    ])

-- For a payload of at least `len` bytes the default message callback stays within the payload and
-- its array of 256 bytes: it prints who, the line about the message and, if `len` is not 0, the first
-- 255 bytes of a chat text up to a NUL, or the first 32 bytes of another payload in hexadecimal.
pub def_on_complete_message-prints :
    (who : Option (List ℕ)) (client : Option ClientInfo) (msg_type : ℕ) (payload : List ℕ) (len : ℕ)
    → len ≤ length payload
    → def_on_complete_message who client msg_type (some payload) len
      ≡ done (who_prefix who ++ message_line client msg_type len ++ shown msg_type payload len)
unfolding def_on_complete_message
def_on_complete_message-prints who client msg_type payload len held =
    rw (payload_lines-shown msg_type payload len held)
