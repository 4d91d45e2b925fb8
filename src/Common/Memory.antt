-- ===== src/Common/Memory.antt =====
-- Runs of C code that may touch memory outside its objects, or loop on fuel; and `memcpy`.
use Prim.Native.Nat.{ℕ, ◌+◌, ◌≤◌}
use mathlib.Core.Path.{◌≡◌, ap, sym, ◌∙◌}
use mathlib.Core.List.{List, ◌++◌, append_assoc}
use native.Mathlib.Omega.{arith}
use mogakso.Common.Tests.{leb, if◌then◌else◌}
use mogakso.Common.Lists.{
  length, take, drop, length-append, length-take, length-drop, take-append-length,
}

-- `fault` is an access outside an object; `out_of_fuel` is no behaviour of the code.
pub data Run {ℓ} (A : Type ℓ) : Type ℓ where
  done : A → Run A
  fault : Run A
  out_of_fuel : Run A

infixl 5 ◌>>=◌
abbrev pub ◌>>=◌ {ℓ κ} : {A : Type ℓ} {B : Type κ} → Run A → (A → Run B) → Run B
done a >>= f = f a
fault >>= f = fault
out_of_fuel >>= f = out_of_fuel

-- `memcpy(buffer + offset, bytes, length bytes)` into an object of `length buffer` bytes.
unfoldable pub memcpy : List ℕ → ℕ → List ℕ → Run (List ℕ)
memcpy buffer offset bytes =
    if leb (offset + length bytes) (length buffer)
    then done (take offset buffer ++ (bytes ++ drop (offset + length bytes) buffer))
    else fault

-- `memcpy(dst, src, n)` also reads `n` bytes of its source.
unfoldable pub read_bytes : List ℕ → ℕ → Run (List ℕ)
read_bytes source n = if leb n (length source) then done (take n source) else fault

pub memcpy-fits :
    (buffer : List ℕ) (offset : ℕ) (bytes : List ℕ)
    → offset + length bytes ≤ length buffer
    → memcpy buffer offset bytes
      ≡ done (take offset buffer ++ (bytes ++ drop (offset + length bytes) buffer))
unfolding memcpy
memcpy-fits buffer offset bytes h = ground arith

pub read_bytes-fits :
    (source : List ℕ) (n : ℕ) → n ≤ length source → read_bytes source n ≡ done (take n source)
unfolding read_bytes
read_bytes-fits source n h = ground arith

-- What a copy that fits leaves in the buffer.
pub record Copied (buffer : List ℕ) (offset : ℕ) (bytes : List ℕ) : Type 0 where
  pub result : List ℕ
  pub copies : memcpy buffer offset bytes ≡ done result
  pub same_length : length result ≡ length buffer
  pub front : take (offset + length bytes) result ≡ take offset buffer ++ bytes

pub memcpy-Copied :
    (buffer : List ℕ) (offset : ℕ) (bytes : List ℕ)
    → offset + length bytes ≤ length buffer
    → Copied buffer offset bytes
memcpy-Copied buffer offset bytes h = record {
  result = take offset buffer ++ (bytes ++ drop (offset + length bytes) buffer);
  copies = memcpy-fits buffer offset bytes h;
  same_length = ground (
    arith,
    length-append (take offset buffer) (bytes ++ drop (offset + length bytes) buffer),
    length-append bytes (drop (offset + length bytes) buffer),
    length-take offset buffer,
    length-drop (offset + length bytes) buffer,
  );
  front =
      ap (take (offset + length bytes))
        (sym (append_assoc (take offset buffer) bytes (drop (offset + length bytes) buffer)))
      ∙ ap (λ k. take k ((take offset buffer ++ bytes) ++ drop (offset + length bytes) buffer)) size
      ∙ take-append-length (take offset buffer ++ bytes) (drop (offset + length bytes) buffer);
}
  where
    size : offset + length bytes ≡ length (take offset buffer ++ bytes)
    size = omega (arith, length-append (take offset buffer) bytes, length-take offset buffer)
