-- ===== src/Common/Text.antt =====
-- String literals of the source as the bytes they stand for, and the conversions of `printf` that
-- the program uses: `%s`, `%d` and `%zu`, `%02X`.
use Prim.Native.Nat.{ℕ, zero, suc, ◌+◌, ◌-◌, ◌/◌, ◌%◌}
use Prim.Native.Char.{code}
use Prim.Native.String.{String}
use mathlib.Core.Path.{◌≡◌, refl, ap}
use mathlib.Core.List.{List, [], ◌∷◌, ◌++◌}
use mogakso.Common.Tests.{ltb, ◌==◌, if◌then◌else◌}
use mogakso.Common.Int.{ℤ, pos, negsuc}

-- The bytes of a text, which is ASCII.
abbrev pub codes : String → List ℕ
codes String.[] = []
codes (String.◌∷◌ c s) = code c ∷ codes s

-- What `%s` prints of an array: the bytes before the first NUL.
unfoldable pub until_nul : List ℕ → List ℕ
until_nul [] = []
until_nul (b ∷ bs) = if b == 0 then [] else b ∷ until_nul bs

-- The digits of a number, on fuel: a number has fewer digits than its successor counts.
digits : ℕ → ℕ → List ℕ
digits zero n = []
digits (suc fuel) n =
    let front = digits fuel (n / 10) in
    if ltb n 10 then (n + b'0') ∷ [] else front ++ (n % 10 + b'0') ∷ []

-- `%zu`, and `%d` of a number that is not negative.
unfoldable pub decimal : ℕ → List ℕ
unfolding digits
decimal n = digits (suc n) n

-- `%d`.
unfoldable pub signed_decimal : ℤ → List ℕ
unfolding decimal
signed_decimal (pos n) = decimal n
signed_decimal (negsuc n) = b'-' ∷ decimal (suc n)

hex_digit : ℕ → ℕ
hex_digit n = if ltb n 10 then n + b'0' else n - 10 + b'A'

-- `" %02X"` of each byte.
unfoldable pub hex_bytes : List ℕ → List ℕ
unfolding hex_digit
hex_bytes [] = []
hex_bytes (b ∷ bs) = b' ' ∷ hex_digit (b / 16) ∷ hex_digit (b % 16) ∷ hex_bytes bs

-- A NUL ends what `%s` prints, whatever stands behind it.
pub until_nul-append : (front rest : List ℕ) → until_nul (front ++ 0 ∷ rest) ≡ until_nul front
unfolding until_nul
until_nul-append [] rest = refl
until_nul-append (b ∷ front) rest =
    ap (λ t. if b == 0 then [] else b ∷ t) (until_nul-append front rest)
