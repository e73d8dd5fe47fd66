-- ===== src/Base/Numerals.antt =====
-- Numbers in texts: `%d` of fmt, and `strconv.Atoi`.
use Prim.Native.Nat.{ℕ, zero, suc, ◌+◌, ◌-◌, ◌*◌, ◌^◌, ◌/◌, ◌%◌}
use Prim.Native.Char.{code}
use Prim.Native.String.{String, ◌++◌ as str_append}
use mathlib.Core.Bool.{Bool, ◌&&◌}
use mathlib.Core.Option.{Option, none, some}
use orqestra.Base.Tests.{ltb, leb, ◌==◌, if◌then◌else◌}

pub data ℤ : Type 0 where
  pos : ℕ → ℤ
  negsuc : ℕ → ℤ

unfoldable pub digit : ℕ → String
digit d =
    if d == 0
    then "0"
    else if d == 1
    then "1"
    else if d == 2
    then "2"
    else if d == 3
    then "3"
    else if d == 4
    then "4"
    else if d == 5
    then "5"
    else if d == 6
    then "6"
    else if d == 7
    then "7"
    else if d == 8
    then "8"
    else "9"

-- `%d`; `n` is fuel enough, since every digit shortens the number.
unfoldable pub decimal : ℕ → ℕ → String
unfolding digit
decimal zero n = digit n
decimal (suc fuel) n =
    let front = decimal fuel (n / 10) in
    if ltb n 10 then digit n else str_append front (digit (n % 10))

-- `%d` of an int.
unfoldable pub show : ℤ → String
unfolding decimal
show (pos n) = decimal n n
show (negsuc n) = str_append "-" (decimal (suc n) (suc n))

unfoldable pub is_digit : ℕ → Bool
is_digit n = leb 48 n && leb n 57

-- The digits of a text, after the number that stands before them.
unfoldable pub digits : ℕ → String → Option ℕ
unfolding is_digit
digits n String.[] = some n
digits n (String.◌∷◌ c s) =
    let rest = digits (n * 10 + (code c - 48)) s in if is_digit (code c) then rest else none

unfoldable pub below : ℕ → (ℕ → ℤ) → Option ℕ → Option ℤ
below limit sign none = none
below limit sign (some n) = if ltb n limit then some (sign n) else none

negated : ℕ → ℤ
negated zero = pos 0
negated (suc n) = negsuc n

-- At least one digit, after the sign.
unfoldable pub unsigned : ℕ → (ℕ → ℤ) → String → Option ℤ
unfolding digits below
unsigned limit sign String.[] = none
unsigned limit sign (String.◌∷◌ c s) = below limit sign (digits 0 (String.◌∷◌ c s))

-- An int has 64 bits.
unfoldable pub atoi : String → Option ℤ
unfolding unsigned negated
atoi String.[] = none
atoi (String.◌∷◌ c s) =
    if code c == 43
    then unsigned (2 ^ 63) pos s
    else if code c == 45
    then unsigned (2 ^ 63 + 1) negated s
    else unsigned (2 ^ 63) pos (String.◌∷◌ c s)
