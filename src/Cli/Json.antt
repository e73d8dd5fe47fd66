-- ===== src/Cli/Json.antt =====
-- What encoding/json makes of a response for the command line, and how cmd/cli/main.go reads it.
use Prim.Native.Nat.{◌/◌, ◌%◌}
use orqestra.Base.{
  ℕ, zero, suc, ◌*◌, ◌^◌, ◌-◌, ℤ, pos, negsuc, Option, none, some, List, [], ◌∷◌, String, str_eq,
  ltb, if◌then◌else◌, ◌==◌,
}

-- A value in an object. A number is an integer, or it has a fraction after its integer part, below zero or
-- not; what has no number and no text is `other`.
pub data Value : Type 0 where
  number : ℤ → Value
  below_zero : ℕ → Value
  above_zero : ℕ → Value
  string : String → Value
  other : Value

abbrev pub Object : Type 0
Object = List (String × Value)

-- An element of an array, by whether it is an object.
pub data Element : Type 0 where
  entry : Object → Element
  no_object : Element

pub data Document : Type 0 where
  map_of : Object → Document
  array_of : List Element → Document
  null : Document
  -- a number, a string or a bool
  other_document : String → Document
  malformed : String → Document

-- The last value for the key.
unfoldable pub field : String → Object → Option Value
field key [] = none
field key ((k, v) ∷ o) = elim (field key o) [
  | some v' ↦ some v'
  | none ↦ if str_eq k key then some v else none
]

-- How often a number is halved until it has 53 bits.
excess : ℕ → ℕ → ℕ
excess zero n = 0
excess (suc fuel) n = let more = excess fuel (n / 2) in if ltb n (2 ^ 53) then 0 else suc more

half_even : ℕ → ℕ → ℕ → ℕ
half_even q r unit =
    if ltb (2 * r) unit
    then q
    else if ltb unit (2 * r)
    then suc q
    else if q % 2 == 0
    then q
    else suc q

unfoldable pub rounded : ℕ → ℕ
unfolding excess half_even
rounded n = let unit = 2 ^ excess 1024 n in half_even (n / unit) (n % unit) unit * unit

-- The float64 nearest to a number of at most 1024 bits, to even in between.
unfoldable pub float64 : ℕ → ℕ
float64 n = if ltb n (2 ^ 53) then n else rounded n

-- Toward zero; what an int cannot hold is the lowest one on amd64.
unfoldable pub converted : ℤ → ℤ
converted (pos n) = if ltb n (2 ^ 63) then pos n else negsuc (2 ^ 63 - 1)
converted (negsuc n) = if ltb n (2 ^ 63) then negsuc n else negsuc (2 ^ 63 - 1)

negated : ℕ → ℤ
negated zero = pos 0
negated (suc n) = negsuc n

-- A float64 with a fraction has an integer part of at most 52 bits.
unfoldable pub int_of : Value → ℤ
unfolding float64 converted negated
int_of (number (pos n)) = converted (pos (float64 n))
int_of (number (negsuc n)) = converted (negated (float64 (suc n)))
int_of (above_zero n) = pos n
int_of (below_zero n) = negated n
int_of (string s) = pos 0
int_of other = pos 0

unfoldable pub str_of : Value → String
str_of (string s) = s
str_of (number n) = ""
str_of (above_zero n) = ""
str_of (below_zero n) = ""
str_of other = ""

-- A missing key is the zero value.
unfoldable pub int_field : Object → String → ℤ
unfolding field int_of
int_field o key = elim (field key o) [ none ↦ pos 0 | some v ↦ int_of v ]

unfoldable pub str_field : Object → String → String
unfolding field str_of
str_field o key = elim (field key o) [ none ↦ "" | some v ↦ str_of v ]
