-- ===== src/Base/Bytes.antt =====
-- Go's strings, which are bytes: the UTF-8 of a text, its length, a cut at a byte, and
-- `strings.TrimSpace`.
use Prim.Native.Nat.{ℕ, zero, suc, ◌+◌, ◌≤◌, ◌/◌, ◌%◌}
use Prim.Native.Char.{code}
use Prim.Native.String.{String}
use mathlib.Core.Path.{◌≡◌, refl, ap}
use mathlib.Core.Bool.{Bool, ◌&&◌, ◌||◌}
use mathlib.Core.List.{List, [], ◌∷◌, ◌++◌}
use native.Mathlib.Omega.{arith}
use text.Mathlib.Text.{◌==◌ as str_eq}
use orqestra.Base.Tests.{ltb, leb, ◌==◌, if◌then◌else◌}
use orqestra.Base.Lists.{length}

abbrev pub take {ℓ} : {A : Type ℓ} → ℕ → List A → List A
take zero xs = []
take (suc n) [] = []
take (suc n) (x ∷ xs) = x ∷ take n xs

abbrev pub drop {ℓ} : {A : Type ℓ} → ℕ → List A → List A
drop zero xs = xs
drop (suc n) [] = []
drop (suc n) (x ∷ xs) = drop n xs

pub take-append-drop {ℓ} : {A : Type ℓ} (n : ℕ) (xs : List A) → take n xs ++ drop n xs ≡ xs
take-append-drop zero xs = refl
take-append-drop (suc n) [] = refl
take-append-drop (suc n) (x ∷ xs) = ap (λ ys. x ∷ ys) (take-append-drop n xs)

pub length-take {ℓ} : {A : Type ℓ} (n : ℕ) (xs : List A) → n ≤ length xs → length (take n xs) ≡ n
length-take zero xs h = refl
length-take (suc n) [] h = absurd (omega arith)
length-take (suc n) (x ∷ xs) h = ap suc (length-take n xs (omega arith))

-- A byte that goes on with a character, by the six bits of the number from `n / unit` on.
continues : ℕ → ℕ → ℕ
continues n unit = 128 + n / unit % 64

unfoldable pub utf8_char : ℕ → List ℕ
unfolding continues
utf8_char n =
    if ltb n 128
    then n ∷ []
    else if ltb n 2048
    then (192 + n / 64) ∷ continues n 1 ∷ []
    else if ltb n 65536
    then (224 + n / 4096) ∷ continues n 64 ∷ continues n 1 ∷ []
    else (240 + n / 262144) ∷ continues n 4096 ∷ continues n 64 ∷ continues n 1 ∷ []

-- `[]byte(s)`.
unfoldable pub utf8 : String → List ℕ
unfolding utf8_char
utf8 String.[] = []
utf8 (String.◌∷◌ c s) = utf8_char (code c) ++ utf8 s

-- `unicode.IsSpace`.
unfoldable pub is_space : ℕ → Bool
is_space n =
    (leb 9 n && leb n 13)
    || (leb 8192 n && leb n 8202)
    || (n == 32 || n == 133 || n == 160 || n == 5760)
    || (n == 8232 || n == 8233 || n == 8239 || n == 8287 || n == 12288)

unfoldable pub trim_left : (ℕ → Bool) → String → String
trim_left p String.[] = ""
trim_left p (String.◌∷◌ c s) = if p (code c) then trim_left p s else String.◌∷◌ c s

unfoldable pub trim_right : (ℕ → Bool) → String → String
trim_right p String.[] = ""
trim_right p (String.◌∷◌ c s) =
    let rest = trim_right p s in if p (code c) && str_eq rest "" then "" else String.◌∷◌ c rest

unfoldable pub trim_space : String → String
unfolding trim_left trim_right is_space
trim_space s = trim_right is_space (trim_left is_space s)

-- `strings.Trim(s, "'")`.
unfoldable pub trim_quotes : String → String
unfolding trim_left trim_right
trim_quotes s = trim_right (λ n. n == 39) (trim_left (λ n. n == 39) s)
