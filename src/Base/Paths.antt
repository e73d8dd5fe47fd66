-- ===== src/Base/Paths.antt =====
-- URL paths: segments that are joined by "/" and split at it.
use Prim.Native.Nat.{ℕ, zero, suc, ◌/◌, ◌%◌}
use Prim.Native.Char.{Char, code}
use Prim.Native.String.{String, ◌++◌ as str_append}
use text.Mathlib.TextLemmas.{cons-append, nil-append}
use mathlib.Core.Path.{◌≡◌, refl, ap, sym, ◌∙◌}
use mathlib.Core.Bool.{Bool, true, false}
use mathlib.Core.Logic.{inl, inr}
use mathlib.Core.List.{List, [], ◌∷◌}
use orqestra.Base.Tests.{ltb, ◌==◌, if◌then◌else◌, Bool-cases}
use orqestra.Base.Lists.{all}
use orqestra.Base.Numerals.{pos, digit, decimal, show}
use orqestra.Base.Printed.{digit_cases}

-- Each segment after a "/".
unfoldable pub join : List String → String
join [] = ""
join (s ∷ ss) = String.◌∷◌ "/" (str_append s (join ss))

add_char : Char → List String → List String
add_char c [] = String.◌∷◌ c "" ∷ []
add_char c (s ∷ ss) = String.◌∷◌ c s ∷ ss

-- `strings.Split(path, "/")`.
unfoldable pub split : String → List String
unfolding add_char
split String.[] = "" ∷ []
split (String.◌∷◌ c s) = let rest = split s in if code c == 47 then "" ∷ rest else add_char c rest

unfoldable pub no_slash : String → Bool
no_slash String.[] = true
no_slash (String.◌∷◌ c s) = if code c == 47 then false else no_slash s

split-append-join :
    (s : String) (ss : List String)
    → no_slash s ≡ true
    → all no_slash ss ≡ true
    → split (str_append s (join ss)) ≡ s ∷ ss
unfolding split no_slash join add_char
split-append-join String.[] [] h k = rw (nil-append (join [])) refl
split-append-join String.[] (t ∷ ts) h k = elim (Bool-cases (no_slash t)) [
  | inr e ↦ absurd (let gone : false ≡ true = rw e at k in cc)
  | inl e ↦
      let rest = split-append-join t ts e (rw e at k) in
      rw (nil-append (join (t ∷ ts))) (ap (λ xs. "" ∷ xs) rest)
]
split-append-join (String.◌∷◌ c s) ss h k = elim (Bool-cases (code c == 47)) [
  | inl e ↦ absurd (let gone : false ≡ true = rw e at h in cc)
  | inr e ↦
      let rest = split-append-join s ss (rw e at h) k in
      rw (cons-append c s (join ss), e, rest) refl
]

pub split-join : (ss : List String) → all no_slash ss ≡ true → split (join ss) ≡ "" ∷ ss
unfolding no_slash
split-join ss h = ap split (sym (nil-append (join ss))) ∙ split-append-join "" ss refl h

no_slash-append :
    (s t : String) → no_slash s ≡ true → no_slash t ≡ true → no_slash (str_append s t) ≡ true
unfolding no_slash
no_slash-append String.[] t h k = rw (nil-append t) k
no_slash-append (String.◌∷◌ c s) t h k = elim (Bool-cases (code c == 47)) [
  | inl e ↦ absurd (let gone : false ≡ true = rw e at h in cc)
  | inr e ↦ rw (cons-append c s t, e) (no_slash-append s t (rw e at h) k)
]

no_slash-digit : (d : ℕ) → no_slash (digit d) ≡ true
unfolding no_slash
no_slash-digit d =
    digit_cases (λ _ s. no_slash s ≡ true) d refl refl refl refl refl refl refl refl refl
      (λ n0 n1 n2 n3 n4 n5 n6 n7 n8. refl)

no_slash-decimal : (fuel n : ℕ) → no_slash (decimal fuel n) ≡ true
unfolding decimal
no_slash-decimal zero n = no_slash-digit n
no_slash-decimal (suc fuel) n = elim (Bool-cases (ltb n 10)) [
  | inl e ↦ rw (e, decimal) (no_slash-digit n)
  | inr e ↦
      rw (e, decimal)
        (no_slash-append (decimal fuel (n / 10)) (digit (n % 10)) (no_slash-decimal fuel (n / 10))
          (no_slash-digit (n % 10)))
]

pub no_slash-show : (n : ℕ) → no_slash (show (pos n)) ≡ true
unfolding show
no_slash-show n = no_slash-decimal n n
