-- ===== src/Base/Printed.antt =====
-- A number that is printed with `%d` is read back by `strconv.Atoi`.
use Prim.Native.Nat.{ℕ, zero, suc, ◌+◌, ◌-◌, ◌*◌, ◌^◌, ◌≤◌, ◌<◌, ◌/◌, ◌%◌}
use Prim.Native.Char.{code}
use Prim.Native.String.{String, ◌++◌ as str_append}
use text.Mathlib.TextLemmas.{append-eq-nil_iff, cons-append, nil-append}
use mathlib.Core.Path.{◌≡◌, refl, ap, subst, sym, ◌∙◌}
use mathlib.Core.Logic.{◌≢◌, inl, inr}
use mathlib.Core.Bool.{true, false}
use mathlib.Core.Option.{Option, none, some}
use native.Mathlib.Omega.{arith}
use text.Mathlib.Text.{◌==◌ as str_eq}
use text.Mathlib.TextEquality.{eq_iff}
use orqestra.Base.Tests.{ltb, ◌==◌, if◌then◌else◌, Bool-cases, ==→≡, ltb→lt, ≢→==}
use orqestra.Base.Numerals.{pos, digit, decimal, show, is_digit, digits, below, unsigned, atoi}

pick :
    (P : ℕ → String → Type 0) (k d : ℕ) (s rest : String)
    → P k s
    → (d ≢ k → P d rest)
    → P d (if d == k then s else rest)
pick P k d s rest h f = elim (Bool-cases (d == k)) [
  | inl e ↦ let same = ==→≡ d k e in rw e (subst (λ i. P i s) (sym same) h)
  | inr e ↦ rw e (f (λ same. absurd (ground arith)))
]

-- A property of the texts "0" to "9" at their numbers.
pub digit_cases :
    (P : ℕ → String → Type 0) (d : ℕ)
    → P 0 "0"
    → P 1 "1"
    → P 2 "2"
    → P 3 "3"
    → P 4 "4"
    → P 5 "5"
    → P 6 "6"
    → P 7 "7"
    → P 8 "8"
    → (d ≢ 0 → d ≢ 1 → d ≢ 2 → d ≢ 3 → d ≢ 4 → d ≢ 5 → d ≢ 6 → d ≢ 7 → d ≢ 8 → P d "9")
    → P d (digit d)
unfolding digit
digit_cases P d p0 p1 p2 p3 p4 p5 p6 p7 p8 p9 = pick P 0 d "0" _ p0 (λ n0.
    pick P 1 d "1" _ p1 (λ n1. pick P 2 d "2" _ p2 (λ n2. pick P 3 d "3" _ p3 (λ n3.
      pick P 4 d "4" _ p4 (λ n4. pick P 5 d "5" _ p5 (λ n5. pick P 6 d "6" _ p6 (λ n6.
        pick P 7 d "7" _ p7 (λ n7. pick P 8 d "8" _ p8 (λ n8. p9 n0 n1 n2 n3 n4 n5 n6 n7 n8)))))))))

digits-digit : (n d : ℕ) → d < 10 → digits n (digit d) ≡ some (n * 10 + d)
unfolding digits is_digit
digits-digit n d h =
    digit_cases (λ d s. digits n s ≡ some (n * 10 + d)) d refl refl refl refl refl refl refl refl
      refl (λ n0 n1 n2 n3 n4 n5 n6 n7 n8. ap (λ k. some (n * 10 + k)) (omega arith))

digit-ne : (d : ℕ) → str_eq (digit d) "" ≡ false
digit-ne d =
    digit_cases (λ d s. str_eq s "" ≡ false) d refl refl refl refl refl refl refl refl refl
      (λ n0 n1 n2 n3 n4 n5 n6 n7 n8. refl)

digits-append :
    (n m : ℕ) (s t : String) → digits n s ≡ some m → digits n (str_append s t) ≡ digits m t
unfolding digits
digits-append n m String.[] t h =
    rw (nil-append t) (let same : n ≡ m = cc in ap (λ i. digits i t) same)
digits-append n m (String.◌∷◌ c s) t h =
    rw (cons-append c s t) (elim (Bool-cases (is_digit (code c))) [
      | inl e ↦ rw e (digits-append (n * 10 + (code c - 48)) m s t (rw e at h))
      | inr e ↦ absurd (let gone : none ≡ some m = rw e at h in cc)
    ])

digits-decimal : (fuel n : ℕ) → n ≤ fuel → digits 0 (decimal fuel n) ≡ some n
unfolding decimal
digits-decimal zero n h = digits-digit 0 n (omega arith) ∙ ap some (omega arith)
digits-decimal (suc fuel) n h = elim (Bool-cases (ltb n 10)) [
  | inl small ↦
      let few = ltb→lt n 10 small in
      rw (small, decimal) (digits-digit 0 n few ∙ ap some (omega arith))
  | inr big ↦
      let many : 10 ≤ n = ground arith in
      rw (big, decimal)
        (digits-append 0 (n / 10) (decimal fuel (n / 10)) (digit (n % 10))
            (digits-decimal fuel (n / 10) (omega arith))
          ∙ digits-digit (n / 10) (n % 10) (omega arith)
          ∙ ap some (omega arith))
]

ne-append : (s t : String) → str_eq t "" ≡ false → str_append s t ≢ ""
ne-append s t h e =
    let right = ((append-eq-nil_iff).0 e).1 in absurd (let same = (eq_iff t "").1 right in cc)

decimal-ne : (fuel n : ℕ) → decimal fuel n ≢ ""
unfolding decimal
decimal-ne zero n h = absurd (let e = (eq_iff _ "").1 h in let f = digit-ne n in cc)
decimal-ne (suc fuel) n h = elim (Bool-cases (ltb n 10)) [
  | inl small ↦
      let e : digit n ≡ "" = rw (small, decimal) at h in
      absurd (let f = (eq_iff _ "").1 e in let g = digit-ne n in cc)
  | inr big ↦
      ne-append (decimal fuel (n / 10)) (digit (n % 10)) (digit-ne (n % 10))
        (rw (big, decimal) at h)
]

digit_bounds : (n : ℕ) → is_digit n ≡ true → (48 ≤ n) × (n ≤ 57)
unfolding is_digit
digit_bounds n h = (ground arith, ground arith)

below-some : (n : ℕ) (o : Option ℕ) → o ≡ some n → n < 2 ^ 63 → below (2 ^ 63) pos o ≡ some (pos n)
unfolding below
below-some n o h b = rw (h, below) (let e : ltb n (2 ^ 63) ≡ true = ground arith in rw e refl)

-- A text of digits has no sign.
atoi-digits :
    (n : ℕ) (s : String) → s ≢ "" → digits 0 s ≡ some n → n < 2 ^ 63 → atoi s ≡ some (pos n)
unfolding atoi unsigned below digits
atoi-digits n String.[] ne h b = absurd (ne refl)
atoi-digits n (String.◌∷◌ c s) ne h b = elim (Bool-cases (is_digit (code c))) [
  | inl e ↦
      let (lo, hi) = digit_bounds (code c) e in
      rw
        (≢→== (code c) 43 (λ x. absurd (omega arith)), ≢→== (code c) 45 (λ x. absurd (omega arith)))
        (below-some n (digits 0 (String.◌∷◌ c s)) h b)
  | inr e ↦ absurd (let gone : none ≡ some n = rw e at h in cc)
]

pub atoi-show : (n : ℕ) → n < 2 ^ 63 → atoi (show (pos n)) ≡ some (pos n)
unfolding show
atoi-show n b = atoi-digits n (decimal n n) (decimal-ne n n) (digits-decimal n n (omega arith)) b
