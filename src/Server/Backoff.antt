-- ===== src/Server/Backoff.antt =====
-- internal/server/backoff.go.
use Prim.Native.Nat.{◌/◌, ◌%◌}
use orqestra.Base.{
  ℕ, zero, suc, ◌*◌, ◌^◌, ◌<◌, ◌≡◌, refl, Bool, true, ltb, ◌==◌, if◌then◌else◌, arith, ==→≡, ◌&&◌,
}

-- `time.Duration(math.Pow(2, k)) * time.Second`, nanoseconds in an int64: the product wraps.
nanoseconds : ℕ → ℕ
nanoseconds k = (2 ^ k * 1_000_000_000) % 2 ^ 64

-- In milliseconds, as `Retry` adds it to the clock; a negative duration puts the retry in the past, where
-- it is due at once, as with a delay of 0.
unfoldable pub retry_delay : ℕ → ℕ
unfolding nanoseconds
retry_delay k = if ltb (nanoseconds k) (2 ^ 63) then nanoseconds k / 1_000_000 else 0

all_below : ℕ → (ℕ → Bool) → Bool
all_below zero p = true
all_below (suc n) p = p n && all_below n p

all_below-true : (n : ℕ) (p : ℕ → Bool) (k : ℕ) → all_below n p ≡ true → k < n → p k ≡ true
unfolding all_below
all_below-true zero p k h b = absurd (omega arith)
all_below-true (suc n) p k h b = ground (arith, all_below-true n p k)

delay_table : all_below 34 (λ k. retry_delay k == 2 ^ k * 1000) ≡ true
unfolding all_below retry_delay
delay_table = refl

-- Up to the 33rd retry the delay is 2 ^ k seconds.
pub retry_delay_exact : (k : ℕ) → k < 34 → retry_delay k ≡ 2 ^ k * 1000
retry_delay_exact k b =
    ==→≡ (retry_delay k) (2 ^ k * 1000)
      (all_below-true 34 (λ k. retry_delay k == 2 ^ k * 1000) k delay_table b)
