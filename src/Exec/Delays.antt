-- ===== src/Exec/Delays.antt =====
-- The delays of `_retry_delay_seconds` of
-- packages/gateway-core/src/governed_llm_gateway_core/application/resilience.py.
use native.Mathlib.Nat.{mul-le-mul_right}
use governed_llm_gateway.Base.{
  Bool-cases, inl, inr, ℕ, ◌+◌, ◌*◌, ◌-◌, ◌^◌, ◌≤◌, Option, none, some, ltb, arith, ◌≡◌, subst,
}
use governed_llm_gateway.Exec.{RetryPolicy, at_most, at_least, parts, retry_delay_seconds}

at_most-le : (limit value : ℕ) → at_most limit value ≤ limit
at_most-le limit value = ground arith

-- A delay never exceeds the configured maximum, whatever the provider asks for and the jitter is.
pub retry_delay-le_max :
    (p : RetryPolicy) (unit n : ℕ) (after : Option ℕ)
    → retry_delay_seconds p unit n after ≤ p.max_delay_seconds * parts p
unfolding retry_delay_seconds
retry_delay-le_max p unit n after = at_most-le (p.max_delay_seconds * parts p) _

scaled : (m v w k : ℕ) → v * k ≤ w → at_most m v * k ≤ at_most (m * k) w
scaled m v w k h = elim (Bool-cases (ltb m v)) [
  | inl e ↦ ground (arith, mul-le-mul_right {m = m} {n = v} k (ground arith))
  | inr e ↦ ground (arith, mul-le-mul_right {m = v} {n = m} k (ground arith))
]

le-at_most : (w limit value : ℕ) → w ≤ limit → w ≤ value → w ≤ at_most limit value
le-at_most w limit value h k = ground arith

le-at_least_first : (a b : ℕ) → a ≤ at_least a b
le-at_least_first a b = ground arith

le-at_least_second : (a b c : ℕ) → b ≤ at_least a (b + c)
le-at_least_second a b c = ground arith

some_injective : (a b : ℕ) → ◌≡◌ {A = Option ℕ} (some a) (some b) → a ≡ b
some_injective a b e = cc

-- A delay is never below the exponential backoff, whether or not the provider asks for a delay, and
-- never below the delay that the provider asks for if it does, each up to the configured maximum.
pub retry_delay-ge :
    (p : RetryPolicy) (unit n : ℕ) (after : Option ℕ)
    → let delay = retry_delay_seconds p unit n after in
      (at_most p.max_delay_seconds (p.base_delay_seconds * 2 ^ (n - 1)) * parts p ≤ delay)
      × ((seconds : ℕ)
          → after ≡ some seconds
          → at_most p.max_delay_seconds seconds * parts p ≤ delay)
unfolding retry_delay_seconds
retry_delay-ge p unit n none =
    let exponential = at_most p.max_delay_seconds (p.base_delay_seconds * 2 ^ (n - 1)) in
    (
      le-at_most (exponential * parts p) (p.max_delay_seconds * parts p) _
          (mul-le-mul_right (parts p) (at_most-le p.max_delay_seconds _))
          (le-at_least_second (0 * parts p) (exponential * parts p)
            (exponential * (p.jitter_numerator * unit))),
      λ seconds e. cc,
    )
retry_delay-ge p unit n (some asked) =
    let exponential = at_most p.max_delay_seconds (p.base_delay_seconds * 2 ^ (n - 1)) in
    (
      le-at_most (exponential * parts p) (p.max_delay_seconds * parts p) _
          (mul-le-mul_right (parts p) (at_most-le p.max_delay_seconds _))
          (le-at_least_second (asked * parts p) (exponential * parts p)
            (exponential * (p.jitter_numerator * unit))),
      λ seconds e.
          subst
            (λ v.
              at_most p.max_delay_seconds v * parts p ≤ retry_delay_seconds p unit n (some asked))
            (some_injective asked seconds e)
            (scaled p.max_delay_seconds asked _ (parts p) (le-at_least_first (asked * parts p) _)),
    )
