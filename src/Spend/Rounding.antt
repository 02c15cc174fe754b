-- ===== src/Spend/Rounding.antt =====
-- `to_reservation_micros` of
-- packages/gateway-core/src/governed_llm_gateway_core/domain/spend_admission.py.
use native.Mathlib.Nat.{div-mul-le_self, lt-div-mul-add, div-lt_iff_lt-mul, one-le-pow, add-mul}
use governed_llm_gateway.Base.{ℕ, ◌+◌, ◌-◌, ◌*◌, ◌/◌, ◌^◌, ◌≤◌, ◌<◌, ◌≡◌, arith, Decimal, ok}
use governed_llm_gateway.Spend.{max_spend_micros}
use governed_llm_gateway.Spend.Requests.{to_reservation_micros}

ceil_le : (s u m : ℕ) → 0 < u → s ≤ m * u → (s + (u - 1)) / u ≤ m
ceil_le s u m pos le =
    let below : s + (u - 1) < (m + 1) * u = omega (arith, pos, le, add-mul m 1 u) in
    omega (arith, (div-lt_iff_lt-mul {k = u} {x = s + (u - 1)} {y = m + 1} pos).1 below)

ceil_lem :
    (s u m : ℕ)
    → 0 < u
    → s ≤ m * u
    → (s ≤ (s + (u - 1)) / u * u) × ((s + (u - 1)) / u * u < s + u) × ((s + (u - 1)) / u ≤ m)
ceil_lem s u m pos le = (
  omega (arith, pos, lt-div-mul-add {a = s + (u - 1)} {b = u} pos),
  omega (arith, pos, div-mul-le_self (s + (u - 1)) u),
  ceil_le s u m pos le,
)

-- An estimate of `coefficient` / 10 ^ `scale` dollars is rounded up to the least whole number of
-- micros that covers it, within the largest amount that is kept.
pub to_reservation_micros-ceil :
    (amount : Decimal) (n : ℕ)
    → to_reservation_micros amount ≡ ok n
    → (amount.coefficient * 1000000 ≤ n * 10 ^ amount.scale)
      × (n * 10 ^ amount.scale < amount.coefficient * 1000000 + 10 ^ amount.scale)
      × (n ≤ max_spend_micros)
unfolding to_reservation_micros
to_reservation_micros-ceil amount n h = ground (
  arith,
  one-le-pow amount.scale 10 (omega arith),
  ceil_lem (amount.coefficient * 1000000) (10 ^ amount.scale) max_spend_micros,
)
