-- ===== src/Base/Decimals.antt =====
-- Python's `Decimal` for the values that reach ranking: finite and not negative, by value, with the
-- default context, which rounds a result half-even to 28 significant digits.
use Prim.Native.Nat.{ℕ, zero, suc, ◌+◌, ◌-◌, ◌*◌, ◌/◌, ◌%◌, ◌^◌, ◌≤◌, ◌<◌, max}
use mathlib.Core.Path.{◌≡◌}
use mathlib.Core.Bool.{Bool, true, false}
use native.Mathlib.Omega.{arith}
use native.Mathlib.Nat.{le_of_mul-le-mul_right, mul-le-mul_right, pow-suc}
use native.Mathlib.Decide.{ℕ_discrete}
use governed_llm_gateway.Base.Tests.{ltb, leb, ◌==◌, if◌then◌else◌}

-- `coefficient` / 10 ^ `scale`.
pub record Decimal : Type 0 where
  pub coefficient : ℕ
  pub scale : ℕ

unfoldable pub Decimal-discrete : Discrete Decimal
Decimal-discrete = hlevel ℕ_discrete

-- How many digits a coefficient has beyond 28. The fuel is the coefficient, which falls by a
-- factor of ten each time.
excess : ℕ → ℕ → ℕ
excess zero c = 0
excess (suc f) c = let rest = suc (excess f (c / 10)) in if ltb c (10 ^ 28) then 0 else rest

-- The quotient by `d`, rounded half-even.
div_half_even : ℕ → ℕ → ℕ
div_half_even c d =
    let q = c / d in
    let r = c % d in if ltb (2 * r) d then q else if ltb d (2 * r) then q + 1 else q + q % 2

-- The value that the context makes of an exact result.
unfoldable pub in_context : ℕ → ℕ → Decimal
unfolding excess div_half_even
in_context c s =
    let k = excess c c in
    if k == 0
    then record { coefficient = c; scale = s }
    else (let q = div_half_even c (10 ^ k) in
        if leb k s
        then record { coefficient = q; scale = s - k }
        else record { coefficient = q * 10 ^ (k - s); scale = 0 })

unfoldable pub mul : Decimal → Decimal → Decimal
unfolding in_context
mul a b = in_context (a.coefficient * b.coefficient) (a.scale + b.scale)

unfoldable pub add : Decimal → Decimal → Decimal
unfolding in_context
add a b =
    let s = max a.scale b.scale in
    in_context (a.coefficient * 10 ^ (s - a.scale) + b.coefficient * 10 ^ (s - b.scale)) s

-- Division by 1000000, which moves the point.
unfoldable pub per_million : Decimal → Decimal
unfolding in_context
per_million a = in_context a.coefficient (a.scale + 6)

-- `Decimal(n)`.
abbrev pub of_ℕ : ℕ → Decimal
of_ℕ n = record { coefficient = n; scale = 0 }

unfoldable pub dec_ltb : Decimal → Decimal → Bool
dec_ltb a b = ltb (a.coefficient * 10 ^ b.scale) (b.coefficient * 10 ^ a.scale)

-- `a == b`, by value.
unfoldable pub dec_eqb : Decimal → Decimal → Bool
dec_eqb a b = a.coefficient * 10 ^ b.scale == b.coefficient * 10 ^ a.scale

pub dec_ltb_asym : (a b : Decimal) → dec_ltb a b ≡ true → dec_ltb b a ≡ false
unfolding dec_ltb
dec_ltb_asym a b h = ground arith

cross_trans : (a b c x y z : ℕ) → 0 < y → b * x ≤ a * y → c * y ≤ b * z → c * x ≤ a * z
cross_trans a b c x y z pos h k =
    le_of_mul-le-mul_right {k = y} (omega (arith, mul-le-mul_right z h, mul-le-mul_right x k)) pos

pow_pos : (n : ℕ) → 0 < 10 ^ n
pow_pos zero = omega arith
pow_pos (suc n) = rw (pow-suc 10 n) (omega (arith, pow_pos n))

not_lt→le : (a b : ℕ) → ltb a b ≡ false → b ≤ a
not_lt→le a b h = ground arith

le→not_lt : (a b : ℕ) → b ≤ a → ltb a b ≡ false
le→not_lt a b h = ground arith

pub dec_ltb_not_trans :
    (a b c : Decimal) → dec_ltb a b ≡ false → dec_ltb b c ≡ false → dec_ltb a c ≡ false
unfolding dec_ltb
dec_ltb_not_trans a b c h k = le→not_lt _ _ (
    cross_trans a.coefficient b.coefficient c.coefficient (10 ^ a.scale) (10 ^ b.scale)
      (10 ^ c.scale) (pow_pos b.scale) (not_lt→le _ _ h) (not_lt→le _ _ k))
