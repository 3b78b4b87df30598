-- ===== src/Utils/Percent.antt =====
-- formatPercent of utils/helpers.ts. A number of JavaScript is an IEEE 754 double: a quotient and a
-- product are rounded to 53 bits, half to even, and then `Math.round` rounds half up. A double that
-- is not negative is `mantissa / 2 ^ scale`; counts lie below 2 ^ 53.
pub mod Bounds
pub mod Scale
pub mod Nearest
use hcl_assignment.Common.{
  ℕ, zero, suc, ◌+◌, ◌*◌, ◌/◌, ◌%◌, ◌^◌, String, Bool, true, false, ◌≡◌, refl, leb, ltb, eqb, ◌⧺◌,
  decimal, if◌then◌else◌,
}

pub record Double : Type 0 where
  pub mantissa : ℕ
  pub scale : ℕ

-- The nearest integer to p / q; of two, the even one.
pub round_even : ℕ → ℕ → ℕ
round_even p q =
    let below = p / q in
    let twice = 2 * (p % q) in
    if ltb twice q then below else if ltb q twice then below + 1 else below + below % 2

-- The least k with 2 ^ 52 ≤ p * 2 ^ k / q, if the fuel suffices.
least_scale : ℕ → ℕ → ℕ → ℕ
least_scale zero p q = 0
least_scale (suc fuel) p q = elim (leb (2 ^ 52 * q) p) [
  | true ↦ 0
  | false ↦ suc (least_scale fuel (2 * p) q)
]

-- The double nearest to p / q, for p / q below 2 ^ 53.
pub to_double : ℕ → ℕ → Double
unfolding round_even least_scale
to_double p q =
    let k = least_scale (53 + q) p q in
    if eqb p 0
    then record { mantissa = 0; scale = 0 }
    else record { mantissa = round_even (p * 2 ^ k) q; scale = k }

-- `x * 100`
pub times_100 : Double → Double
unfolding to_double
times_100 x = to_double (100 * x.mantissa) (2 ^ x.scale)

-- `Math.round(x)`
pub math_round : Double → ℕ
math_round x = (2 * x.mantissa + 2 ^ x.scale) / (2 * 2 ^ x.scale)

-- `Math.round((value / total) * 100)`
unfoldable pub percent : ℕ → ℕ → ℕ
unfolding to_double times_100 math_round
percent value total = math_round (times_100 (to_double value total))

unfoldable pub format_percent : ℕ → ℕ → String
unfolding percent
format_percent value total = if eqb total 0 then "0%" else decimal (percent value total) ⧺ "%"

format_percent_example : format_percent 2 3 ≡ "67%"
unfolding format_percent decimal
format_percent_example = refl

-- 29 / 200 is below its double's product with 100 by the rounding: 14.5 % is shown as 14 %.
format_percent_tie : format_percent 29 200 ≡ "14%"
unfolding format_percent decimal
format_percent_tie = refl
