-- ===== src/Utils/Percent/Nearest.antt =====
-- How far the two roundings of doubles can take a percentage from the exact quotient.
use native.Mathlib.Decide.{dec_lt}
use native.Mathlib.Nat.{div-add-mod', mod-lt, mul-le-mul_right}
use hcl_assignment.Common.{
  ℕ, ◌+◌, ◌*◌, ◌/◌, ◌%◌, ◌^◌, ◌≤◌, ◌<◌, ◌≡◌, ◌⊎◌, refl, if◌then◌else◌, ltb→lt, inl, inr, Bool-cases,
  ltb, eqb, eqb_iff, arith,
}
use hcl_assignment.Utils.Percent.{
  Double, round_even, least_scale, to_double, times_100, math_round, percent,
}
use hcl_assignment.Utils.Percent.Bounds.{
  pow_pos, percent_lem, times_100_lem, to_double-le, percent-ends,
}
use hcl_assignment.Utils.Percent.Scale.{to_double-normal}

-- The whole r is a nearest one to p / q.
abbrev Near : ℕ → ℕ → ℕ → Type 0
Near r p q = (2 * r * q ≤ 2 * p + q) × (2 * p ≤ 2 * r * q + q)

even_or_odd : (n : ℕ) → (n % 2 ≡ 0) ⊎ (n % 2 ≡ 1)
even_or_odd n = elim (dec_lt (n % 2) 1) [
  | yes e ↦ inl (omega arith)
  | no o ↦ inr (omega (arith, mod-lt n {m = 2} (omega arith)))
]

-- The rounding, given the quotient and the rest.
choice-Near :
    (below rest q p : ℕ)
    → below * q + rest ≡ p
    → rest < q
    → Near
        (if ltb (2 * rest) q
          then below
          else if ltb q (2 * rest)
          then below + 1
          else below + below % 2)
        p
        q
choice-Near below rest q p whole lt = elim (Bool-cases (ltb (2 * rest) q)) [
  | inl less ↦ rw less (let h = ltb→lt (2 * rest) q less in (omega arith, omega arith))
  | inr not_less ↦ elim (Bool-cases (ltb q (2 * rest))) [
    | inl more ↦
        rw (not_less, more) (let h = ltb→lt q (2 * rest) more in (omega arith, omega arith))
    | inr tie ↦
        let half : 2 * rest ≡ q = ground arith in
        elim (even_or_odd below) [
          | inl even ↦ rw (not_less, tie, even) (omega arith, omega arith)
          | inr odd ↦ rw (not_less, tie, odd) (omega arith, omega arith)
        ]
  ]
]

round_even-Near : (p q : ℕ) → 0 < q → Near (round_even p q) p q
unfolding round_even
round_even-Near p q pos = choice-Near (p / q) (p % q) q p (div-add-mod' p q) (mod-lt p pos)

upper :
    (a b m n r v t : ℕ)
    → 2 * m * t ≤ 2 * (v * a) + t
    → 2 * n * a ≤ 2 * (100 * m * b) + a
    → 2 * r * b ≤ 2 * n + b
    → 100 * b * t + a * t < a * b
    → 2 * r * t ≤ 200 * v + t
upper a b m n r v t h1 h2 h3 small = elim (dec_lt (200 * v + t) (2 * r * t)) [
  | no le ↦ omega arith
  | yes lt ↦
      let k0 : (200 * v + t + 1) * (a * b) ≤ 2 * r * t * (a * b) =
        mul-le-mul_right (a * b) (omega arith) in
      let k1 : 2 * m * t * (100 * b) ≤ (2 * (v * a) + t) * (100 * b) =
        mul-le-mul_right (100 * b) h1 in
      let k2 : 2 * n * a * t ≤ (2 * (100 * m * b) + a) * t = mul-le-mul_right t h2 in
      let k3 : 2 * r * b * (a * t) ≤ (2 * n + b) * (a * t) = mul-le-mul_right (a * t) h3 in
      absurd (omega arith)
]

lower :
    (a b m n r v t : ℕ)
    → 2 * (v * a) ≤ 2 * m * t + t
    → 2 * (100 * m * b) ≤ 2 * n * a + a
    → 2 * n ≤ 2 * r * b + b
    → 100 * b * t + a * t < a * b
    → 200 * v ≤ 2 * r * t + t
lower a b m n r v t h1 h2 h3 small = elim (dec_lt (2 * r * t + t) (200 * v)) [
  | no le ↦ omega arith
  | yes lt ↦
      let k0 : (2 * r * t + t + 1) * (a * b) ≤ 200 * v * (a * b) =
        mul-le-mul_right (a * b) (omega arith) in
      let k1 : 2 * (v * a) * (100 * b) ≤ (2 * m * t + t) * (100 * b) =
        mul-le-mul_right (100 * b) h1 in
      let k2 : 2 * (100 * m * b) * t ≤ (2 * n * a + a) * t = mul-le-mul_right t h2 in
      let k3 : 2 * n * (a * t) ≤ (2 * r * b + b) * (a * t) = mul-le-mul_right (a * t) h3 in
      absurd (omega arith)
]

small_error : (a b t : ℕ) → 2 ^ 52 ≤ a → 2 ^ 52 ≤ 100 * b → t < 2 ^ 30 → 100 * b * t + a * t < a * b
small_error a b t ha hb ht =
    let k1 : t * (200 * b) ≤ 2 ^ 30 * (200 * b) = mul-le-mul_right (200 * b) (omega arith) in
    let k2 : t * (2 * a) ≤ 2 ^ 30 * (2 * a) = mul-le-mul_right (2 * a) (omega arith) in
    let k3 : 2 ^ 52 * b ≤ a * b = mul-le-mul_right b ha in
    let k4 : 2 ^ 45 * a ≤ b * a = mul-le-mul_right a (omega arith) in omega arith

math_round-Near :
    (x : Double)
    → (2 * math_round x * 2 ^ x.scale ≤ 2 * x.mantissa + 2 ^ x.scale)
      × (2 * x.mantissa ≤ 2 * math_round x * 2 ^ x.scale + 2 ^ x.scale)
unfolding math_round
math_round-Near x =
    let pos = pow_pos x.scale in
    let d = 2 * 2 ^ x.scale in
    let whole = div-add-mod' (2 * x.mantissa + 2 ^ x.scale) d in
    let rest = mod-lt (2 * x.mantissa + 2 ^ x.scale) {m = d} (omega arith) in
    (omega arith, omega arith)

to_double-Near : (p q : ℕ) → 0 < q → Near (to_double p q).mantissa (p * 2 ^ (to_double p q).scale) q
unfolding to_double
to_double-Near p q pos = elim (Bool-cases (eqb p 0)) [
  | inl z ↦ rw z (omega arith, omega (arith, (eqb_iff p 0).0 z))
  | inr nz ↦ rw nz (round_even-Near (p * 2 ^ least_scale (53 + q) p q) q pos)
]

-- A double that is not 0 and not above c is a multiple of at most c / 2 ^ 52.
scale-ge :
    (c p q : ℕ) → 0 < p → 0 < q → p ≤ c * q → c ≤ 100 → 2 ^ 52 ≤ c * 2 ^ (to_double p q).scale
scale-ge c p q some_p pos le cap =
    let k : c * q ≤ 100 * q = mul-le-mul_right q cap in
    let (ge, lt) = to_double-normal p q some_p (omega arith) in
    let top = to_double-le c q pos p le in omega arith

nearest :
    (value total : ℕ) (d x : Double)
    → d ≡ to_double value total
    → x ≡ to_double (100 * d.mantissa) (2 ^ d.scale)
    → 0 < value
    → value ≤ total
    → total < 2 ^ 30
    → (2 * math_round x * total ≤ 200 * value + total)
      × (200 * value ≤ 2 * math_round x * total + total)
nearest value total d x e f some_value le small =
    let some_total : 0 < total = omega arith in
    let n1 : Near d.mantissa (value * 2 ^ d.scale) total =
      rw e (to_double-Near value total some_total) in
    let a_pos = pow_pos d.scale in
    let n2 : Near x.mantissa (100 * d.mantissa * 2 ^ x.scale) (2 ^ d.scale) =
      rw f (to_double-Near (100 * d.mantissa) (2 ^ d.scale) a_pos) in
    let n3 = math_round-Near x in
    let m_le : d.mantissa ≤ 1 * 2 ^ d.scale =
      rw e (to_double-le 1 total some_total value (omega arith)) in
    let m_ge : 2 ^ 52 ≤ d.mantissa =
      rw e (to_double-normal value total some_value (omega arith)).0 in
    let a_ge : 2 ^ 52 ≤ 2 ^ d.scale = omega arith in
    let b_ge : 2 ^ 52 ≤ 100 * 2 ^ x.scale = rw f (
      scale-ge 100 (100 * d.mantissa) (2 ^ d.scale) (omega arith) a_pos (omega arith)
        (omega arith)) in
    let error = small_error (2 ^ d.scale) (2 ^ x.scale) total a_ge b_ge small in
    (
      upper (2 ^ d.scale) (2 ^ x.scale) d.mantissa x.mantissa (math_round x) value total n1.0 n2.0
          n3.0 error,
      lower (2 ^ d.scale) (2 ^ x.scale) d.mantissa x.mantissa (math_round x) value total n1.1 n2.1
          n3.1 error,
    )

-- For a part of a total of less than 2 ^ 30 votes that is not 0, the percentage shown is a nearest
-- integer to the exact one: it is off by at most one half, written out without subtraction and division.
pub percent-nearest :
    (value total : ℕ)
    → 0 < total
    → value ≤ total
    → total < 2 ^ 30
    → (2 * percent value total * total ≤ 200 * value + total)
      × (200 * value ≤ 2 * percent value total * total + total)
percent-nearest value total pos le small = elim (dec_lt 0 value) [
  | no none' ↦
      let z : value ≡ 0 = omega arith in
      rw (z, (percent-ends total pos).1) (omega arith, omega arith)
  | yes some_value ↦
      let d = to_double value total in
      rw (percent_lem value total)
        (nearest value total d (times_100 d) refl (times_100_lem d) some_value le small)
]
