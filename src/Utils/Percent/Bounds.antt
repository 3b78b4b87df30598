-- ===== src/Utils/Percent/Bounds.antt =====
-- Percentages of a part lie between 0 and 100.
use native.Mathlib.Decide.{dec_lt}
use native.Mathlib.Nat.{
  mul-div_cancel, mul-le-mul_right, div-add-mod', div-le_of_le-mul, mul_comm, mul_assoc, pow-suc,
  div-lt_iff_lt-mul,
}
use hcl_assignment.Common.{
  ℕ, zero, suc, ◌+◌, ◌*◌, ◌/◌, ◌%◌, ◌^◌, ◌≤◌, ◌<◌, ◌≡◌, refl, refl, ap, sym, ◌∙◌, inl, inr,
  Bool-cases, eqb_iff, eqb, arith,
}
use hcl_assignment.Utils.Percent.{
  Double, round_even, least_scale, to_double, times_100, math_round, percent,
}

pub pow_pos : (k : ℕ) → 0 < 2 ^ k
pow_pos zero = omega arith
pow_pos (suc k) = omega (arith, pow-suc 2 k, pow_pos k)

swap_factors : (a b c : ℕ) → a * b * c ≡ a * c * b
swap_factors a b c = omega arith

lt_suc : {a b : ℕ} → a < b + 1 → a ≤ b
lt_suc h = omega arith

zero-mantissa : (c q : ℕ) → 0 < q → c * q ≡ 0 → 0 ≡ c * 2 ^ 0
zero-mantissa zero q pos e = omega arith
zero-mantissa (suc c) q pos e = absurd (grind arith)

pub round_even-le : (p q c : ℕ) → 0 < q → p ≤ c * q → round_even p q ≤ c
unfolding round_even
round_even-le p q c h le = elim (dec_lt (p / q) c) [
  | yes below ↦ ground arith
  | no above ↦
      let exact : p % q ≡ 0 =
        omega
          (arith, div-add-mod' p q, mul-le-mul_right q (let k : c ≤ p / q = omega arith in k)) in
      let top : p / q ≤ c = div-le_of_le-mul q (rw (mul_comm q c) le) in ground arith
]

round_even-exact : (c q : ℕ) → 0 < q → round_even (c * q) q ≡ c
unfolding round_even
round_even-exact c q h =
    let whole : c * q / q ≡ c = mul-div_cancel c h in
    let rest : c * q % q ≡ 0 = omega (arith, div-add-mod' (c * q) q, ap (λ t. t * q) whole) in
    ground arith

module _ (c q : ℕ) (pos : 0 < q) where
  pub to_double-le : (p : ℕ) → p ≤ c * q → (to_double p q).mantissa ≤ c * 2 ^ (to_double p q).scale
  unfolding to_double
  to_double-le p le = elim (Bool-cases (eqb p 0)) [
    | inl z ↦ rw z (omega arith)
    | inr nz ↦
        let k = least_scale (53 + q) p q in
        rw nz (
          round_even-le (p * 2 ^ k) q (c * 2 ^ k) pos
            (rw (swap_factors c (2 ^ k) q) (mul-le-mul_right (2 ^ k) le)))
  ]

  to_double-exact : (to_double (c * q) q).mantissa ≡ c * 2 ^ (to_double (c * q) q).scale
  unfolding to_double
  to_double-exact = elim (Bool-cases (eqb (c * q) 0)) [
    | inl z ↦ rw z (zero-mantissa c q pos ((eqb_iff (c * q) 0).0 z))
    | inr nz ↦
        let k = least_scale (53 + q) (c * q) q in
        rw nz (
          ap (λ n. round_even n q) (sym (swap_factors c (2 ^ k) q))
          ∙ round_even-exact (c * 2 ^ k) q pos)
  ]

to_double-multiple :
    (c q p : ℕ) → 0 < q → p ≡ c * q → (to_double p q).mantissa ≡ c * 2 ^ (to_double p q).scale
to_double-multiple c q p pos e = rw e (to_double-exact c q pos)

module _ (c : ℕ) (x : Double) where
  math_round-le : x.mantissa ≤ c * 2 ^ x.scale → math_round x ≤ c
  unfolding math_round
  math_round-le le =
      lt_suc
        ((div-lt_iff_lt-mul (omega (arith, pow_pos x.scale))).1 (omega (arith, pow_pos x.scale)))

  math_round-exact : x.mantissa ≡ c * 2 ^ x.scale → math_round x ≡ c
  unfolding math_round
  math_round-exact e = elim (dec_lt (math_round x) c) [
    | yes lt ↦ absurd (
        omega (
          arith,
          e,
          pow_pos x.scale,
          (div-lt_iff_lt-mul {k = 2 * 2 ^ x.scale} (omega (arith, pow_pos x.scale))).0 lt,
        ))
    | no ge ↦ omega (arith, math_round-le (omega (arith, e)))
  ]

-- A part of a total is at most 100 percent of it.
pub percent-le : (value total : ℕ) → 0 < total → value ≤ total → percent value total ≤ 100
unfolding percent
percent-le value total pos le =
    let d = to_double value total in
    math_round-le 100 (times_100 d) (
      unfold times_100 in
      to_double-le 100 (2 ^ d.scale) (pow_pos d.scale) (100 * d.mantissa)
        (omega (arith, to_double-le 1 total pos value (omega arith))))

pub percent_lem :
    (value total : ℕ) → percent value total ≡ math_round (times_100 (to_double value total))
unfolding percent
percent_lem value total = refl

pub times_100_lem : (x : Double) → times_100 x ≡ to_double (100 * x.mantissa) (2 ^ x.scale)
unfolding times_100
times_100_lem x = refl

percent-exact :
    (c value total : ℕ)
    → (to_double value total).mantissa ≡ c * 2 ^ (to_double value total).scale
    → percent value total ≡ 100 * c
percent-exact c value total e =
    let d = to_double value total in
    percent_lem value total
    ∙ math_round-exact (100 * c) (times_100 d) (
        rw (times_100_lem d, e, ← mul_assoc 100 c (2 ^ d.scale))
          (to_double-exact (100 * c) (2 ^ d.scale) (pow_pos d.scale)))

-- All of a total is 100 percent of it, and nothing is 0 percent.
pub percent-ends : (total : ℕ) → 0 < total → (percent total total ≡ 100) × (percent 0 total ≡ 0)
percent-ends total pos = (
  percent-exact 1 total total (to_double-multiple 1 total total pos (omega arith)),
  percent-exact 0 0 total (to_double-multiple 0 total 0 pos (omega arith)),
)
