-- ===== src/Utils/Percent/Scale.antt =====
-- The search for the scale of a double does not run out of fuel: a quotient has 53 bits.
use native.Mathlib.Decide.{dec_lt}
use native.Mathlib.Nat.{
  pow-suc, add-suc, add-zero, mul_assoc, mul-le-mul_right, le_trans, div-lt_iff_lt-mul,
}
use hcl_assignment.Common.{
  ℕ, zero, suc, ◌+◌, ◌*◌, ◌/◌, ◌^◌, ◌≤◌, ◌<◌, ◌≡◌, ap, sym, ◌∙◌, inl, inr, Bool-cases, leb, leb→le,
  eqb, eqb_iff, arith,
}
use hcl_assignment.Utils.Percent.{least_scale, round_even, to_double}
use hcl_assignment.Utils.Percent.Bounds.{round_even-le}

twice_pow : (p n : ℕ) → p * 2 ^ suc n ≡ 2 * p * 2 ^ n
twice_pow p n = omega (arith, ap (λ t. p * t) (pow-suc 2 n))

least_scale-ge :
    (fuel p q : ℕ) → 2 ^ 52 * q ≤ p * 2 ^ fuel → 2 ^ 52 * q ≤ p * 2 ^ least_scale fuel p q
unfolding least_scale
least_scale-ge zero p q h = h
least_scale-ge (suc fuel) p q h = elim (Bool-cases (leb (2 ^ 52 * q) p)) [
  | inl done ↦ rw (done, least_scale) (omega (arith, leb→le (2 ^ 52 * q) p done))
  | inr more ↦
      rw (more, least_scale)
        (rw (twice_pow p (least_scale fuel (2 * p) q))
          (least_scale-ge fuel (2 * p) q (rw (← twice_pow p fuel) h)))
]

least_scale-lt : (fuel p q : ℕ) → p < 2 ^ 53 * q → p * 2 ^ least_scale fuel p q < 2 ^ 53 * q
unfolding least_scale
least_scale-lt zero p q h = omega arith
least_scale-lt (suc fuel) p q h = elim (Bool-cases (leb (2 ^ 52 * q) p)) [
  | inl done ↦ rw (done, least_scale) (omega arith)
  | inr more ↦
      rw (more, least_scale)
        (rw (twice_pow p (least_scale fuel (2 * p) q))
          (least_scale-lt fuel (2 * p) q (ground arith)))
]

lt_pow : (n : ℕ) → n < 2 ^ n
lt_pow zero = omega arith
lt_pow (suc n) = omega (arith, pow-suc 2 n, lt_pow n)

pow_add : (m n : ℕ) → 2 ^ (m + n) ≡ 2 ^ m * 2 ^ n
pow_add m zero = rw (add-zero m) (omega arith)
pow_add m (suc n) =
    rw (add-suc m n) (pow-suc 2 (m + n))
    ∙ ap (λ t. t * 2) (pow_add m n)
    ∙ mul_assoc (2 ^ m) (2 ^ n) 2
    ∙ ap (λ t. 2 ^ m * t) (sym (pow-suc 2 n))

enough_fuel : (p q : ℕ) → 0 < p → 2 ^ 52 * q ≤ p * 2 ^ (53 + q)
enough_fuel p q pos =
    rw (pow_add 53 q) (le_trans (omega (arith, lt_pow q)) (mul-le-mul_right (2 ^ 53 * 2 ^ q) pos))

round_even-ge : (p q c : ℕ) → 0 < q → c * q ≤ p → c ≤ round_even p q
unfolding round_even
round_even-ge p q c pos le = elim (dec_lt (p / q) c) [
  | yes lt ↦ absurd (omega (arith, (div-lt_iff_lt-mul {k = q} pos).0 lt))
  | no ge ↦ ground arith
]

-- The mantissa of a quotient that is not 0 and lies below 2 ^ 53 lies between 2 ^ 52 and 2 ^ 53, both
-- included: the fuel of the search for its scale is enough.
pub to_double-normal :
    (p q : ℕ)
    → 0 < p
    → p < 2 ^ 53 * q
    → (2 ^ 52 ≤ (to_double p q).mantissa) × ((to_double p q).mantissa ≤ 2 ^ 53)
unfolding to_double
to_double-normal p q pos below = elim (Bool-cases (eqb p 0)) [
  | inl z ↦ absurd (omega (arith, (eqb_iff p 0).0 z))
  | inr nz ↦
      let k = least_scale (53 + q) p q in
      let some_q : 0 < q = omega arith in
      rw nz (
        round_even-ge (p * 2 ^ k) q (2 ^ 52) some_q
            (least_scale-ge (53 + q) p q (enough_fuel p q pos)),
        round_even-le (p * 2 ^ k) q (2 ^ 53) some_q
            (omega (arith, least_scale-lt (53 + q) p q below)),
      )
]
