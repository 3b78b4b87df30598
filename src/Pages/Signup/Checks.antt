-- ===== src/Pages/Signup/Checks.antt =====
-- The checklist under the form agrees with what a submission does.
use hcl_assignment.Common.{
  Bool, true, false, ◌&&◌, List, [], ◌∷◌, ◌≡◌, ◌↔◌, inl, inr, Bool-cases, ◌==◌, ltb, truthy,
  text_length, arith,
}
use hcl_assignment.Effects.{call, sign_up}
use hcl_assignment.Pages.Signup.{State, Requirement, reqs, handle_submit}

abbrev pub all_met : List Requirement → Bool
all_met [] = true
all_met (r ∷ rest) = r.met && all_met rest

-- The checklist shows both requirements as met exactly when a submission calls `signup`, with what the
-- form holds; otherwise the submission shows an error and calls nothing.
pub handle_submit_iff :
    (s : State)
    → ((all_met (reqs s) ≡ true)
        ↔ ((handle_submit s).1 ≡ call (sign_up s.name s.email s.password) ∷ []))
      × ((all_met (reqs s) ≡ false)
          ↔ (((handle_submit s).1 ≡ []) × (truthy (handle_submit s).0.error ≡ true)))
unfolding handle_submit reqs
handle_submit_iff s = elim (Bool-cases (s.password == s.confirm_password)) [
  | inl same ↦ elim (Bool-cases (ltb (text_length s.password) 8)) [
    | inl short ↦ rw (same, short) (ground arith)
    | inr long ↦ rw (same, long) (ground arith)
  ]
  | inr other ↦ rw other (ground arith)
]
