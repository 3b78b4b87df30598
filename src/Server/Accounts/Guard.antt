-- ===== src/Server/Accounts/Guard.antt =====
-- AuthRequired refuses a request or passes it on.
use hcl_assignment.Common.{to_lower}
use hcl_assignment.Common.{
  ℕ, String, Option, none, some, ◌≡◌, ◌⊎◌, refl, inl, inr, Bool-cases, truthy, ◌==◌,
}
use hcl_assignment.Server.Accounts.{Tokens, Claims, authorize, pass_claims, pass_parts, split_first}

module _ {A : Type 0} (tokens : Tokens) (now : ℕ) (refuse next : String → A) where
  abbrev Decides : A → Type 0
  Decides a = ((message : String) × (a ≡ refuse message)) ⊎ ((user : String) × (a ≡ next user))

  pass_claims-cases : (claims : Option Claims) → Decides (pass_claims tokens claims refuse next)
  unfolding pass_claims
  pass_claims-cases none = inl (_, refl)
  pass_claims-cases (some claims) = inr (_, refl)

  pass_parts-cases :
      (parts : Option (String × String)) → Decides (pass_parts tokens now parts refuse next)
  unfolding pass_parts
  pass_parts-cases none = inl (_, refl)
  pass_parts-cases (some (scheme, token)) = elim (Bool-cases (to_lower scheme == "bearer")) [
    | inl bearer ↦ rw bearer (pass_claims-cases (tokens.parse_with_claims now token))
    | inr other ↦ rw other (inl (_, refl))
  ]

  pub authorize-cases : (header : Option String) → Decides (authorize tokens now header refuse next)
  unfolding authorize
  authorize-cases none = inl (_, refl)
  authorize-cases (some header) = elim (Bool-cases (truthy header)) [
    | inl given ↦ rw given (pass_parts-cases (split_first header))
    | inr empty ↦ rw empty (inl (_, refl))
  ]
