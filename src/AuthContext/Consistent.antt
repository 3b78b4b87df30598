-- ===== src/AuthContext/Consistent.antt =====
-- Who is shown as signed in has a token: each answer and a logout keep it so.
use hcl_assignment.Common.{
  Bool, true, false, Option, none, some, inl, inr, Bool-cases, is_some, ◌≡◌, ◌∙◌, refl, arith,
}
use hcl_assignment.Services.Model.{User, AuthResponse}
use hcl_assignment.Services.Storage.{Storage}
use hcl_assignment.Services.Api.{Result, ok, err}
use hcl_assignment.Services.Auth.{get_token}
use hcl_assignment.Services.Auth.Session.{is_logged_in-get_token, get_token-store_token}
use hcl_assignment.AuthContext.{
  AuthState, is_authenticated, start, me_settled, sign_in_settled, log_out,
}

-- The provider, and whether the answer of `me` is awaited.
pub record App : Type 0 where
  pub auth : AuthState
  pub me_pending : Bool

unfoldable pub launch : Storage → App
unfolding start
launch items = let (auth, pending) = start items in record { auth = auth; me_pending = pending }

-- The storage has a token, which is empty only where the answer to a sign-in gave an empty one.
abbrev pub HoldsToken : Storage → Type 0
HoldsToken items = is_some (get_token items) ≡ true

pub record Inv (s : App) : Type 0 where
  pub has_token : is_authenticated s.auth ≡ true → HoldsToken s.auth.storage
  pub awaited : s.auth.is_loading ≡ s.me_pending
  pub kept : s.me_pending ≡ true → HoldsToken s.auth.storage
  pub no_user : s.me_pending ≡ true → s.auth.user ≡ none

pub launch-Inv : (items : Storage) → Inv (launch items)
unfolding launch
launch-Inv items = record {
  has_token = λ h. cc;
  awaited = refl;
  kept = λ h. is_logged_in-get_token items h;
  no_user = λ h. refl;
}

pub me_answers-Inv :
    (s : App) (answer : Result (Option User))
    → s.me_pending ≡ true
    → Inv s
    → Inv (record { auth = me_settled answer s.auth; me_pending = false })
unfolding me_settled
me_answers-Inv s (ok user) p inv = ground (arith, inv.kept p)
me_answers-Inv s (err e) p inv = ground arith

pub sign_in-Inv :
    (s : App) (answer : Result (Option AuthResponse))
    → s.auth.is_loading ≡ false
    → Inv s
    → Inv (record s { auth = (sign_in_settled answer s.auth).0 })
unfolding sign_in_settled
sign_in-Inv s (ok (some r)) l inv =
    let stored = get_token-store_token r s.auth.storage in ground (arith, inv.awaited, stored)
sign_in-Inv s (ok none) l inv = inv
sign_in-Inv s (err e) l inv = inv

pub logs_out-Inv :
    (s : App) → is_authenticated s.auth ≡ true → Inv s → Inv (record s { auth = log_out s.auth })
unfolding log_out
logs_out-Inv s h inv = ground (arith, inv.awaited, inv.no_user)

pub authenticated-some : (s : AuthState) → is_authenticated s ≡ true → s.user ≡ none → ⊥
authenticated-some s h e = ground arith

pub authenticated-settled :
    (s : App) → Inv s → is_authenticated s.auth ≡ true → s.auth.is_loading ≡ false
authenticated-settled s inv h = elim (Bool-cases s.me_pending) [
  | inl pending ↦ absurd (authenticated-some s.auth h (inv.no_user pending))
  | inr settled ↦ inv.awaited ∙ settled
]
