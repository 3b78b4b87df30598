-- ===== src/Client/Calls.antt =====
-- Each action, answer and logout keeps the session in order, and known while a call is in flight.
use hcl_assignment.Common.{
  ℕ, String, ◌+◌, ◌-◌, ◌<◌, Bool, true, false, Option, none, some, List, [], ◌≡◌, ◌∙◌, refl, sym,
  inl, inr, Bool-cases, is_some, ◌==◌, ltb, text_length, get_or, if◌then◌else◌, arith,
}
use hcl_assignment.Services.Model.{User, AuthResponse}
use hcl_assignment.Services.Storage.{Storage}
use hcl_assignment.Services.Api.{Result, Failure}
use hcl_assignment.AuthContext.{is_authenticated, sign_in_settled, log_out}
use hcl_assignment.AuthContext.Consistent.{
  App, launch, launch-Inv, me_answers-Inv, sign_in-Inv, logs_out-Inv, authenticated-settled,
}
use hcl_assignment.AuthContext.Consistent
use hcl_assignment.Components.Layout.{navbar_logout, sidebar_logout}
use hcl_assignment.Effects.{Effect}
use hcl_assignment.Routes.{Shown, page, login, signup}
use hcl_assignment.Routes.Guards.{resolve-guest}
use hcl_assignment.Routes.Paths.{Router}
use hcl_assignment.Pages.Login
use hcl_assignment.Pages.Signup
use hcl_assignment.Client.{
  Client, shown, is_login, is_signup, render, perform, login_runs, signup_runs, login_answered,
  signup_answered, me_answered, IsLogout, OfLogin, OfSignup, fresh, start, arrive,
}

is_login-page : (s : Shown) → is_login s ≡ true → s ≡ page login
is_login-page (page login) h = refl
is_login-page s h = cc

is_signup-page : (s : Shown) → is_signup s ≡ true → s ≡ page signup
is_signup-page (page signup) h = refl
is_signup-page s h = cc

abbrev pub Known : Client → Type 0
Known c = c.session.auth.is_loading ≡ false

is_login-Known : (c : Client) → is_login (shown c) ≡ true → Known c
unfolding shown
is_login-Known c h =
    (resolve-guest c.path (is_authenticated c.session.auth) c.session.auth.is_loading login
      (is_login-page (shown c) h) refl).1

is_signup-Known : (c : Client) → is_signup (shown c) ≡ true → Known c
unfolding shown
is_signup-Known c h =
    (resolve-guest c.path (is_authenticated c.session.auth) c.session.auth.is_loading signup
      (is_signup-page (shown c) h) refl).1

abbrev pub in_flight : Client → ℕ
in_flight c = c.logins + c.signups + (c.left_logins + c.left_signups)

-- The session is in order, and known while a login or a signup is in flight.
pub record Calls (c : Client) : Type 0 where
  pub session : Consistent.Inv c.session
  pub awaited : 0 < in_flight c → Known c

-- Moreover the forms that are mounted are those that the routes show.
pub record Inv (c : Client) : Type 0 where
  pub session : Consistent.Inv c.session
  pub awaited : 0 < in_flight c → Known c
  pub login_shown : is_some c.login ≡ is_login (shown c)
  pub signup_shown : is_some c.signup ≡ is_signup (shown c)
  pub login_mounted : 0 < c.logins → is_login (shown c) ≡ true

mounted_iff : {S : Type 0} (b : Bool) (s : S) → is_some (if b then some s else none) ≡ b
mounted_iff true s = refl
mounted_iff false s = refl

render-in_flight : (c : Client) → in_flight (render c) ≡ in_flight c
unfolding render
render-in_flight c = ground arith

render-mounted : (c : Client) → 0 < (render c).logins → is_login (shown (render c)) ≡ true
unfolding render shown
render-mounted c h = ground arith

pub render-Inv : (c : Client) → Calls c → Inv (render c)
unfolding render
render-Inv c calls = record {
  session = calls.session;
  awaited = λ h. calls.awaited (rw (render-in_flight c) at h);
  login_shown = mounted_iff (is_login (shown c)) (get_or c.login Login.init);
  signup_shown = mounted_iff (is_signup (shown c)) (get_or c.signup Signup.init);
  login_mounted = render-mounted c;
}

pub start-Inv : (items : Storage) (path : List String) → Inv (start items path)
unfolding start
start-Inv items path =
    render-Inv (fresh items path)
      (record { session = launch-Inv items; awaited = λ h. absurd (omega (arith, h)) })

module _ (router : Router) where
  -- The end of a login or of a signup leaves the session alone.
  login_runs-settled :
      (is_mounted : Bool) (before : Client) (failure : Option Failure) (c : Client)
      → (login_runs router is_mounted before (Login.settled failure) c).session ≡ c.session
  unfolding login_runs Login.step
  login_runs-settled is_mounted before none c = refl
  login_runs-settled is_mounted before (some e) c = refl

  signup_runs-settled :
      (is_mounted : Bool) (before : Client) (failure : Option Failure) (c : Client)
      → (signup_runs router is_mounted before (Signup.settled failure) c).session ≡ c.session
  unfolding signup_runs Signup.step
  signup_runs-settled is_mounted before none c = refl
  signup_runs-settled is_mounted before (some e) c = refl

  pub login_runs-Calls :
      (a : Login.Action) (c : Client)
      → OfLogin a
      → is_some c.login ≡ true
      → Inv c
      → Calls (login_runs router true c a c)
  unfolding login_runs Login.step
  login_runs-Calls (Login.set_email value) c o m inv = record {
    session = inv.session;
    awaited = inv.awaited;
  }
  login_runs-Calls (Login.set_password value) c o m inv = record {
    session = inv.session;
    awaited = inv.awaited;
  }
  login_runs-Calls Login.submit c o m inv = record {
    session = inv.session;
    awaited = λ h. is_login-Known c (sym inv.login_shown ∙ m);
  }
  login_runs-Calls (Login.settled answer) c o m inv = absurd o

  signup_runs-submit :
      (c : Client) → (signup_runs router true c Signup.submit c).session ≡ c.session
  unfolding signup_runs Signup.step
  signup_runs-submit c =
      let s = get_or c.signup Signup.init in
      elim (Bool-cases (s.password == s.confirm_password)) [
        | inl same ↦ elim (Bool-cases (ltb (text_length s.password) 8)) [
          | inl short ↦ rw (same, short) refl
          | inr long ↦ rw (same, long) refl
        ]
        | inr other ↦ rw other refl
      ]

  pub signup_runs-Calls :
      (a : Signup.Action) (c : Client)
      → OfSignup a
      → is_some c.signup ≡ true
      → Inv c
      → Calls (signup_runs router true c a c)
  unfolding signup_runs
  signup_runs-Calls (Signup.settled answer) c o m inv = absurd o
  signup_runs-Calls (Signup.set_name value) c o m inv =
      unfold Signup.step in record { session = inv.session; awaited = inv.awaited }
  signup_runs-Calls (Signup.set_email value) c o m inv =
      unfold Signup.step in record { session = inv.session; awaited = inv.awaited }
  signup_runs-Calls (Signup.set_password value) c o m inv =
      unfold Signup.step in record { session = inv.session; awaited = inv.awaited }
  signup_runs-Calls (Signup.set_confirm_password value) c o m inv =
      unfold Signup.step in record { session = inv.session; awaited = inv.awaited }
  signup_runs-Calls Signup.submit c o m inv =
      let same = signup_runs-submit c in
      record {
        session = rw same inv.session;
        awaited = λ h. rw same (is_signup-Known c (sym inv.signup_shown ∙ m));
      }

  module _ (answer : Result (Option AuthResponse)) (is_mounted : Bool) (c : Client)
      (inv : Inv c) where
    abbrev signed : App
    signed = record c.session { auth = (sign_in_settled answer c.session.auth).0 }

    signed-Inv : Known c → Consistent.Inv signed × (signed.auth.is_loading ≡ false)
    signed-Inv known =
        let settled = sign_in-Inv c.session answer known inv.session in
        (settled, settled.awaited ∙ sym inv.session.awaited ∙ known)

    pub login_answered-Calls :
        0 < (if is_mounted then c.logins else c.left_logins)
        → Calls (login_answered router is_mounted answer c)
    unfolding login_answered
    login_answered-Calls flies =
        let (ordered, known) = signed-Inv (inv.awaited (ground (arith, flies))) in
        let same =
          login_runs-settled is_mounted c (sign_in_settled answer c.session.auth).1 (record c {
            session = signed;
            logins = if is_mounted then c.logins - 1 else c.logins;
            left_logins = if is_mounted then c.left_logins else c.left_logins - 1;
          }) in
        record { session = rw same ordered; awaited = λ h. rw same known }

    pub signup_answered-Calls :
        0 < (if is_mounted then c.signups else c.left_signups)
        → Calls (signup_answered router is_mounted answer c)
    unfolding signup_answered
    signup_answered-Calls flies =
        let (ordered, known) = signed-Inv (inv.awaited (ground (arith, flies))) in
        let same =
          signup_runs-settled is_mounted c (sign_in_settled answer c.session.auth).1 (record c {
            session = signed;
            signups = if is_mounted then c.signups - 1 else c.signups;
            left_signups = if is_mounted then c.left_signups else c.left_signups - 1;
          }) in
        record { session = rw same ordered; awaited = λ h. rw same known }

  pub me_answered-Calls :
      (answer : Result (Option User)) (c : Client)
      → c.session.me_pending ≡ true
      → Inv c
      → Calls (me_answered answer c)
  unfolding me_answered
  me_answered-Calls answer c pending inv =
      let settled = me_answers-Inv c.session answer pending inv.session in
      record { session = settled; awaited = λ h. settled.awaited }

  abbrev pub out : Client → Client
  out c = record c { session = record c.session { auth = log_out c.session.auth } }

  pub perform-logout :
      (effects : List Effect) (c : Client)
      → IsLogout effects
      → perform router effects c ≡ record (out c) { path = arrive (shown c) (shown (out c)) [] }
  unfolding perform navbar_logout sidebar_logout
  perform-logout effects c (inl bar) = rw (bar, router.root) refl
  perform-logout effects c (inr bar) = rw (bar, router.root) refl

  pub logs_out-Calls :
      (effects : List Effect) (c : Client)
      → IsLogout effects
      → is_authenticated c.session.auth ≡ true
      → Inv c
      → Calls (perform router effects c)
  logs_out-Calls effects c bar signed_in inv =
      let settled = logs_out-Inv c.session signed_in inv.session in
      let known = authenticated-settled c.session inv.session signed_in in
      rw (perform-logout effects c bar) (record {
        session = settled;
        awaited = λ h. settled.awaited ∙ sym inv.session.awaited ∙ known;
      })
