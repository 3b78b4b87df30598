-- ===== src/Client.antt =====
-- The client as a whole, App.tsx with context/AuthContext.tsx: the session, the path, the forms that
-- are mounted, and the logins and signups in flight.
pub mod Calls
pub mod Session
pub mod Journeys
pub mod Links
use hcl_assignment.Common.{
  ℕ, suc, ◌+◌, ◌-◌, ◌<◌, String, Bool, true, false, Option, none, some, List, [], ◌∷◌, ◌++◌, ◌≡◌,
  ◌⊎◌, eqb, filter, truthy, is_some, get_or, if◌then◌else◌,
}
use hcl_assignment.Services.Model.{User, AuthResponse}
use hcl_assignment.Services.Api.{Result, Failure}
use hcl_assignment.Services.Storage.{Storage}
use hcl_assignment.AuthContext.{is_authenticated, me_settled, sign_in_settled, log_out}
use hcl_assignment.AuthContext.Consistent.{App, launch}
use hcl_assignment.Components.Layout.{navbar_logout, sidebar_logout}
use hcl_assignment.Effects.{Effect, call, log_in, sign_up, navigate, log_out as call_log_out}
use hcl_assignment.Routes.{
  Page, Shown, page, redirect, resolve, login as login_page, signup as signup_page,
}
use hcl_assignment.Routes.Paths.{Router}
use hcl_assignment.Pages.Login
use hcl_assignment.Pages.Signup

-- `login` and `signup` are the states of the two pages, while they are mounted. `logins` and `signups`
-- count their calls that are not answered; `left_logins` and `left_signups` those of forms that have
-- been unmounted since.
pub record Client : Type 0 where
  pub session : App
  pub path : List String
  pub login : Option Login.State
  pub signup : Option Signup.State
  pub logins : ℕ
  pub signups : ℕ
  pub left_logins : ℕ
  pub left_signups : ℕ

unfoldable pub shown : Client → Shown
shown c = resolve c.path (is_authenticated c.session.auth) c.session.auth.is_loading

abbrev pub is_login : Shown → Bool
is_login (page login_page) = true
is_login _ = false

abbrev pub is_signup : Shown → Bool
is_signup (page signup_page) = true
is_signup _ = false

-- A render: a form that the routes show is mounted with its first state, unless it is mounted already;
-- any other is unmounted, and the calls that it awaits outlive it.
unfoldable pub render : Client → Client
unfolding shown
render c = record c {
  login = if is_login (shown c) then some (get_or c.login Login.init) else none;
  signup = if is_signup (shown c) then some (get_or c.signup Signup.init) else none;
  logins = if is_login (shown c) then c.logins else 0;
  signups = if is_signup (shown c) then c.signups else 0;
  left_logins = if is_login (shown c) then c.left_logins else c.left_logins + c.logins;
  left_signups = if is_signup (shown c) then c.left_signups else c.left_signups + c.signups;
}

-- The client when it starts, with what the storage holds, at a path: before and after its first render.
abbrev pub fresh : Storage → List String → Client
fresh items path = record {
  session = launch items;
  path = path;
  login = none;
  signup = none;
  logins = 0;
  signups = 0;
  left_logins = 0;
  left_signups = 0;
}

unfoldable pub start : Storage → List String → Client
unfolding render
start items path = render (fresh items path)

unfoldable pub me_answered : Result (Option User) → Client → Client
me_answered answer c = record c {
  session = record { auth = me_settled answer c.session.auth; me_pending = false };
}

-- The two logout handlers: that of the navigation bar and that of the sidebar.
abbrev pub IsLogout : List Effect → Type 0
IsLogout effects = (effects ≡ navbar_logout) ⊎ (effects ≡ sidebar_logout)

-- The actions that the user takes in the forms; the other is the answer of the call.
abbrev pub OfLogin : Login.Action → Type 0
OfLogin (Login.settled answer) = ⊥
OfLogin _ = Unit

abbrev pub OfSignup : Signup.Action → Type 0
OfSignup (Signup.settled answer) = ⊥
OfSignup _ = Unit

-- Where a redirect leads, if one is shown.
abbrev pub redirect_of : Shown → Option (List String)
redirect_of (redirect to) = some to
redirect_of _ = none

-- The path after a handler that navigates. BrowserRouter renders a navigation as a transition, after the
-- states that the handler sets: a redirect that these newly show, at the old path, comes in between
-- and replaces the handler's path. `before` and `now` are what is shown without and with the new states.
abbrev pub arrive : Shown → Shown → List String → List String
arrive before now to = if is_some (redirect_of before) then to else get_or (redirect_of now) to

navigated : Option (List String) → Client → Client → Client
unfolding shown
navigated none before c = c
navigated (some to) before c = record c { path = arrive (shown before) (shown c) to }

-- `router` reads the paths that handlers navigate to.
module _ (router : Router) where
  -- the last navigation among the effects
  destination : List Effect → Option (List String)
  destination [] = none
  destination (navigate path ∷ effects) = some (get_or (destination effects) (router.segments path))
  destination (_ ∷ effects) = destination effects

  perform_one : Effect → Client → Client
  perform_one (call call_log_out) c = record c {
    session = record c.session { auth = log_out c.session.auth };
  }
  perform_one (call (log_in email password)) c = record c { logins = suc c.logins }
  perform_one (call (sign_up name email password)) c = record c { signups = suc c.signups }
  perform_one _ c = c

  perform_calls : List Effect → Client → Client
  unfolding perform_one
  perform_calls [] c = c
  perform_calls (e ∷ effects) c = perform_calls effects (perform_one e c)

  -- The effects of a handler on the session, the path and the calls in flight; `before` is the client
  -- before the handler has set any state.
  unfoldable pub perform_from : Client → List Effect → Client → Client
  unfolding perform_calls destination navigated
  perform_from before effects c = navigated (destination effects) before (perform_calls effects c)

  unfoldable pub perform : List Effect → Client → Client
  unfolding perform_from
  perform effects c = perform_from c effects c

  -- A handler of a form. That of a form that has been unmounted sets no state; its effects happen.
  unfoldable pub login_runs : Bool → Client → Login.Action → Client → Client
  unfolding perform_from
  login_runs is_mounted before a c =
      let (s, effects) = Login.step a (get_or c.login Login.init) in
      perform_from before effects (record c { login = if is_mounted then some s else c.login })

  unfoldable pub signup_runs : Bool → Client → Signup.Action → Client → Client
  unfolding perform_from
  signup_runs is_mounted before a c =
      let (s, effects) = Signup.step a (get_or c.signup Signup.init) in
      perform_from before effects (record c { signup = if is_mounted then some s else c.signup })

  -- `login` of the context, from the answer to a call of the mounted form, or of one that was left: the
  -- session first, then the handler that awaits it.
  unfoldable pub login_answered : Bool → Result (Option AuthResponse) → Client → Client
  unfolding login_runs
  login_answered is_mounted answer c =
      let (auth, failure) = sign_in_settled answer c.session.auth in
      login_runs is_mounted c (Login.settled failure) (record c {
        session = record c.session { auth = auth };
        logins = if is_mounted then c.logins - 1 else c.logins;
        left_logins = if is_mounted then c.left_logins else c.left_logins - 1;
      })

  unfoldable pub signup_answered : Bool → Result (Option AuthResponse) → Client → Client
  unfolding signup_runs
  signup_answered is_mounted answer c =
      let (auth, failure) = sign_in_settled answer c.session.auth in
      signup_runs is_mounted c (Signup.settled failure) (record c {
        session = record c.session { auth = auth };
        signups = if is_mounted then c.signups - 1 else c.signups;
        left_signups = if is_mounted then c.left_signups else c.left_signups - 1;
      })

  -- What can happen, in any order, each followed by a render: a visit of any path, by a link, a handler
  -- of a page, the history or the address bar; the redirect that a route shows; an action in a mounted
  -- form; the answer of a call in flight; and a logout, which the bars offer only to a signed-in user.
  pub data Turn : Client → Client → Type 0 where
    visits : (c : Client) (path : List String) → Turn c (render (record c { path = path }))
    redirects :
        (c : Client) (to : List String)
        → shown c ≡ redirect to
        → Turn c (render (record c { path = to }))
    acts_in_login :
        (c : Client) (a : Login.Action)
        → is_some c.login ≡ true
        → OfLogin a
        → Turn c (render (login_runs true c a c))
    acts_in_signup :
        (c : Client) (a : Signup.Action)
        → is_some c.signup ≡ true
        → OfSignup a
        → Turn c (render (signup_runs true c a c))
    me_answers :
        (c : Client) (answer : Result (Option User))
        → c.session.me_pending ≡ true
        → Turn c (render (me_answered answer c))
    login_answers :
        (c : Client) (is_mounted : Bool) (answer : Result (Option AuthResponse))
        → 0 < (if is_mounted then c.logins else c.left_logins)
        → Turn c (render (login_answered is_mounted answer c))
    signup_answers :
        (c : Client) (is_mounted : Bool) (answer : Result (Option AuthResponse))
        → 0 < (if is_mounted then c.signups else c.left_signups)
        → Turn c (render (signup_answered is_mounted answer c))
    logs_out :
        (c : Client) (effects : List Effect)
        → IsLogout effects
        → is_authenticated c.session.auth ≡ true
        → Turn c (render (perform effects c))

  pub data Reach (c : Client) : Client → Type 0 where
    here : Reach c c
    next : {d e : Client} → Reach c d → Turn d e → Reach c e
