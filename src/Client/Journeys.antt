-- ===== src/Client/Journeys.antt =====
-- What the user sees after a login and after a logout.
use hcl_assignment.Common.{
  sym, ◌∙◌, ◌+◌, ◌-◌, ◌<◌, Option, ◌⊎◌, String, Bool, true, false, none, some, List, [], ◌∷◌, ◌≡◌,
  refl, inl, inr, Bool-cases, is_some, get_or, if◌then◌else◌, arith,
}
use hcl_assignment.Services.Model.{User, AuthResponse}
use hcl_assignment.Services.Storage.{Storage}
use hcl_assignment.Services.Api.{ok, err, Failure, message_or}
use hcl_assignment.Services.Auth.{is_logged_in, store_token, logout}
use hcl_assignment.Services.Auth.Session.{logout-me_request, logout-build, call_options}
use hcl_assignment.Services.Api.{get_header, build, Method, Body}
use hcl_assignment.AuthContext.{is_authenticated, me_settled, sign_in_settled, log_out}
use hcl_assignment.AuthContext.Consistent.{launch, authenticated-some, authenticated-settled}
use hcl_assignment.Effects.{Effect}
use hcl_assignment.Routes.{Page, Shown, page, spinner, redirect, resolve, landing, dashboard, login}
use hcl_assignment.Routes.Guards.{
  is_protected, resolve-protected, resolve-Waits, resolve-signed_in, resolve-Open,
}
use hcl_assignment.Routes.Paths.{Router}
use hcl_assignment.Pages.Login
use hcl_assignment.Client.{
  Client, shown, is_login, render, me_answered, perform, perform_from, arrive, redirect_of,
  login_runs, login_answered, IsLogout, Reach, start,
}
use hcl_assignment.Client.Calls.{Inv, Known, out, start-Inv, perform-logout}
use hcl_assignment.Client.Session.{Reach-Inv}

-- A render keeps the state of a form that is shown before and after.
kept-form :
    {S : Type 0} (shows : Bool) (form : Option S) (first : S)
    → is_some form ≡ shows
    → (if shows then some (get_or form first) else none) ≡ form
kept-form shows none first e = rw⁻¹ e refl
kept-form shows (some s) first e = rw⁻¹ e refl

-- Without a user no page of a signed-in user is shown.
guest-unprotected :
    (c : Client) (p : Page)
    → c.session.auth.user ≡ none
    → shown (render c) ≡ page p
    → is_protected p ≡ false
unfolding shown render
guest-unprotected c p nobody h = elim (Bool-cases (is_protected p)) [
  | inl guarded ↦
      let (signed_in, known) =
        resolve-protected c.path (is_authenticated c.session.auth) c.session.auth.is_loading p h
          guarded in
      absurd (authenticated-some c.session.auth signed_in nobody)
  | inr plain ↦ plain
]

dashboard-shown :
    (c : Client)
    → c.path ≡ "dashboard" ∷ []
    → is_authenticated c.session.auth ≡ true
    → Known c
    → shown c ≡ page dashboard
unfolding shown
dashboard-shown c here signed_in known = rw (here, signed_in, known) (unfold resolve in refl)

dashboard_path : (router : Router) → router.segments "/dashboard" ≡ "dashboard" ∷ []
dashboard_path router = router.joined "dashboard" [] (ground arith, tt)

-- A handler's path is reached, unless another redirect comes in between.
arrive-to :
    (before now : Shown) (to : List String)
    → ((other : List String) → now ≡ redirect other → (other ≡ to) ⊎ (before ≡ redirect other))
    → arrive before now to ≡ to
arrive-to (redirect o) now to h = refl
arrive-to before (page p) to h = ground arith
arrive-to before spinner to h = ground arith
arrive-to (page q) (redirect o) to h = elim (h o refl) [ inl e ↦ e | inr e ↦ cc ]
arrive-to spinner (redirect o) to h = elim (h o refl) [ inl e ↦ e | inr e ↦ cc ]

signed-arrives :
    (c d : Client)
    → Known c
    → d.path ≡ c.path
    → is_authenticated d.session.auth ≡ true
    → Known d
    → arrive (shown c) (shown d) ("dashboard" ∷ []) ≡ "dashboard" ∷ []
unfolding shown
signed-arrives c d known same signed_in still =
    arrive-to (shown c) (shown d) ("dashboard" ∷ []) (λ other h. rw known (
      resolve-signed_in c.path (is_authenticated c.session.auth) other
        (rw (same, signed_in, still) at h)))

module _ (router : Router) where
  module _ (items : Storage) (path : List String) {c : Client} (is_mounted : Bool)
      (reached : Reach router (start items path) c)
      (flies : 0 < (if is_mounted then c.logins else c.left_logins)) where
    c-Inv : Inv c
    c-Inv = Reach-Inv router (start-Inv items path) reached

    login-Known : Known c
    login-Known = c-Inv.awaited (ground (arith, flies))

    abbrev accepted : AuthResponse → Client
    accepted r = login_answered router is_mounted (ok (some r)) c

    -- the client with the session of the answer, before its navigation
    abbrev signed : AuthResponse → Client
    signed r = record c {
      session = record c.session { auth = (sign_in_settled (ok (some r)) c.session.auth).0 };
    }

    signed-arrived :
        (r : AuthResponse)
        → arrive (shown c) (shown (signed r)) ("dashboard" ∷ []) ≡ "dashboard" ∷ []
    signed-arrived r =
        signed-arrives c (signed r) login-Known refl (unfold sign_in_settled store_token in refl)
          (unfold sign_in_settled store_token in login-Known)

    accepted_path : (r : AuthResponse) → (accepted r).path ≡ "dashboard" ∷ []
    unfolding login_answered login_runs perform_from Login.step shown sign_in_settled
    accepted_path r = rw (dashboard_path router) (unfold shown in signed-arrived r)

    accepted_shown : (r : AuthResponse) → shown (accepted r) ≡ page dashboard
    accepted_shown r =
        dashboard-shown (accepted r) (accepted_path r)
          (unfold login_answered login_runs Login.step perform_from sign_in_settled store_token in
            refl)
          (unfold login_answered login_runs Login.step perform_from sign_in_settled store_token in
            login-Known)

    -- When the server accepts a login, the dashboard is shown to the user that it answers with, whatever
    -- the user did since it was sent, and even if its form has been left; the login page is gone, and
    -- one login less is in flight.
    pub accepted-dashboard :
        (r : AuthResponse)
        → let d = render (login_answered router is_mounted (ok (some r)) c) in
          (shown d ≡ page dashboard)
          × (d.session.auth.user ≡ some r.user)
          × (d.login ≡ none)
          × (d.logins + d.left_logins ≡ c.logins + c.left_logins - 1)
    accepted-dashboard r = (
      unfold render shown in accepted_shown r,
      unfold render login_answered login_runs Login.step perform_from sign_in_settled store_token in
          refl,
      unfold render in rw (accepted_shown r) refl,
      unfold render in
          rw (accepted_shown r) (
            unfold login_answered login_runs Login.step perform_from sign_in_settled store_token in
            ground (arith, flies)),
    )

    abbrev refused_form : Failure → Option Login.State
    refused_form e =
        if is_mounted
        then some (record (get_or c.login Login.init) {
          error = message_or "Login failed" e;
          is_loading = false;
        })
        else c.login

    form_shown : (e : Failure) → is_some (refused_form e) ≡ is_login (shown c)
    form_shown e = elim (Bool-cases is_mounted) [
      | inl mounted ↦ rw mounted (sym (c-Inv.login_mounted (rw mounted at flies)))
      | inr left ↦ rw left c-Inv.login_shown
    ]

    -- When the server refuses a login, nobody is signed in by it and the path stays. The form that sent
    -- it, if it is still mounted, stays, keeps what was typed, shows the reason and can be submitted
    -- again; if it has been left, a login form that is mounted now is not touched.
    pub refused-login :
        (e : Failure)
        → let d = render (login_answered router is_mounted (err e) c) in
          (d.session.auth.user ≡ c.session.auth.user)
          × (d.path ≡ c.path)
          × (d.login ≡ (
              if is_mounted
              then some (record (get_or c.login Login.init) {
                error = message_or "Login failed" e;
                is_loading = false;
              })
              else c.login))
    unfolding login_answered render login_runs perform_from sign_in_settled store_token Login.step
        shown
    refused-login e =
        (refl, refl, kept-form (is_login (shown c)) (refused_form e) Login.init (form_shown e))

  module _ (items : Storage) (path : List String) {c : Client} (effects : List Effect)
      (bar : IsLogout effects) (reached : Reach router (start items path) c)
      (signed_in : is_authenticated c.session.auth ≡ true) (q : Page)
      (here : shown c ≡ page q) where
    abbrev pub after_logout : Client
    after_logout = render (perform router effects c)

    logged_out-user : after_logout.session.auth.user ≡ none
    logged_out-user = rw (perform-logout router effects c bar) (unfold render log_out in refl)

    logged_out-storage : after_logout.session.auth.storage ≡ logout c.session.auth.storage
    logged_out-storage = rw (perform-logout router effects c bar) (unfold render log_out in refl)

    settled : Known c
    settled =
        authenticated-settled c.session (Reach-Inv router (start-Inv items path) reached).session
          signed_in

    here_path : resolve c.path true false ≡ page q
    here_path =
        let found : resolve c.path (is_authenticated c.session.auth) c.session.auth.is_loading
            ≡ page q =
          unfold shown in here in
        rw (signed_in, settled) at found

    out-resolve :
        (s : Shown)
        → resolve c.path false false ≡ s
        → shown (record (out router c) { path = arrive (shown c) (shown (out router c)) [] })
          ≡ resolve (get_or (redirect_of s) []) false false
    unfolding log_out
    out-resolve s e =
        let now : shown (out router c) ≡ s = unfold shown in rw settled e in
        rw (here, now) (unfold shown in rw settled refl)

    out-shown :
        shown (record (out router c) { path = arrive (shown c) (shown (out router c)) [] })
        ≡ page (if is_protected q then login else landing)
    out-shown = elim (Bool-cases (is_protected q)) [
      | inl guarded ↦
          rw guarded
            (out-resolve _ (resolve-Waits c.path q here_path guarded).1 ∙ (unfold resolve in refl))
      | inr plain ↦
          rw plain
            (out-resolve _ (resolve-Open c.path q here_path plain) ∙ (unfold resolve in refl))
    ]

    -- A logout of a signed-in user. On a page of a signed-in user, where the sidebar stands, the redirect
    -- of the route's guard comes before the handler's navigation: the login page is shown; on any other
    -- page, the landing page. Nobody is signed in, the storage counts as logged out and no call of `api`
    -- carries a token; and no path that is visited next shows a page of a signed-in user.
    pub logged_out-shown :
        (api_url call_path : String) (auth : Bool) (method : Method) (body : Body)
        (to : List String) (p : Page)
        → shown (render (record after_logout { path = to })) ≡ page p
        → (shown after_logout ≡ page (if is_protected q then login else landing))
          × (after_logout.session.auth.user ≡ none)
          × (is_logged_in after_logout.session.auth.storage ≡ false)
          × (get_header "Authorization"
                (build api_url after_logout.session.auth.storage call_path
                  (call_options auth method body)).headers
              ≡ none)
          × (is_protected p ≡ false)
    logged_out-shown api_url call_path auth method body to p h = (
      rw (perform-logout router effects c bar) (unfold render shown in unfold shown in out-shown),
      logged_out-user,
      rw logged_out-storage (logout-me_request api_url c.session.auth.storage).0,
      rw logged_out-storage
          (logout-build api_url call_path c.session.auth.storage auth method body),
      guest-unprotected (record after_logout { path = to }) p logged_out-user h,
    )

-- A page of a signed-in user that is opened with a token in the storage: the spinner is shown until
-- `me` answers; if it answers with a user, the page is shown, and if it fails, the guest is sent to the
-- login and the token is gone.
pub restored-shown :
    (items : Storage) (path : List String) (p : Page) (user : User) (e : Failure)
    → is_logged_in items ≡ true
    → resolve path true false ≡ page p
    → is_protected p ≡ true
    → let c = start items path in
      let lost = render (me_answered (err e) c) in
      (shown c ≡ spinner)
      × (shown (render (me_answered (ok (some user)) c)) ≡ page p)
      × (shown lost ≡ redirect ("login" ∷ []))
      × (is_logged_in lost.session.auth.storage ≡ false)
unfolding shown render start me_answered me_settled launch
restored-shown items path p user e token h guarded =
    let (waits, leaves) = resolve-Waits path p h guarded in
    (rw token waits, h, leaves, unfold logout in (logout-me_request "" items).0)
