-- ===== src/Examples/Client.antt =====
-- Journeys through the client.
use hcl_assignment.Common.{
  ◌+◌, ◌-◌, ◌<◌, ◌∙◌, inr, true, false, none, some, [], ◌∷◌, ◌⧺◌, ◌≡◌, refl, is_some, get_or, arith,
}
use hcl_assignment.Services.Model.{User, AuthResponse, Poll, active}
use hcl_assignment.Services.Storage.{Storage}
use hcl_assignment.Services.Api.{
  Failure, api_error, ok, err, get_header, message_or, build, get, no_body,
}
use hcl_assignment.Services.Auth.{is_logged_in, get_token}
use hcl_assignment.Services.Auth.Session.{call_options}
use hcl_assignment.AuthContext.{is_authenticated}
use hcl_assignment.AuthContext.Consistent.{launch}
use hcl_assignment.Components.Layout.{sidebar_logout}
use hcl_assignment.Routes.{
  page, spinner, redirect, resolve, dashboard, landing, manage_poll, public_poll, results, login,
}
use hcl_assignment.Routes.Guards.{is_protected}
use hcl_assignment.Pages.Login
use hcl_assignment.Examples.Router.{router}
use hcl_assignment.Client.{
  Client, shown, render, start, perform, login_runs, login_answered, me_answered, visits,
  perform_from, acts_in_login, login_answers, Reach, here, next,
}
use hcl_assignment.Client.Links.{links-shown}
use hcl_assignment.Utils.Constants.{share_url}
use hcl_assignment.Ui.{links}
use hcl_assignment.Components.PollCard.{manage, card_step}
use hcl_assignment.Pages.CreatePoll
use hcl_assignment.Pages.PublicPoll.{results_link}
use hcl_assignment.Client.Session.{reached-protected}
use hcl_assignment.Client.Journeys.{
  accepted-dashboard, refused-login, logged_out-shown, restored-shown,
}

abbrev user : User
user = record { id = "u1"; name = "Ada Lovelace"; email = "ada@example.com"; created_at = "t" }

abbrev signed : AuthResponse
signed = record { token = "jwt"; user = user }

abbrev entry : Client
entry = start [] ("login" ∷ [])

abbrev sent : Client
sent = render (login_runs router true entry Login.submit entry)

mounted : is_some entry.login ≡ true
unfolding start resolve launch
mounted = refl

sent_reached : Reach router entry sent
sent_reached = next here (acts_in_login entry Login.submit mounted tt)

in_flight : 0 < sent.logins
unfolding start resolve launch render login_runs Login.step
in_flight = omega arith

abbrev accepted : Client
accepted = render (login_answered router true (ok (some signed)) sent)

accepted_reached : Reach router entry accepted
accepted_reached = next sent_reached (login_answers sent true (ok (some signed)) in_flight)

accepted-dashboard_example :
    (shown accepted ≡ page dashboard)
    × (accepted.session.auth.user ≡ some user)
    × (accepted.login ≡ none)
    × (accepted.logins + accepted.left_logins ≡ sent.logins + sent.left_logins - 1)
accepted-dashboard_example =
    accepted-dashboard router [] ("login" ∷ []) true sent_reached in_flight signed

reached-protected_example :
    (is_authenticated accepted.session.auth ≡ true)
    × (is_some (get_token accepted.session.auth.storage) ≡ true)
    × (accepted.session.auth.is_loading ≡ false)
reached-protected_example =
    reached-protected router [] ("login" ∷ []) dashboard accepted_reached
      accepted-dashboard_example.0 refl

abbrev wrong_password : Failure
wrong_password = api_error "invalid credentials" "INVALID_CREDENTIALS" 401

-- The user leaves the login that is sent, and opens the form again.
abbrev away : Client
away = render (record sent { path = [] })

abbrev back : Client
back = render (record away { path = "login" ∷ [] })

back_reached : Reach router entry back
back_reached = next (next sent_reached (visits sent [])) (visits away ("login" ∷ []))

left_behind : 0 < back.left_logins
unfolding start resolve launch render login_runs perform_from Login.step
left_behind = omega arith

-- The old login's refusal does not reach the new form.
refused-login_example :
    let d = render (login_answered router false (err wrong_password) back) in
    (d.session.auth.user ≡ back.session.auth.user) × (d.path ≡ back.path) × (d.login ≡ back.login)
refused-login_example =
    refused-login router [] ("login" ∷ []) false back_reached left_behind wrong_password

-- that of the mounted form does
refused_shown :
    (render (login_answered router true (err wrong_password) sent)).login
    ≡ some (record (get_or sent.login Login.init) {
      error = "invalid credentials";
      is_loading = false;
    })
refused_shown =
    (refused-login router [] ("login" ∷ []) true sent_reached in_flight wrong_password).2
    ∙ (unfold message_or in refl)

-- The sidebar's logout on the dashboard ends at the login.
logged_out-shown_example :
    let after = render (perform router sidebar_logout accepted) in
    (shown after ≡ page login)
    × (after.session.auth.user ≡ none)
    × (is_logged_in after.session.auth.storage ≡ false)
    × (get_header "Authorization"
          (build "/api" after.session.auth.storage "/polls" (call_options true get no_body)).headers
        ≡ none)
    × (is_protected landing ≡ false)
logged_out-shown_example =
    logged_out-shown router [] ("login" ∷ []) sidebar_logout (inr refl) accepted_reached
      reached-protected_example.0 dashboard accepted-dashboard_example.0 "/api" "/polls" true get
      no_body [] landing (unfold render shown resolve in refl)

abbrev items : Storage
items = ("pulsepoll_auth_token", "jwt") ∷ []

restored-shown_example :
    let c = start items ("dashboard" ∷ []) in
    let lost = render (me_answered (err wrong_password) c) in
    (shown c ≡ spinner)
    × (shown (render (me_answered (ok (some user)) c)) ≡ page dashboard)
    × (shown lost ≡ redirect ("login" ∷ []))
    × (is_logged_in lost.session.auth.storage ≡ false)
unfolding resolve is_logged_in
restored-shown_example =
    restored-shown items ("dashboard" ∷ []) dashboard user wrong_password refl refl refl

abbrev poll : Poll
poll = record {
  id = "p1";
  creator_id = "u1";
  title = "Which one?";
  description = "";
  options = record { id = "a"; text = "Go" } ∷ record { id = "b"; text = "Rust" } ∷ [];
  share_code = "abc";
  status = active;
  created_at = "t";
  updated_at = "t";
  expires_at = none;
}

abbrev created : CreatePoll.State
created = record CreatePoll.init { created_poll = some poll; show_share = true }

links-shown_example :
    (shown (perform router (card_step "https://x" poll manage) accepted) ≡ page (manage_poll "p1"))
    × (shown (perform router (CreatePoll.share_changed false created).1 accepted)
        ≡ page (manage_poll "p1"))
    × (share_url "https://x" "abc" ≡ "https://x" ⧺ "/p/abc")
    × (shown (record entry { path = router.segments "/p/abc" }) ≡ page (public_poll "abc"))
    × (links (results_link (some "abc")) ≡ "/p/abc/results" ∷ [])
    × (shown (record entry { path = router.segments "/p/abc/results" }) ≡ page (results "abc"))
links-shown_example =
    links-shown router accepted entry "https://x" poll created reached-protected_example.0
      reached-protected_example.2 refl ((refl, (refl, tt)), refl) ((refl, (refl, (refl, tt))), refl)
