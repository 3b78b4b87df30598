-- ===== src/Client/Session.antt =====
-- The session and what the routes show agree, however the calls and the visits interleave.
use hcl_assignment.Common.{String, true, false, List, is_some, ◌≡◌}
use hcl_assignment.Services.Storage.{Storage}
use hcl_assignment.Services.Auth.{get_token}
use hcl_assignment.AuthContext.{is_authenticated}
use hcl_assignment.Routes.{Page, page}
use hcl_assignment.Routes.Guards.{is_protected, resolve-protected}
use hcl_assignment.Routes.Paths.{Router}
use hcl_assignment.Client.{
  Client, shown, Turn, visits, redirects, acts_in_login, acts_in_signup, me_answers, login_answers,
  signup_answers, logs_out, Reach, here, next, start,
}
use hcl_assignment.Client.Calls.{
  Inv, start-Inv, render-Inv, login_runs-Calls, signup_runs-Calls, login_answered-Calls,
  signup_answered-Calls, me_answered-Calls, logs_out-Calls,
}

module _ (router : Router) where
  Turn-Inv : {c d : Client} → Turn router c d → Inv c → Inv d
  Turn-Inv (visits c path) inv =
      render-Inv _ (record { session = inv.session; awaited = inv.awaited })
  Turn-Inv (redirects c to h) inv =
      render-Inv _ (record { session = inv.session; awaited = inv.awaited })
  Turn-Inv (acts_in_login c a m o) inv = render-Inv _ (login_runs-Calls router a c o m inv)
  Turn-Inv (acts_in_signup c a m o) inv = render-Inv _ (signup_runs-Calls router a c o m inv)
  Turn-Inv (me_answers c answer p) inv = render-Inv _ (me_answered-Calls router answer c p inv)
  Turn-Inv (login_answers c m answer f) inv =
      render-Inv _ (login_answered-Calls router answer m c inv f)
  Turn-Inv (signup_answers c m answer f) inv =
      render-Inv _ (signup_answered-Calls router answer m c inv f)
  Turn-Inv (logs_out c effects bar h) inv = render-Inv _ (logs_out-Calls router effects c bar h inv)

  pub Reach-Inv : {c d : Client} → Inv c → Reach router c d → Inv d
  Reach-Inv inv here = inv
  Reach-Inv inv (next r t) = Turn-Inv t (Reach-Inv inv r)

  -- In every state that the client reaches from its start, with anything in the storage and at any path,
  -- by visits, redirects, actions in the forms, any answers and logouts in any order: a page of a
  -- signed-in user is shown only while a user is signed in, the storage has an entry for the token and
  -- the session is known.
  pub reached-protected :
      (items : Storage) (path : List String) {c : Client} (p : Page)
      → Reach router (start items path) c
      → shown c ≡ page p
      → is_protected p ≡ true
      → (is_authenticated c.session.auth ≡ true)
        × (is_some (get_token c.session.auth.storage) ≡ true)
        × (c.session.auth.is_loading ≡ false)
  unfolding shown
  reached-protected items path {c} p r h guarded =
      let inv = Reach-Inv (start-Inv items path) r in
      let (signed_in, known) =
        resolve-protected c.path (is_authenticated c.session.auth) c.session.auth.is_loading p h
          guarded in
      (signed_in, inv.session.has_token signed_in, known)
