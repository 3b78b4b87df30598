-- ===== src/Examples/Session.antt =====
-- The REST client, the session and the routes.
use hcl_assignment.Common.{ℕ, Bool, true, false, none, some, List, [], ◌∷◌, ◌≡◌, refl}
use hcl_assignment.Services.Model.{User, AuthResponse}
use hcl_assignment.Services.Storage.{Storage}
use hcl_assignment.Services.Api.{
  err, Outcome, responded, envelope, receive, api_error, Options, delete, no_body,
}
use hcl_assignment.Routes.{Page, page, redirect, resolve}
use hcl_assignment.Routes.Guards.{resolve-redirect}

abbrev items : Storage
items = ("pulsepoll_auth_token", "jwt") ∷ []

abbrev user : User
user = record { id = "u1"; name = "Ada Lovelace"; email = "ada@example.com"; created_at = "t" }

abbrev signed : AuthResponse
signed = record { token = "jwt"; user = user }

abbrev answer : Outcome User
answer = responded (record {
  ok = true;
  status = 200;
  json = envelope (record { success = true; payload = some user; error = none });
})

-- the link "Settings" of the sidebar has no route
settings_missing : (a l : Bool) → resolve ("dashboard" ∷ "settings" ∷ []) a l ≡ redirect []
unfolding resolve
settings_missing a l = refl

unknown_error :
    receive {T = User} (
      responded (record {
        ok = false;
        status = 500;
        json = envelope (record { success = false; payload = none; error = none });
      }))
    ≡ err (api_error "An error occurred" "UNKNOWN_ERROR" 500)
unfolding receive
unknown_error = refl

abbrev signed_call : Options
signed_call = record { auth = true; method = delete; body = no_body; headers = [] }

abbrev bytes : List ℕ
bytes = 0 ∷ 17 ∷ 34 ∷ 51 ∷ 68 ∷ 85 ∷ 102 ∷ 119 ∷ 136 ∷ 153 ∷ 170 ∷ 187 ∷ 204 ∷ 221 ∷ 238 ∷ 255 ∷ []

resolve-redirect_example : (p : Page) × (resolve ("login" ∷ []) false false ≡ page p)
resolve-redirect_example =
    resolve-redirect ("polls" ∷ "p1" ∷ "manage" ∷ []) false false ("login" ∷ [])
      (unfold resolve in refl)
