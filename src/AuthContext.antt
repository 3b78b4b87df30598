-- ===== src/AuthContext.antt =====
-- context/AuthContext.tsx: the signed-in user, restored from the stored token when the app starts.
pub mod Consistent
pub mod Provider
use hcl_assignment.Common.{String, Bool, true, false, Option, none, some, is_some}
use hcl_assignment.Services.Model.{User, AuthResponse}
use hcl_assignment.Services.Storage.{Storage}
use hcl_assignment.Services.Api.{Result, ok, err, Failure}
use hcl_assignment.Services.Auth.{store_token, logout, is_logged_in}

-- The provider's state, with the browser's storage.
pub record AuthState : Type 0 where
  pub user : Option User
  pub is_loading : Bool
  pub storage : Storage

abbrev pub is_authenticated : AuthState → Bool
is_authenticated s = is_some s.user

-- The first effect. `true`: `me` is called.
unfoldable pub start : Storage → AuthState × Bool
unfolding is_logged_in
start items =
    (record { user = none; is_loading = is_logged_in items; storage = items }, is_logged_in items)

-- The answer of `me`: `then`, `catch`, `finally`.
unfoldable pub me_settled : Result (Option User) → AuthState → AuthState
unfolding logout
me_settled (ok user) s = record s { user = user; is_loading = false }
me_settled (err e) s = record s { user = none; is_loading = false; storage = logout s.storage }

signed_in : Result AuthResponse × Storage → AuthState → AuthState × Option Failure
signed_in (ok result, items) s = (record s { user = some result.user; storage = items }, none)
signed_in (err e, items) s = (record s { storage = items }, some e)

-- `login` and `signup` after their call; a failure is thrown on to the page.
unfoldable pub sign_in_settled :
    Result (Option AuthResponse) → AuthState → AuthState × Option Failure
unfolding signed_in store_token
sign_in_settled answer s = signed_in (store_token answer s.storage) s

unfoldable pub log_out : AuthState → AuthState
unfolding logout
log_out s = record s { user = none; storage = logout s.storage }
