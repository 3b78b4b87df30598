-- ===== src/Services/Auth/Session.antt =====
-- The token of a session: stored by a sign-in, sent with each authenticated call, gone after logout.
use hcl_assignment.Common.{
  String, Bool, [], is_some, ap, arith, true, false, none, some, ◌≡◌, refl, ◌∙◌, ◌⧺◌, truthy,
}
use hcl_assignment.Services.Model.{AuthResponse}
use hcl_assignment.Services.Storage.{Storage, get_item, remove_item, get_item-remove_item}
use hcl_assignment.Services.Api.{ok, get_header, build, Method, Body, Options}
use hcl_assignment.Services.Api.Answers.{bearer, build-authorization}
use hcl_assignment.Utils.Constants.{auth_token_key}
use hcl_assignment.Services.Auth.{
  store_token, logout, me_request, get_token, is_logged_in, truthy_item,
}

me_request-authorization :
    (api_url : String) (items : Storage)
    → get_header "Authorization" (me_request api_url items).headers
      ≡ bearer true (get_item auth_token_key items)
unfolding me_request
me_request-authorization api_url items = build-authorization api_url items _ _ refl

-- After a sign-in whose answer has a token that is not empty, the browser counts as logged in and the
-- next authenticated request carries that token.
pub store_token-me_request :
    (api_url : String) (answer : AuthResponse) (items : Storage)
    → truthy answer.token ≡ true
    → let items' = (store_token (ok (some answer)) items).1 in
      (is_logged_in items' ≡ true)
      × (get_header "Authorization" (me_request api_url items').headers
          ≡ some ("Bearer " ⧺ answer.token))
store_token-me_request api_url answer items h = (
  unfold store_token is_logged_in in h,
  rw (me_request-authorization api_url) (unfold store_token get_item in rw h),
)

is_logged_in_lem :
    (items : Storage) → is_logged_in items ≡ truthy_item (get_item auth_token_key items)
unfolding is_logged_in
is_logged_in_lem items = refl

logged_out :
    (items : Storage)
    → truthy_item (get_item auth_token_key (remove_item auth_token_key items)) ≡ false
unfolding truthy_item
logged_out items = rw (get_item-remove_item auth_token_key)

-- After `logout` the browser counts as logged out, and no request carries a token.
pub logout-me_request :
    (api_url : String) (items : Storage)
    → (is_logged_in (logout items) ≡ false)
      × (get_header "Authorization" (me_request api_url (logout items)).headers ≡ none)
logout-me_request api_url items = (
  is_logged_in_lem (logout items) ∙ (unfold logout in logged_out items),
  rw (me_request-authorization api_url) (unfold logout in rw (get_item-remove_item auth_token_key)),
)

pub is_logged_in-get_token :
    (items : Storage) → is_logged_in items ≡ true → is_some (get_token items) ≡ true
unfolding is_logged_in get_token truthy_item
is_logged_in-get_token items h = ground arith

pub get_token-store_token :
    (r : AuthResponse) (items : Storage)
    → is_some (get_token (store_token (ok (some r)) items).1) ≡ true
unfolding get_token store_token get_item
get_token-store_token r items = refl

-- The options of the calls of `api`, which give no headers.
abbrev pub call_options : Bool → Method → Body → Options
call_options auth method body = record { auth = auth; method = method; body = body; headers = [] }

bearer-none : (auth : Bool) → bearer auth none ≡ none
bearer-none true = refl
bearer-none false = refl

pub logout-build :
    (api_url path : String) (items : Storage) (auth : Bool) (method : Method) (body : Body)
    → get_header "Authorization"
        (build api_url (logout items) path (call_options auth method body)).headers
      ≡ none
logout-build api_url path items auth method body =
    let gone : get_item auth_token_key (logout items) ≡ none =
      unfold logout in rw (get_item-remove_item auth_token_key) refl in
    build-authorization api_url (logout items) path (call_options auth method body) refl
    ∙ ap (bearer auth) gone
    ∙ bearer-none auth
