-- ===== src/Services/Auth.antt =====
-- services/auth.ts. A method is the request that it sends and what it does with the answer.
pub mod Session
use hcl_assignment.Common.{String, Bool, true, false, Option, none, some, List, [], ◌∷◌, truthy}
use hcl_assignment.Utils.Constants.{auth_token_key}
use hcl_assignment.Services.Model.{AuthResponse}
use hcl_assignment.Services.Storage.{Storage, get_item, set_item, remove_item}
use hcl_assignment.Services.Api.{
  Request, Result, ok, err, thrown, object, build, post_options, get_options,
}

module _ (api_url : String) (items : Storage) where
  unfoldable pub signup_request : String → String → String → Request
  signup_request name email password = build api_url items "/auth/signup" (
      post_options (object (("name", name) ∷ ("email", email) ∷ ("password", password) ∷ [])) false)

  unfoldable pub login_request : String → String → Request
  login_request email password =
      build api_url items "/auth/login"
        (post_options (object (("email", email) ∷ ("password", password) ∷ [])) false)

  unfoldable pub me_request : Request
  me_request = build api_url items "/auth/me" (get_options true)

-- After the `await` of `signup` and of `login`: the token is stored and the answer returned. With no
-- data in the answer, reading its token throws.
unfoldable pub store_token : Result (Option AuthResponse) → Storage → Result AuthResponse × Storage
unfolding set_item
store_token (ok (some result)) items = (ok result, set_item auth_token_key result.token items)
store_token (ok none) items =
    (err (thrown "Cannot read properties of undefined (reading 'token')"), items)
store_token (err e) items = (err e, items)

unfoldable pub logout : Storage → Storage
unfolding remove_item
logout items = remove_item auth_token_key items

unfoldable pub get_token : Storage → Option String
unfolding get_item
get_token items = get_item auth_token_key items

truthy_item : Option String → Bool
truthy_item none = false
truthy_item (some token) = truthy token

unfoldable pub is_logged_in : Storage → Bool
unfolding get_item truthy_item
is_logged_in items = truthy_item (get_item auth_token_key items)
