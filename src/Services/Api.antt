-- ===== src/Services/Api.antt =====
-- services/api.ts. `request` in its two halves: what is sent before the `await`, and what is done with
-- the answer.
pub mod Answers
use hcl_assignment.Common.{
  ℕ, String, Bool, true, false, not, ◌||◌, Option, none, some, List, [], ◌∷◌, ◌==◌, ◌⧺◌, truthy,
  or_text, get_or, if◌then◌else◌,
}
use hcl_assignment.Services.Model.{CreatePollData}
use hcl_assignment.Services.Storage.{Storage, get_item}
use hcl_assignment.Utils.Constants.{auth_token_key}

-- What a `catch` can bind: the error that `request` builds, another Error, or another value.
pub data Failure : Type 0 where
  api_error : String → String → ℕ → Failure
  thrown : String → Failure
  other : Failure

pub data Result (A : Type 0) : Type 0 where
  ok : A → Result A
  err : Failure → Result A

pub data Method : Type 0 where
  get post patch delete : Method

-- The argument of `JSON.stringify`.
pub data Body : Type 0 where
  no_body : Body
  object : List (String × String) → Body
  poll_body : CreatePollData → Body

abbrev pub Header : Type 0
Header = String × String

pub record Options : Type 0 where
  pub auth : Bool
  pub method : Method
  pub body : Body
  pub headers : List Header

pub record Request : Type 0 where
  pub url : String
  pub method : Method
  pub headers : List Header
  pub body : Body

unfoldable pub get_header : String → List Header → Option String
get_header name [] = none
get_header name ((k, v) ∷ rest) = if k == name then some v else get_header name rest

-- `headers[name] = value`; a later spread overrides in the same way.
set_header : String → String → List Header → List Header
set_header name value [] = (name, value) ∷ []
set_header name value ((k, v) ∷ rest) =
    let kept = set_header name value rest in
    if k == name then (name, value) ∷ rest else (k, v) ∷ kept

-- `...(fetchOptions.headers || {})`
spread : List Header → List Header → List Header
unfolding set_header
spread headers [] = headers
spread headers ((k, v) ∷ extra) = spread (set_header k v headers) extra

authorize : Option String → List Header → List Header
unfolding set_header
authorize none headers = headers
authorize (some token) headers =
    if truthy token then set_header "Authorization" ("Bearer " ⧺ token) headers else headers

-- What `fetch` is called with.
unfoldable pub build : String → Storage → String → Options → Request
unfolding get_item spread authorize
build api_url items path options =
    let headers = spread (("Content-Type", "application/json") ∷ []) options.headers in
    record {
      url = api_url ⧺ path;
      method = options.method;
      headers = if options.auth then authorize (get_item auth_token_key items) headers else headers;
      body = options.body;
    }

pub record ErrorBody : Type 0 where
  pub message : Option String
  pub code : Option String

pub record Envelope (T : Type 0) : Type 0 where
  pub success : Bool
  pub payload : Option T
  pub error : Option ErrorBody

-- `await response.json()`: it may reject, with a message, or read `null`.
pub data Json (T : Type 0) : Type 0 where
  unreadable : String → Json T
  null_body : Json T
  envelope : Envelope T → Json T

pub record Response (T : Type 0) : Type 0 where
  pub ok : Bool
  pub status : ℕ
  pub json : Json T

pub data Outcome (T : Type 0) : Type 0 where
  rejected : String → Outcome T
  responded : Response T → Outcome T

abbrev pub message_of : Option ErrorBody → String
message_of none = ""
message_of (some e) = get_or e.message ""

abbrev pub code_of_body : Option ErrorBody → String
code_of_body none = ""
code_of_body (some e) = get_or e.code ""

failure : Option ErrorBody → ℕ → Failure
failure e status =
    api_error (or_text (message_of e) "An error occurred")
      (or_text (code_of_body e) "UNKNOWN_ERROR") status

read_json : {T : Type 0} → Bool → ℕ → Json T → Result (Option T)
unfolding failure
read_json is_ok status (unreadable message) = err (thrown message)
read_json true status null_body = err (thrown "Cannot read properties of null (reading 'success')")
read_json false status null_body = err (failure none status)
read_json is_ok status (envelope data') =
    if not is_ok || not data'.success then err (failure data'.error status) else ok data'.payload

-- The rest of `request`, from the answer of `fetch`.
unfoldable pub receive : {T : Type 0} → Outcome T → Result (Option T)
unfolding read_json
receive (rejected message) = err (thrown message)
receive (responded response) = read_json response.ok response.status response.json

-- `err instanceof Error ? err.message : fallback`
unfoldable pub message_or : String → Failure → String
message_or fallback (api_error message code status) = message
message_or fallback (thrown message) = message
message_or fallback other = fallback

-- `err.code`
unfoldable pub code_of : Failure → Option String
code_of (api_error message code status) = some code
code_of (thrown message) = none
code_of other = none

-- api.get, api.post, api.patch and api.delete: the options of a call.
abbrev pub get_options : Bool → Options
get_options auth = record { auth = auth; method = get; body = no_body; headers = [] }

abbrev pub post_options : Body → Bool → Options
post_options body auth = record { auth = auth; method = post; body = body; headers = [] }

abbrev pub patch_options : Body → Bool → Options
patch_options body auth = record { auth = auth; method = patch; body = body; headers = [] }

abbrev pub delete_options : Bool → Options
delete_options auth = record { auth = auth; method = delete; body = no_body; headers = [] }
