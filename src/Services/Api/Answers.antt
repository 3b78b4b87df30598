-- ===== src/Services/Api/Answers.antt =====
-- Which answers `request` accepts, and which headers it sends.
use hcl_assignment.Common.{
  ℕ, String, Bool, true, false, Option, none, some, List, [], ◌∷◌, ◌≡◌, refl, ◌⧺◌, truthy, ◌↔◌,
  eq_iff, ◌==◌, if◌then◌else◌, arith,
}
use hcl_assignment.Services.Storage.{Storage, get_item}
use hcl_assignment.Utils.Constants.{auth_token_key}
use hcl_assignment.Services.Api.{
  ok, Outcome, rejected, responded, Json, unreadable, null_body, envelope, receive, read_json,
  Header, get_header, set_header, authorize, build, Options,
}

-- The answers that carry a value: an `ok` status, and an envelope whose `success` is true.
abbrev pub Carries : {T : Type 0} → Json T → Option T → Type 0
Carries (unreadable message) value = ⊥
Carries null_body value = ⊥
Carries (envelope e) value = (e.success ≡ true) × (e.payload ≡ value)

abbrev pub Accepts : {T : Type 0} → Outcome T → Option T → Type 0
Accepts (rejected message) value = ⊥
Accepts (responded r) value = (r.ok ≡ true) × Carries r.json value

read_json-ok :
    {T : Type 0} (is_ok : Bool) (status : ℕ) (json : Json T) (value : Option T)
    → read_json is_ok status json ≡ ok value
    → (is_ok ≡ true) × Carries json value
unfolding read_json
read_json-ok is_ok status (unreadable message) value h = cc
read_json-ok true status null_body value h = cc
read_json-ok false status null_body value h = cc
read_json-ok is_ok status (envelope e) value h = ground arith

ok-read_json :
    {T : Type 0} (is_ok : Bool) (status : ℕ) (json : Json T) (value : Option T)
    → is_ok ≡ true
    → Carries json value
    → read_json is_ok status json ≡ ok value
unfolding read_json
ok-read_json is_ok status (unreadable message) value i h = absurd h
ok-read_json is_ok status null_body value i h = absurd h
ok-read_json is_ok status (envelope e) value i h = ground arith

-- `request` returns a value exactly when the server answered with an `ok` status and an envelope
-- whose `success` is true; the value is the envelope's data.
pub receive-ok_iff :
    {T : Type 0} (answer : Outcome T) (value : Option T)
    → (receive answer ≡ ok value) ↔ Accepts answer value
unfolding receive
receive-ok_iff (rejected message) value = (λ h. cc, λ h. absurd h)
receive-ok_iff (responded r) value =
    (read_json-ok r.ok r.status r.json value, λ h. ok-read_json r.ok r.status r.json value h.0 h.1)

get_header-set_header :
    (name key value : String) (headers : List Header)
    → get_header key (set_header name value headers)
      ≡ (if name == key then some value else get_header key headers)
unfolding get_header set_header
get_header-set_header name key value [] = refl
get_header-set_header name key value ((k, v) ∷ rest) =
    ground (
      arith,
      get_header-set_header name key value rest,
      eq_iff k name,
      eq_iff k key,
      eq_iff name key,
    )

abbrev pub bearer : Bool → Option String → Option String
bearer false token = none
bearer true none = none
bearer true (some token) = if truthy token then some ("Bearer " ⧺ token) else none

abbrev json_headers : List Header
json_headers = ("Content-Type", "application/json") ∷ []

bearer_cases :
    (auth : Bool) (token : Option String)
    → get_header "Authorization" (if auth then authorize token json_headers else json_headers)
      ≡ bearer auth token
unfolding get_header authorize
bearer_cases false token = refl
bearer_cases true none = refl
bearer_cases true (some token) = ground arith

-- The headers of a call of `api`, which gives none itself, hold an Authorization with the Bearer token
-- exactly for an authenticated call with a token in the storage that is not empty.
pub build-authorization :
    (api_url : String) (items : Storage) (path : String) (options : Options)
    → options.headers ≡ []
    → get_header "Authorization" (build api_url items path options).headers
      ≡ bearer options.auth (get_item auth_token_key items)
unfolding build
build-authorization api_url items path options e =
    rw e (bearer_cases options.auth (get_item auth_token_key items))
