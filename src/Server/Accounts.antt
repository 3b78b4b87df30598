-- ===== src/Server/Accounts.antt =====
-- services/auth_service.go with utils/jwt.go, utils/password.go and the user repository;
-- middleware/auth.go; and the answers of controllers/auth_controller.go.
pub mod Guard
pub mod Lasting
pub mod Restored
use Prim.Native.Char.{Char, code}
use Prim.Native.String
use hcl_assignment.Common.{to_lower}
use hcl_assignment.Common.{
  ℕ, ◌+◌, ◌*◌, ◌-◌, ◌≤◌, ◌<◌, String, Bool, true, false, ◌&&◌, Option, none, some, ◌≡◌, truthy, eqb,
  leb, ◌==◌, if◌then◌else◌,
}
use hcl_assignment.Services.Model.{User, AuthResponse}
use hcl_assignment.Services.Api.{Outcome}
use hcl_assignment.Server.Model.{
  Ids, Result, ok, err, ◌>>=◌, unless, email_taken, invalid_credentials, user_not_found,
  other_error, respond_success, respond_error, respond_unauthorized, respond_internal_error,
}
use hcl_assignment.Server.Text.{len}

-- models/user.go
pub record Account : Type 0 where
  pub id : ℕ
  pub name : String
  pub email : String
  pub password_hash : String
  pub created_at : String

-- The collection of users in MongoDB: the user with an email or an id, and an insertion, which the
-- unique indexes on both refuse. BSON keeps a time in UTC, to the millisecond.
pub record Users : Type 1 where
  pub State : Type 0
  pub by_email : String → State → Option Account
  pub by_id : ℕ → State → Option Account
  pub bson_time : String → String
  pub insert : Account → State → Option State
  pub insert_new :
      (a : Account) (s t : State)
      → insert a s ≡ some t
      → (by_email a.email s ≡ none) × (by_id a.id s ≡ none)
  pub by_email-insert :
      (a : Account) (s t : State) (email : String)
      → insert a s ≡ some t
      → by_email email t ≡ (
          if a.email == email
          then some (record a { created_at = bson_time a.created_at })
          else by_email email s)
  pub by_id-insert :
      (a : Account) (s t : State) (id : ℕ)
      → insert a s ≡ some t
      → by_id id t ≡ (
          if eqb a.id id
          then some (record a { created_at = bson_time a.created_at })
          else by_id id s)

-- bcrypt, with the salt that it draws. It refuses passwords of more than 72 bytes.
pub record Passwords : Type 0 where
  pub generate : ℕ → String → Option String
  pub compare : String → String → Bool
  pub generate_long :
      (salt : ℕ) (password : String) → 72 < len password → generate salt password ≡ none
  pub compare-generate :
      (salt : ℕ) (password hash : String)
      → generate salt password ≡ some hash
      → compare hash password ≡ true

-- What a token says, less the time of its issue, which nothing reads.
pub record Claims : Type 0 where
  pub user_id : String
  pub email : String
  pub expires_at : ℕ

-- Signed tokens of golang-jwt for the server's secret, and their reading at a time in seconds.
pub record Tokens : Type 0 where
  pub signed_string : Claims → Option String
  pub parse_with_claims : ℕ → String → Option Claims
  pub signed_written :
      (claims : Claims) (token : String) → signed_string claims ≡ some token → truthy token ≡ true
  pub parse-signed :
      (now : ℕ) (claims : Claims) (token : String)
      → signed_string claims ≡ some token
      → now < claims.expires_at
      → parse_with_claims now token ≡ some claims
  pub parse_expired :
      (now : ℕ) (claims : Claims) (token : String)
      → signed_string claims ≡ some token
      → claims.expires_at ≤ now
      → parse_with_claims now token ≡ none

-- Which calls of the database fail.
pub record UserFaults : Type 0 where
  pub find : Bool
  pub create : Bool

pub record SignupInput : Type 0 where
  pub name : String
  pub email : String
  pub password : String

pub record AuthResult : Type 0 where
  pub user : Account
  pub token : String

-- What the program draws for a call: an id, a salt, and the time, as a number and as a text.
pub record Fresh : Type 0 where
  pub id : ℕ
  pub salt : ℕ
  pub now : ℕ
  pub created_at : String

abbrev pub or_error : {A : Type 0} → Option A → Result A
or_error none = err other_error
or_error (some a) = ok a

-- strings.SplitN(header, " ", 2): what is before the first space, and what is after it.
pub split_first : String → Option (String × String)
split_first String.[] = none
split_first (String.◌∷◌ c s) =
    let rest = split_first s in
    if eqb (code c) 32
    then some (String.[], s)
    else elim rest [ none ↦ none | some (word, tail) ↦ some (String.◌∷◌ c word, tail) ]

module _ (tokens : Tokens) where
  -- GenerateJWT: a token is good for seven days.
  abbrev pub claims_of : ℕ → String → String → Claims
  claims_of now id email = record { user_id = id; email = email; expires_at = now + 24 * 3600 * 7 }

  abbrev pub generate_jwt : ℕ → String → String → Result String
  generate_jwt now id email = or_error (tokens.signed_string (claims_of now id email))

  -- AuthRequired: it refuses with a message, or goes on with the user's id.
  pass_claims : {A : Type 0} → Option Claims → (String → A) → (String → A) → A
  pass_claims none refuse next = refuse "Invalid or expired token"
  pass_claims (some claims) refuse next = next claims.user_id

  pass_parts : {A : Type 0} → ℕ → Option (String × String) → (String → A) → (String → A) → A
  unfolding pass_claims to_lower
  pass_parts now none refuse next = refuse "Invalid authorization header format"
  pass_parts now (some (scheme, token)) refuse next =
      if to_lower scheme == "bearer"
      then pass_claims (tokens.parse_with_claims now token) refuse next
      else refuse "Invalid authorization header format"

  unfoldable pub authorize : {A : Type 0} → ℕ → Option String → (String → A) → (String → A) → A
  unfolding pass_parts split_first
  authorize now none refuse next = refuse "Authorization header required"
  authorize now (some header) refuse next =
      if truthy header
      then pass_parts now (split_first header) refuse next
      else refuse "Authorization header required"

  unfoldable pub auth_required : {T : Type 0} → ℕ → Option String → (String → Outcome T) → Outcome T
  unfolding authorize
  auth_required now header handler = authorize now header respond_unauthorized handler

module _ (ids : Ids) (users : Users) (passwords : Passwords) (tokens : Tokens) where
  abbrev pub to_response : Account → User
  to_response u = record {
    id = ids.hex u.id;
    name = u.name;
    email = u.email;
    created_at = u.created_at;
  }

  check_taken : Option Account → Result Unit
  check_taken none = ok tt
  check_taken (some existing) = err email_taken

  -- `Create` of the repository; a duplicate key means that the email is taken.
  insert_account : UserFaults → Account → users.State → Result users.State
  insert_account faults user accounts =
      if faults.create
      then err other_error
      else elim (users.insert user accounts) [ none ↦ err email_taken | some kept ↦ ok kept ]

  account_of : Fresh → SignupInput → String → Account
  account_of fresh input hash = record {
    id = fresh.id;
    name = input.name;
    email = input.email;
    password_hash = hash;
    created_at = fresh.created_at;
  }

  -- `Signup` up to the insertion. `seen` is the collection when the email is looked up.
  new_account : UserFaults → Fresh → SignupInput → users.State → Result Account
  unfolding check_taken account_of
  new_account faults fresh input seen = do
    existing ← unless faults.find (users.by_email input.email seen)
    free ← check_taken existing
    hash ← or_error (passwords.generate fresh.salt input.password)
    ok (account_of fresh input hash)

  with_token : ℕ → Account → Result AuthResult
  with_token now user = do
    token ← generate_jwt tokens now (ids.hex user.id) user.email
    ok (record { user = user; token = token })

  -- `Signup`. Others may sign up before the insertion, into `accounts`.
  unfoldable pub signup :
      UserFaults → Fresh → SignupInput → users.State → users.State → Result AuthResult × users.State
  unfolding new_account insert_account with_token
  signup faults fresh input seen accounts = elim (new_account faults fresh input seen) [
    | err e ↦ (err e, accounts)
    | ok user ↦ elim (insert_account faults user accounts) [
      | err e ↦ (err e, accounts)
      | ok kept ↦ (with_token fresh.now user, kept)
    ]
  ]

  check_password : String → Option Account → Result Account
  check_password password none = err invalid_credentials
  check_password password (some user) =
      if passwords.compare user.password_hash password then ok user else err invalid_credentials

  unfoldable pub login : UserFaults → ℕ → String → String → users.State → Result AuthResult
  unfolding check_password with_token
  login faults now email password accounts = do
    found ← unless faults.find (users.by_email email accounts)
    user ← check_password password found
    with_token now user

  or_unknown : Option Account → Result Account
  or_unknown none = err user_not_found
  or_unknown (some user) = ok user

  -- `GetUserByID`
  unfoldable pub get_user_by_id : UserFaults → String → users.State → Result Account
  unfolding or_unknown
  get_user_by_id faults id accounts = do
    n ← or_error (ids.from_hex id)
    found ← unless faults.find (users.by_id n accounts)
    or_unknown found

  -- The answers of `Signup`, `Login` and `Me` of the controller.
  abbrev auth_response : AuthResult → AuthResponse
  auth_response result = record { token = result.token; user = to_response result.user }

  unfoldable pub answer_signup : Result AuthResult → Outcome AuthResponse
  answer_signup (ok result) = respond_success 201 (auth_response result)
  answer_signup (err email_taken) = respond_error 409 "EMAIL_TAKEN" "Email is already in use"
  answer_signup (err _) = respond_internal_error "Failed to create account"

  unfoldable pub answer_login : Result AuthResult → Outcome AuthResponse
  answer_login (ok result) = respond_success 200 (auth_response result)
  answer_login (err invalid_credentials) =
      respond_error 401 "INVALID_CREDENTIALS" "Invalid email or password"
  answer_login (err _) = respond_internal_error "Login failed"

  answer_me : Result Account → Outcome User
  answer_me (ok user) = respond_success 200 (to_response user)
  answer_me (err _) = respond_internal_error "Failed to load user"

  -- The route of `Me`, behind AuthRequired.
  unfoldable pub me : UserFaults → ℕ → Option String → users.State → Outcome User
  unfolding answer_me
  me faults now header accounts =
      auth_required tokens now header (λ id. answer_me (get_user_by_id faults id accounts))
