-- ===== src/Examples/Accounts.antt =====
-- Accounts in memory, a password that is its own hash, and one token; the theorems about accounts.
use Prim.Native.String
use hcl_assignment.Common.{
  ℕ, ◌≤◌, ◌<◌, String, Bool, true, false, ◌&&◌, ◌||◌, Option, none, some, is_some, List, [], ◌∷◌,
  ◌≡◌, refl, ap, sym, subst, ◌∙◌, inl, inr, Bool-cases, truthy, ltb, eqb, ◌==◌, eq_iff,
  if◌then◌else◌, arith,
}
use hcl_assignment.Services.Api.{receive}
use hcl_assignment.Services.Auth.{is_logged_in}
use hcl_assignment.AuthContext.{AuthState, sign_in_settled}
use hcl_assignment.Server.Text.{len}
use hcl_assignment.Server.Model.{Ids, ok, err, email_taken, invalid_credentials, other_error}
use hcl_assignment.Server.Accounts.{
  Account, Users, Passwords, Claims, Tokens, UserFaults, SignupInput, AuthResult, Fresh, signup,
  login, to_response, answer_signup,
}
use hcl_assignment.Server.Accounts.Lasting.{Call, run_signups, signup-login}
use hcl_assignment.Server.Accounts.Restored.{reload, signup-restored}
use hcl_assignment.Examples.Databases.{two_ids}

abbrev by_email : String → List Account → Option Account
by_email email [] = none
by_email email (a ∷ rest) = if a.email == email then some a else by_email email rest

abbrev by_id : ℕ → List Account → Option Account
by_id id [] = none
by_id id (a ∷ rest) = if eqb a.id id then some a else by_id id rest

-- A text of a time is kept to its first 23 bytes.
abbrev bson_time : String → String
bson_time time = String.slice time 0 23

abbrev kept : Account → Account
kept a = record a { created_at = bson_time a.created_at }

abbrev insert : Account → List Account → Option (List Account)
insert a s =
    if is_some (by_email a.email s) || is_some (by_id a.id s) then none else some (kept a ∷ s)

insert_new :
    (a : Account) (s t : List Account)
    → insert a s ≡ some t
    → (by_email a.email s ≡ none) × (by_id a.id s ≡ none)
insert_new a s t h = ground arith

by_email-insert :
    (a : Account) (s t : List Account) (email : String)
    → insert a s ≡ some t
    → by_email email t ≡ (if a.email == email then some (kept a) else by_email email s)
by_email-insert a s t email h = ground arith

by_id-insert :
    (a : Account) (s t : List Account) (id : ℕ)
    → insert a s ≡ some t
    → by_id id t ≡ (if eqb a.id id then some (kept a) else by_id id s)
by_id-insert a s t id h = ground arith

abbrev users_in_memory : Users
users_in_memory = record {
  State = List Account;
  by_email = by_email;
  by_id = by_id;
  bson_time = bson_time;
  insert = insert;
  insert_new = insert_new;
  by_email-insert = by_email-insert;
  by_id-insert = by_id-insert;
}

abbrev plain_hash : ℕ → String → Option String
plain_hash salt password = if ltb 72 (len password) then none else some password

plain_hash_long :
    (salt : ℕ) (password : String) → 72 < len password → plain_hash salt password ≡ none
plain_hash_long salt password h = ground arith

plain_hash_compared :
    (salt : ℕ) (password hash : String)
    → plain_hash salt password ≡ some hash
    → (hash == password) ≡ true
plain_hash_compared salt password hash h = ground (arith, eq_iff hash password)

abbrev plain_passwords : Passwords
plain_passwords = record {
  generate = plain_hash;
  compare = λ hash password. hash == password;
  generate_long = plain_hash_long;
  compare-generate = plain_hash_compared;
}

-- The claims of the one token.
abbrev pub ada_claims : Claims
ada_claims = record { user_id = "p1"; email = "ada@example.com"; expires_at = 604900 }

abbrev pub is_ada : Claims → Bool
is_ada c = c.user_id == "p1" && (c.email == "ada@example.com" && eqb c.expires_at 604900)

abbrev pub sign_ada : Claims → Option String
sign_ada c = if is_ada c then some "jwt" else none

abbrev pub parse_ada : ℕ → String → Option Claims
parse_ada now token = if token == "jwt" && ltb now 604900 then some ada_claims else none

signed_jwt : (c : Claims) (token : String) → sign_ada c ≡ some token → "jwt" ≡ token
signed_jwt c token h = elim (Bool-cases (is_ada c)) [
  | inl is ↦ ground (arith, is)
  | inr isnt ↦ ground (arith, isnt)
]

signed_ada : (c : Claims) (token : String) → sign_ada c ≡ some token → is_ada c ≡ true
signed_ada c token h = ground arith

claims_ada : (c : Claims) → is_ada c ≡ true → c ≡ ada_claims
claims_ada c h = ground (arith, eq_iff c.user_id "p1", eq_iff c.email "ada@example.com")

pub ada_written : (c : Claims) (token : String) → sign_ada c ≡ some token → truthy token ≡ true
ada_written c token h = subst (λ t. truthy t ≡ true) (signed_jwt c token h) refl

soon_parsed : (now : ℕ) → now < 604900 → parse_ada now "jwt" ≡ some ada_claims
soon_parsed now soon = ground arith

late_parsed : (now : ℕ) → 604900 ≤ now → parse_ada now "jwt" ≡ none
late_parsed now late = ground arith

pub ada_parsed :
    (now : ℕ) (c : Claims) (token : String)
    → sign_ada c ≡ some token
    → now < c.expires_at
    → parse_ada now token ≡ some c
ada_parsed now c token h soon =
    let same = claims_ada c (signed_ada c token h) in
    subst (λ t. parse_ada now t ≡ some c) (signed_jwt c token h)
      (soon_parsed now (subst (λ n. now < n) (ap (λ d. d.expires_at) same) soon)
        ∙ ap some (sym same))

pub ada_expired :
    (now : ℕ) (c : Claims) (token : String)
    → sign_ada c ≡ some token
    → c.expires_at ≤ now
    → parse_ada now token ≡ none
ada_expired now c token h late =
    let same = claims_ada c (signed_ada c token h) in
    subst (λ t. parse_ada now t ≡ none) (signed_jwt c token h)
      (late_parsed now (subst (λ n. n ≤ now) (ap (λ d. d.expires_at) same) late))

abbrev pub ada_token : Tokens
ada_token = record {
  signed_string = sign_ada;
  parse_with_claims = parse_ada;
  signed_written = ada_written;
  parse-signed = ada_parsed;
  parse_expired = ada_expired;
}

abbrev calm : UserFaults
calm = record { find = false; create = false }

abbrev draws : Fresh
draws = record { id = 1; salt = 7; now = 100; created_at = "t" }

abbrev ada : SignupInput
ada = record { name = "Ada"; email = "ada@example.com"; password = "Analytical1" }

abbrev ada_account : Account
ada_account = record {
  id = 1;
  name = "Ada";
  email = "ada@example.com";
  password_hash = "Analytical1";
  created_at = "t";
}

abbrev ada_result : AuthResult
ada_result = record { user = ada_account; token = "jwt" }

-- Someone tries the same email later.
abbrev again : Call two_ids users_in_memory plain_passwords ada_token
again = record {
  faults = calm;
  fresh = record { id = 2; salt = 8; now = 200; created_at = "u" };
  input = record { name = "Bob"; email = "ada@example.com"; password = "Difference1" };
  seen = [];
}

abbrev sign_up :
    SignupInput
    → List Account
    → List Account
    → hcl_assignment.Server.Model.Result AuthResult × List Account
sign_up input seen accounts =
    signup two_ids users_in_memory plain_passwords ada_token calm draws input seen accounts

signed_up : (sign_up ada [] []).0 ≡ ok ada_result
unfolding signup
signed_up = refl

-- The email is refused when it is looked up, and when another took it in between.
taken :
    ((sign_up ada (ada_account ∷ []) []).0 ≡ err email_taken)
    × ((sign_up ada [] (ada_account ∷ [])).0 ≡ err email_taken)
unfolding signup
taken = (refl, refl)

wrong_password :
    login two_ids users_in_memory plain_passwords ada_token calm 100 "ada@example.com" "analytical1"
      (ada_account ∷ [])
    ≡ err invalid_credentials
unfolding login
wrong_password = refl

signup-login_example :
    login two_ids users_in_memory plain_passwords ada_token calm 100 "ada@example.com" "Analytical1"
      (run_signups two_ids users_in_memory plain_passwords ada_token
        (again ∷ [])
        (sign_up ada [] []).1)
    ≡ ok ada_result
signup-login_example =
    signup-login two_ids users_in_memory plain_passwords ada_token calm calm draws ada [] []
      ada_result (again ∷ []) 100 "jwt" signed_up refl refl

abbrev signed_out : AuthState
signed_out = record { user = none; is_loading = false; storage = [] }

-- The session after Ada's sign-up, loaded again at a time.
abbrev reloaded : ℕ → AuthState
reloaded now =
    let (answer, accounts) = sign_up ada [] [] in
    let session =
      (sign_in_settled
        (receive (answer_signup two_ids users_in_memory plain_passwords ada_token answer))
        signed_out).0 in
    reload two_ids users_in_memory plain_passwords ada_token "/api/v1" calm now
      (run_signups two_ids users_in_memory plain_passwords ada_token (again ∷ []) accounts) session

signup-restored_example :
    let session =
      (sign_in_settled
        (receive
          (answer_signup two_ids users_in_memory plain_passwords ada_token (sign_up ada [] []).0))
        signed_out).0 in
    (session.user
      ≡ some (to_response two_ids users_in_memory plain_passwords ada_token ada_account))
    × ((reloaded 5000).is_loading ≡ false)
    × ((reloaded 5000).user
        ≡ some (to_response two_ids users_in_memory plain_passwords ada_token ada_account))
    × (is_logged_in (reloaded 5000).storage ≡ true)
signup-restored_example =
    signup-restored two_ids users_in_memory plain_passwords ada_token calm calm draws ada [] []
      ada_result (again ∷ []) 5000 "/api/v1" signed_out signed_up refl refl

-- An hour after the seven days the session is over.
session_over : ((reloaded 608500).user ≡ none) × (is_logged_in (reloaded 608500).storage ≡ false)
session_over =
    let restored =
      signup-restored two_ids users_in_memory plain_passwords ada_token calm calm draws ada [] []
        ada_result (again ∷ []) 608500 "/api/v1" signed_out signed_up refl refl in
    (restored.2, restored.3)
