-- ===== src/Server/Model.antt =====
-- The models and the errors of the server, and utils/response.go.
use hcl_assignment.Common.{
  ℕ, String, Bool, true, false, Option, none, some, List, [], ◌∷◌, ◌≡◌, ◌⊎◌, inl, inr, refl, eqb,
  ◌==◌, if◌then◌else◌,
}
use hcl_assignment.Services.Model.{PollOption, Status}
use hcl_assignment.Services.Api.{Outcome, responded, envelope}

-- models/poll.go; an object id is a number. `updatedAt` and `expiresAt` are left out: no code reads them.
pub record Poll : Type 0 where
  pub id : ℕ
  pub creator_id : ℕ
  pub title : String
  pub description : String
  pub options : List PollOption
  pub share_code : String
  pub status : Status
  pub created_at : String

-- models/vote.go
pub record Vote : Type 0 where
  pub poll_id : ℕ
  pub option_id : String
  pub voter_token : String

-- The errors of services that a controller tells apart, and any other error.
pub data Error : Type 0 where
  poll_not_found poll_closed unauthorized option_not_found already_voted invalid_voter_token : Error
  too_few_options too_many_options duplicate_option : Error
  email_taken invalid_credentials user_not_found : Error
  other_error : Error

pub data Result (A : Type 0) : Type 0 where
  err : Error → Result A
  ok : A → Result A

infixl 5 ◌>>=◌
abbrev pub ◌>>=◌ : {A B : Type 0} → Result A → (A → Result B) → Result B
err failure >>= k = err failure
ok x >>= k = k x

-- A chain of two calls succeeds when both do, and fails when one does.
pub chain_ok :
    {A B : Type 0} {b : B} (first : Result A) (second : A → Result B)
    → (first >>= second) ≡ ok b
    → (x : A) × (first ≡ ok x) × (second x ≡ ok b)
chain_ok (err failure) second h = cc
chain_ok (ok x) second h = (x, refl, h)

pub chain_err :
    {A B : Type 0} {failure : Error} (first : Result A) (second : A → Result B)
    → (first >>= second) ≡ err failure
    → (first ≡ err failure) ⊎ ((x : A) × (first ≡ ok x) × (second x ≡ err failure))
chain_err (err e) second h = inl (cc)
chain_err (ok x) second h = inr (x, refl, h)

pub Result-cases :
    {A : Type 0} (m : Result A) → ((a : A) × (m ≡ ok a)) ⊎ ((e : Error) × (m ≡ err e))
Result-cases (ok a) = inl (a, refl)
Result-cases (err e) = inr (e, refl)

-- A call that fails when the database does.
abbrev pub unless : {A : Type 0} → Bool → A → Result A
unless true a = err other_error
unless false a = ok a

abbrev pub find_poll : ℕ → List Poll → Option Poll
find_poll id [] = none
find_poll id (p ∷ rest) = if eqb p.id id then some p else find_poll id rest

abbrev pub find_shared : String → List Poll → Option Poll
find_shared code [] = none
find_shared code (p ∷ rest) = if p.share_code == code then some p else find_shared code rest

-- The hexadecimal text of object ids, primitive.ObjectIDFromHex and Hex of the driver of MongoDB, and a
-- time as BSON keeps it: in UTC, to the millisecond.
pub record Ids : Type 0 where
  pub from_hex : String → Option ℕ
  pub hex : ℕ → String
  pub bson_time : String → String

-- FindByID of the poll repository: an id that is not hexadecimal is an error.
unfoldable pub find_by_id : Ids → Bool → String → List Poll → Result (Option Poll)
find_by_id ids fails id polls = elim (ids.from_hex id) [
  | none ↦ err other_error
  | some n ↦ unless fails (find_poll n polls)
]

abbrev pub or_not_found : Option Poll → Result Poll
or_not_found none = err poll_not_found
or_not_found (some p) = ok p

-- RespondSuccess, RespondError and the statuses of its callers.
abbrev pub respond_success : {T : Type 0} → ℕ → T → Outcome T
respond_success status payload = responded (record {
  ok = true;
  status = status;
  json = envelope (record { success = true; payload = some payload; error = none });
})

abbrev pub respond_error : {T : Type 0} → ℕ → String → String → Outcome T
respond_error status code message = responded (record {
  ok = false;
  status = status;
  json = envelope (record {
    success = false;
    payload = none;
    error = some (record { message = some message; code = some code });
  });
})

abbrev pub respond_validation_error : {T : Type 0} → String → Outcome T
respond_validation_error message = respond_error 400 "VALIDATION_ERROR" message

abbrev pub respond_not_found : {T : Type 0} → String → Outcome T
respond_not_found message = respond_error 404 "NOT_FOUND" message

abbrev pub respond_unauthorized : {T : Type 0} → String → Outcome T
respond_unauthorized message = respond_error 401 "UNAUTHORIZED" message

abbrev pub respond_forbidden : {T : Type 0} → String → Outcome T
respond_forbidden message = respond_error 403 "FORBIDDEN" message

abbrev pub respond_internal_error : {T : Type 0} → String → Outcome T
respond_internal_error message = respond_error 500 "INTERNAL_ERROR" message
