-- ===== src/Server/Casting.antt =====
-- controllers/vote_controller.go and validators/vote_validator.go: a vote from its request to its
-- answer.
pub mod Marks
pub mod Tokens
pub mod Anonymous
use hcl_assignment.Common.{
  ℕ, String, Bool, true, false, not, ◌||◌, ◌&&◌, Option, none, some, truthy, ltb, if◌then◌else◌,
}
use hcl_assignment.Services.Model.{PollResults}
use hcl_assignment.Services.Api.{Outcome}
use hcl_assignment.Server.Model.{
  Ids, Error, Result, ok, err, poll_not_found, poll_closed, option_not_found, already_voted,
  invalid_voter_token, respond_success, respond_error, respond_unauthorized,
  respond_validation_error, respond_not_found, respond_internal_error,
}
use hcl_assignment.Server.Text.{len, trim_space}
use hcl_assignment.Server.Votes.{Collection, Hashes, Db, Faults, CastVoteInput, cast}

-- The body, with "" for a field that is missing.
pub record CastVoteRequest : Type 0 where
  pub option_id : String
  pub voter_token : String

abbrev pub trimmed : CastVoteRequest → CastVoteRequest
trimmed r = record { option_id = trim_space r.option_id; voter_token = trim_space r.voter_token }

-- What `Validate` objects to, of the trimmed request.
unfoldable pub invalid : CastVoteRequest → Option String
invalid r =
    if not (truthy r.option_id)
    then some "optionId is required"
    else if not (truthy r.voter_token)
    then some "voterToken is required"
    else if ltb (len r.voter_token) 8 || ltb 128 (len r.voter_token)
    then some "invalid voterToken"
    else none

-- ShouldBindJSON: a body that is no JSON, or lacks a required field, is refused.
abbrev pub is_bound : CastVoteRequest → Bool
is_bound r = truthy r.option_id && truthy r.voter_token

unfoldable pub answer : Result PollResults → Outcome PollResults
answer (ok event) = respond_success 201 event
answer (err poll_not_found) = respond_not_found "Poll not found"
answer (err poll_closed) = respond_error 409 "POLL_CLOSED" "This poll is closed"
answer (err option_not_found) = respond_validation_error "Invalid option"
answer (err already_voted) = respond_error 409 "ALREADY_VOTED" "You have already voted on this poll"
answer (err invalid_voter_token) = respond_validation_error "Voter token is required"
answer (err _) = respond_internal_error "Failed to cast vote"

module _ (ids : Ids) (mongo : Collection) (redis : Hashes) where
  abbrev pub input_of : String → CastVoteRequest → CastVoteInput
  input_of id r = record { poll_id = id; option_id = r.option_id; voter_token = r.voter_token }

  cast_valid :
      Faults
      → String
      → String
      → CastVoteRequest
      → Db ids mongo redis
      → Outcome PollResults × Db ids mongo redis
  unfolding answer
  cast_valid faults now id r db =
      let (result, db') = cast ids mongo redis faults now (input_of id r) db in (answer result, db')

  -- `Cast` of the controller.
  unfoldable pub handle :
      Faults
      → String
      → String
      → Option CastVoteRequest
      → Db ids mongo redis
      → Outcome PollResults × Db ids mongo redis
  unfolding cast_valid invalid
  handle faults now id none db = (respond_validation_error "Invalid request body", db)
  handle faults now id (some r) db =
      if not (is_bound r)
      then (respond_validation_error "Invalid request body", db)
      else elim (invalid (trimmed r)) [
        | some message ↦ (respond_validation_error message, db)
        | none ↦ cast_valid faults now id (trimmed r) db
      ]
