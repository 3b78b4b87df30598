-- ===== src/Server/Casting/Marks.antt =====
-- What the voting page makes of the server's answer.
use hcl_assignment.Common.{
  ℕ, String, true, false, Option, none, some, ◌≡◌, ◌⊎◌, refl, inl, inr, Bool-cases, Option-cases,
  if◌then◌else◌,
}
use hcl_assignment.Services.Model.{PollResults}
use hcl_assignment.Services.Api.{Outcome, receive}
use hcl_assignment.Pages.PublicPoll.{State, vote_settled}
use hcl_assignment.Server.Model.{
  Ids, Result, ok, err, poll_not_found, poll_closed, unauthorized, option_not_found, already_voted,
  invalid_voter_token, other_error, too_few_options, too_many_options, duplicate_option,
  email_taken, invalid_credentials, user_not_found, respond_validation_error, respond_unauthorized,
}
use hcl_assignment.Server.Votes.{Collection, Hashes, Db, Faults, cast}
use hcl_assignment.Server.Votes.Recorded.{Recorded, says_voted, cast-Recorded}
use hcl_assignment.Server.Accounts.{Tokens}
use hcl_assignment.Server.Accounts.Guard.{authorize-cases}
use hcl_assignment.Server.Route.{vote_route}
use hcl_assignment.Server.Casting.{
  input_of, CastVoteRequest, trimmed, invalid, is_bound, answer, cast_valid, handle,
}

-- The page after an answer.
abbrev pub answered : Outcome PollResults → State → State
answered outcome s = (vote_settled (receive outcome) s).0

answered-marks :
    (result : Result PollResults) (s : State)
    → ((answered (answer result) s).is_voting ≡ false)
      × ((answered (answer result) s).has_voted ≡ (if says_voted result then true else s.has_voted))
unfolding answer receive vote_settled
answered-marks (ok event) s = (refl, refl)
answered-marks (err poll_not_found) s = (refl, refl)
answered-marks (err poll_closed) s = (refl, refl)
answered-marks (err unauthorized) s = (refl, refl)
answered-marks (err option_not_found) s = (refl, refl)
answered-marks (err already_voted) s = (refl, refl)
answered-marks (err invalid_voter_token) s = (refl, refl)
answered-marks (err too_few_options) s = (refl, refl)
answered-marks (err too_many_options) s = (refl, refl)
answered-marks (err duplicate_option) s = (refl, refl)
answered-marks (err email_taken) s = (refl, refl)
answered-marks (err invalid_credentials) s = (refl, refl)
answered-marks (err user_not_found) s = (refl, refl)
answered-marks (err other_error) s = (refl, refl)

module _ (ids : Ids) (mongo : Collection) (redis : Hashes) where
  -- The page before a vote, and after the answer to it.
  abbrev pub Marked : State → State → Type 0 → Type 0
  Marked s s' Stored =
      (s'.is_voting ≡ false) × ((s'.has_voted ≡ s.has_voted) ⊎ ((s'.has_voted ≡ true) × Stored))

  cast_valid-marks :
      (faults : Faults) (now id : String) (r : CastVoteRequest) (db : Db ids mongo redis)
      (s : State)
      → let (outcome, db') = cast_valid ids mongo redis faults now id r db in
        Marked s (answered outcome s) (Recorded ids mongo redis id r.voter_token db'.votes)
  unfolding cast_valid
  cast_valid-marks faults now id r db s =
      let input = input_of ids mongo redis id r in
      let result = (cast ids mongo redis faults now input db).0 in
      let (idle, marked) = answered-marks result s in
      elim (Bool-cases (says_voted result)) [
        | inl voted ↦ (
          idle,
          inr (rw voted at marked, cast-Recorded ids mongo redis faults now input db voted),
        )
        | inr other ↦ (idle, inl (rw other at marked))
      ]

  -- A request that is not understood, or not valid, is answered with an error of validation.
  invalid-marks :
      (message : String) (s : State) (Stored : Type 0)
      → Marked s (answered (respond_validation_error message) s) Stored
  unfolding receive vote_settled
  invalid-marks message s Stored = (refl, inl refl)

  abbrev pub token_of : Option CastVoteRequest → String
  token_of none = ""
  token_of (some r) = (trimmed r).voter_token

  handle-marks :
      (faults : Faults) (now id : String) (body : Option CastVoteRequest) (db : Db ids mongo redis)
      (s : State)
      → let (outcome, db') = handle ids mongo redis faults now id body db in
        Marked s (answered outcome s) (Recorded ids mongo redis id (token_of body) db'.votes)
  unfolding handle
  handle-marks faults now id none db s = invalid-marks "Invalid request body" s _
  handle-marks faults now id (some r) db s = elim (Bool-cases (is_bound r)) [
    | inr loose ↦ rw loose (invalid-marks "Invalid request body" s _)
    | inl bound ↦ elim (Option-cases (invalid (trimmed r))) [
      | inr (message, e) ↦ rw (bound, e) (invalid-marks message s _)
      | inl e ↦ rw (bound, e) (cast_valid-marks faults now id (trimmed r) db s)
    ]
  ]

  unauthorized-marks :
      (message : String) (s : State) (Stored : Type 0)
      → Marked s (answered (respond_unauthorized message) s) Stored
  unfolding receive vote_settled
  unauthorized-marks message s Stored = (refl, inl refl)

  -- Whatever the request's Authorization and its body, readable or not, the databases and their failures:
  -- the server's answer to a vote ends the voting page's wait, and either the page takes its vote for
  -- cast no more than before, or it takes it for cast and the collection has a vote of this poll with
  -- the token.
  pub vote_route-marks :
      (tokens : Tokens) (seen_at : ℕ) (header : Option String) (faults : Faults) (now id : String)
      (body : Option CastVoteRequest) (db : Db ids mongo redis) (s : State)
      → let (outcome, db') =
          vote_route ids mongo redis tokens seen_at header faults now id body db in
        let s' = answered outcome s in
        (s'.is_voting ≡ false)
        × ((s'.has_voted ≡ s.has_voted)
            ⊎ ((s'.has_voted ≡ true) × Recorded ids mongo redis id (token_of body) db'.votes))
  unfolding vote_route
  vote_route-marks tokens seen_at header faults now id body db s =
      elim (authorize-cases tokens seen_at (λ message. (respond_unauthorized message, db))
        (λ user. handle ids mongo redis faults now id body db) header) [
          | inl (message, refused) ↦ rw refused (unauthorized-marks message s _)
          | inr (user, passed) ↦ rw passed (handle-marks faults now id body db s)
        ]
