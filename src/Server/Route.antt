-- ===== src/Server/Route.antt =====
-- routes/routes.go: the route of a vote, behind middleware/auth.go.
use hcl_assignment.Common.{ℕ, String, Option}
use hcl_assignment.Services.Model.{PollResults}
use hcl_assignment.Services.Api.{Outcome}
use hcl_assignment.Server.Model.{Ids, respond_unauthorized}
use hcl_assignment.Server.Votes.{Collection, Hashes, Db, Faults}
use hcl_assignment.Server.Accounts.{Tokens, authorize}
use hcl_assignment.Server.Casting.{CastVoteRequest, handle}

module _ (ids : Ids) (mongo : Collection) (redis : Hashes) where
  -- The route of `Cast` for a poll's id, in the group behind AuthRequired: `header` is the Authorization
  -- of the request, and `seen_at` the time of its reading.
  unfoldable pub vote_route :
      Tokens
      → ℕ
      → Option String
      → Faults
      → String
      → String
      → Option CastVoteRequest
      → Db ids mongo redis
      → Outcome PollResults × Db ids mongo redis
  vote_route tokens seen_at header faults now id body db =
      authorize tokens seen_at header (λ message. (respond_unauthorized message, db))
        (λ user. handle ids mongo redis faults now id body db)
