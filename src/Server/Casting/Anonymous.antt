-- ===== src/Server/Casting/Anonymous.antt =====
-- The vote that the browser sends, at the route of the server.
use hcl_assignment.Common.{ℕ, String, false, Option, List, ◌≡◌, refl, none}
use hcl_assignment.Services.Storage.{Storage}
use hcl_assignment.Services.Api.{err, api_error, get_header, receive}
use hcl_assignment.Services.Poll.{vote}
use hcl_assignment.Services.Poll.Requests.{vote-anonymous}
use hcl_assignment.Pages.PublicPoll.{State, vote_settled}
use hcl_assignment.Server.Model.{Ids}
use hcl_assignment.Server.Votes.{Collection, Hashes, Db, Faults}
use hcl_assignment.Server.Accounts.{Tokens, authorize}
use hcl_assignment.Server.Route.{vote_route}
use hcl_assignment.Server.Casting.{CastVoteRequest}
use hcl_assignment.Server.Casting.Marks.{answered}

module _ (ids : Ids) (mongo : Collection) (redis : Hashes) where
  unauthorized-route :
      (tokens : Tokens) (seen_at : ℕ) (faults : Faults) (now id : String)
      (body : Option CastVoteRequest) (db : Db ids mongo redis) (s : State)
      → let (outcome, db') = vote_route ids mongo redis tokens seen_at none faults now id body db in
        (receive outcome ≡ err (api_error "Authorization header required" "UNAUTHORIZED" 401))
        × (db' ≡ db)
        × ((answered outcome s).is_voting ≡ false)
        × ((answered outcome s).has_voted ≡ s.has_voted)
  unfolding vote_route authorize receive vote_settled
  unauthorized-route tokens seen_at faults now id body db s = (refl, refl, refl, refl)

  -- No vote of the browser is counted: its request carries no Authorization, even where the storage holds
  -- a token, so the route that requires one refuses it with status 401, whatever the poll, the body and
  -- the databases. Nothing is stored, and the page does not take the vote for cast.
  pub vote_route-vote :
      (api_url : String) (bytes : List ℕ) (items : Storage) (poll_id option_id : String)
      (tokens : Tokens) (seen_at : ℕ) (faults : Faults) (now id : String)
      (body : Option CastVoteRequest) (db : Db ids mongo redis) (s : State)
      → let header =
          get_header "Authorization" (vote api_url bytes items poll_id option_id).0.headers in
        let (outcome, db') =
          vote_route ids mongo redis tokens seen_at header faults now id body db in
        (receive outcome ≡ err (api_error "Authorization header required" "UNAUTHORIZED" 401))
        × (db' ≡ db)
        × ((answered outcome s).is_voting ≡ false)
        × ((answered outcome s).has_voted ≡ s.has_voted)
  vote_route-vote api_url bytes items poll_id option_id tokens seen_at faults now id body db s =
      let (plain, address, content) = vote-anonymous api_url bytes items poll_id option_id in
      rw plain (unauthorized-route tokens seen_at faults now id body db s)
