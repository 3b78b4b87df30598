-- ===== src/Server/Polls/Public.antt =====
-- The results of the public pages.
use hcl_assignment.Common.{String, Bool, Option, none, ◌≡◌, refl}
use hcl_assignment.Services.Model.{PollResults}
use hcl_assignment.Services.Model
use hcl_assignment.Services.Api.{ok, receive}
use hcl_assignment.Pages.PublicPoll
use hcl_assignment.Pages.Results
use hcl_assignment.Server.Model.{Ids, err, other_error, find_by_id}
use hcl_assignment.Server.Votes.{Collection, Hashes, Db, Faults, get_results}
use hcl_assignment.Server.Polls.{public_results}

module _ (ids : Ids) (mongo : Collection) (redis : Hashes) where
  find_by_id-err :
      (fails : Bool) (code : String) (db : Db ids mongo redis)
      → ids.from_hex code ≡ none
      → find_by_id ids fails code db.polls ≡ err other_error
  unfolding find_by_id
  find_by_id-err fails code db e = rw (e, find_by_id) refl

  get_results-err :
      (faults : Faults) (now code : String) (db : Db ids mongo redis)
      → ids.from_hex code ≡ none
      → get_results ids mongo redis faults now code db ≡ err other_error
  unfolding get_results
  get_results-err faults now code db e = rw (find_by_id-err faults.find code db e) refl

  -- Of a share code that is no object id, such as one of 8 characters, the server finds no results,
  -- whatever the databases hold: both public pages come up without initial results.
  pub public_results-none :
      (faults : Faults) (now code : String) (db : Db ids mongo redis) (poll : Option Model.Poll)
      (s : PublicPoll.State) (t : Results.State)
      → ids.from_hex code ≡ none
      → let answer = receive (public_results ids mongo redis faults now code db) in
        ((PublicPoll.load_settled (ok poll) answer s).initial_results ≡ none)
        × ((Results.load_settled (ok poll) answer t).initial_results ≡ none)
  unfolding public_results receive PublicPoll.load_settled Results.load_settled
  public_results-none faults now code db poll s t e =
      rw (get_results-err faults now code db e) (refl, refl)
