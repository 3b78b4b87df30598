-- ===== src/Services/Poll/Requests.antt =====
-- What the requests of services/poll.ts carry.
use hcl_assignment.Common.{ℕ, String, true, none, List, [], ◌∷◌, ◌≡◌, refl, ◌⧺◌}
use hcl_assignment.Services.Storage.{Storage, get_item}
use hcl_assignment.Services.Api.{object, get_header, build}
use hcl_assignment.Services.Api.Answers.{bearer, build-authorization}
use hcl_assignment.Utils.Constants.{auth_token_key}
use hcl_assignment.Utils.Token.{get_voter_token}
use hcl_assignment.Services.Poll.{list, get_by_id, delete, close, get_results, vote}

-- A vote is posted to the poll's `votes` with the option and the voter token of the browser, and
-- never carries an Authorization header, whatever the storage holds.
pub vote-anonymous :
    (api_url : String) (bytes : List ℕ) (items : Storage) (poll_id option_id : String)
    → let request = (vote api_url bytes items poll_id option_id).0 in
      (get_header "Authorization" request.headers ≡ none)
      × (request.url ≡ api_url ⧺ "/polls/" ⧺ poll_id ⧺ "/votes")
      × (request.body
          ≡ object (("optionId", option_id) ∷ ("voterToken", (get_voter_token bytes items).0) ∷ []))
unfolding vote build get_header
vote-anonymous api_url bytes items poll_id option_id = (refl, refl, refl)

module _ (api_url : String) (items : Storage) where
  -- Every request of the creator's methods carries the stored token, if there is one that is not
  -- empty.
  pub creator_requests-authorization :
      (id : String)
      → let token = bearer true (get_item auth_token_key items) in
        (get_header "Authorization" (list api_url items).headers ≡ token)
        × (get_header "Authorization" (get_by_id api_url items id).headers ≡ token)
        × (get_header "Authorization" (delete api_url items id).headers ≡ token)
        × (get_header "Authorization" (close api_url items id).headers ≡ token)
        × (get_header "Authorization" (get_results api_url items id).headers ≡ token)
  unfolding list get_by_id delete close get_results
  creator_requests-authorization id = (
    build-authorization api_url items _ _ refl,
    build-authorization api_url items _ _ refl,
    build-authorization api_url items _ _ refl,
    build-authorization api_url items _ _ refl,
    build-authorization api_url items _ _ refl,
  )
