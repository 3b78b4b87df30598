-- ===== src/Services/Poll.antt =====
-- services/poll.ts: the request of each method. All of them return the answer of `api` as it is.
pub mod Requests
use hcl_assignment.Common.{String, Bool, true, false, Option, List, [], ◌∷◌, ◌⧺◌, ℕ}
use hcl_assignment.Services.Model.{CreatePollData}
use hcl_assignment.Services.Storage.{Storage}
use hcl_assignment.Services.Api.{
  Request, Result, object, poll_body, build, post_options, get_options, patch_options,
  delete_options,
}
use hcl_assignment.Utils.Token.{get_voter_token}

module _ (api_url : String) (items : Storage) where
  unfoldable pub create : CreatePollData → Request
  create poll = build api_url items "/polls" (post_options (poll_body poll) true)

  unfoldable pub list : Request
  list = build api_url items "/polls" (get_options true)

  unfoldable pub get_by_id : String → Request
  get_by_id id = build api_url items ("/polls/" ⧺ id) (get_options true)

  -- the fields that are given, in the order of the caller
  unfoldable pub update : String → List (String × String) → Request
  update id fields = build api_url items ("/polls/" ⧺ id) (patch_options (object fields) true)

  unfoldable pub delete : String → Request
  delete id = build api_url items ("/polls/" ⧺ id) (delete_options true)

  unfoldable pub close : String → Request
  close id = build api_url items ("/polls/" ⧺ id ⧺ "/close") (post_options (object []) true)

  unfoldable pub get_results : String → Request
  get_results id = build api_url items ("/polls/" ⧺ id ⧺ "/results") (get_options true)

  unfoldable pub get_public : String → Request
  get_public share_code = build api_url items ("/public/polls/" ⧺ share_code) (get_options false)

  unfoldable pub get_public_results : String → Request
  get_public_results share_code =
      build api_url items ("/public/polls/" ⧺ share_code ⧺ "/results") (get_options false)

-- The voter token is read, or made and stored, before the request is built.
unfoldable pub vote : String → List ℕ → Storage → String → String → Request × Storage
unfolding get_voter_token
vote api_url bytes items poll_id option_id =
    let (voter_token, items') = get_voter_token bytes items in
    (
      build api_url items' ("/polls/" ⧺ poll_id ⧺ "/votes") (
          post_options (object (("optionId", option_id) ∷ ("voterToken", voter_token) ∷ [])) false),
      items',
    )
