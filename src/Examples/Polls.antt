-- ===== src/Examples/Polls.antt =====
-- Calls of the poll service, the results of a share code, and a voter token on the server.
use hcl_assignment.Common.{
  ℕ, String, true, false, ◌≢◌, ◌==◌, eq_iff, none, some, List, [], ◌∷◌, ◌≡◌, refl, truthy, arith,
}
use hcl_assignment.Services.Model.{active, closed}
use hcl_assignment.Services.Api
use hcl_assignment.Services.Api.{receive}
use hcl_assignment.Pages.PublicPoll
use hcl_assignment.Pages.Results
use hcl_assignment.Utils.Token.{generate_token}
use hcl_assignment.Server.Model.{Poll, Result, ok, err, other_error, find_poll, find_by_id}
use hcl_assignment.Server.Votes.{Db}
use hcl_assignment.Server.Votes.Counted.{calm}
use hcl_assignment.Server.Polls.{
  public_results, owned, change_owned, CreatePollInput, create, validate_options,
}
use hcl_assignment.Server.Polls.Calls.{Op, creates, closes, deletes, run_op}
use hcl_assignment.Server.Sharing.{get_public, public_data}
use hcl_assignment.Server.Sharing.Lasts.{ByOthers, run_calls, get_public-create}
use hcl_assignment.Server.Polls.Owned.{Respects, run_op-Respects}
use hcl_assignment.Server.Polls.Public.{public_results-none}
use hcl_assignment.Server.Text.{trim_space}
use hcl_assignment.Server.Casting.{trimmed, invalid}
use hcl_assignment.Server.Casting.Tokens.{invalid-generate_token}
use hcl_assignment.Examples.Databases.{votes_in_memory, hashes_in_memory, two_ids}

-- The poll of the user "p2".
abbrev poll : Poll
poll = record {
  id = 1;
  creator_id = 2;
  title = "Which one?";
  description = "";
  options = record { id = "a"; text = "Go" } ∷ record { id = "b"; text = "Rust" } ∷ [];
  share_code = "abc";
  status = active;
  created_at = "t";
}

abbrev db : Db two_ids votes_in_memory hashes_in_memory
db = record { polls = poll ∷ []; votes = []; counters = [] }

abbrev closing : Op two_ids votes_in_memory hashes_in_memory
closing = closes calm "p1"

-- the creator's closing, and another user's
closed_by_owner :
    find_poll 1 (run_op two_ids votes_in_memory hashes_in_memory "p2" closing db).polls
    ≡ some (record poll { status = closed })
unfolding run_op change_owned owned find_by_id
closed_by_owner = refl

kept_from_other : run_op two_ids votes_in_memory hashes_in_memory "p1" closing db ≡ db
unfolding run_op change_owned owned find_by_id
kept_from_other = refl

run_op-Respects_example :
    Respects two_ids votes_in_memory hashes_in_memory "p2" poll
      (find_poll 1 (run_op two_ids votes_in_memory hashes_in_memory "p2" closing db).polls)
run_op-Respects_example =
    run_op-Respects two_ids votes_in_memory hashes_in_memory "p2" closing db poll refl

abbrev results : Results.State
results = record { poll = none; initial_results = none; is_loading = true }

public_results-none_example :
    let answer =
      receive (public_results two_ids votes_in_memory hashes_in_memory calm "t" "abc" db) in
    ((PublicPoll.load_settled (Api.ok none) answer PublicPoll.init).initial_results ≡ none)
    × ((Results.load_settled (Api.ok none) answer results).initial_results ≡ none)
public_results-none_example =
    public_results-none two_ids votes_in_memory hashes_in_memory calm "t" "abc" db none
      PublicPoll.init results refl

abbrev bytes : List ℕ
bytes = 0 ∷ 17 ∷ 34 ∷ 51 ∷ 68 ∷ 85 ∷ 102 ∷ 119 ∷ 136 ∷ 153 ∷ 170 ∷ 187 ∷ 204 ∷ 221 ∷ 238 ∷ 255 ∷ []

given : truthy (trim_space " a ") ≡ true
unfolding trim_space
given = refl

invalid-generate_token_example :
    let r = trimmed (record { option_id = " a "; voter_token = generate_token bytes }) in
    (invalid r ≡ none) × (r.voter_token ≡ generate_token bytes)
invalid-generate_token_example = invalid-generate_token " a " bytes (omega arith) refl given

abbrev input : CreatePollInput
input = record { title = poll.title; description = ""; options = poll.options; creator_id = "p2" }

abbrev empty : Db two_ids votes_in_memory hashes_in_memory
empty = record { polls = []; votes = []; counters = [] }

abbrev new_poll :
    Db two_ids votes_in_memory hashes_in_memory
    → Result Poll × Db two_ids votes_in_memory hashes_in_memory
new_poll = create two_ids votes_in_memory hashes_in_memory false 1 "abc" "t" input

-- A creation, and one whose share code is taken.
new_poll_ok :
    ((new_poll empty).0 ≡ ok poll)
    × ((new_poll (record empty { polls = record poll { id = 5 } ∷ [] })).0 ≡ err other_error)
unfolding create validate_options
new_poll_ok = (refl, refl)

-- What the user "p1" tries.
abbrev attempts : List (String × Op two_ids votes_in_memory hashes_in_memory)
attempts =
    ("p1", closing) ∷ ("p1", deletes calm "p1") ∷ ("p1", creates false 2 "xyz" "u" input) ∷ []

differ : (s t : String) → (s == t) ≡ false → s ≢ t
differ s t h e = ground (arith, h, eq_iff s t)

attempts-ByOthers : ByOthers two_ids votes_in_memory hashes_in_memory poll attempts
attempts-ByOthers = (differ "p1" "p2" refl, (differ "p1" "p2" refl, (differ "p1" "p2" refl, tt)))

get_public-create_example :
    let later = run_calls two_ids votes_in_memory hashes_in_memory attempts (new_poll empty).1 in
    let shown =
      PublicPoll.load_settled
        (receive (get_public two_ids votes_in_memory hashes_in_memory false "abc" later))
        (Api.ok none)
        PublicPoll.init in
    (shown.poll ≡ some (public_data two_ids poll))
    × (shown.load_error ≡ none)
    × (shown.is_loading ≡ false)
get_public-create_example =
    get_public-create two_ids votes_in_memory hashes_in_memory false 1 "abc" "t" input poll empty
      attempts (Api.ok none) new_poll_ok.0 attempts-ByOthers
