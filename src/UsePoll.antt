-- ===== src/UsePoll.antt =====
-- hooks/usePoll.ts: a poll with its results, loaded and loaded again.
use hcl_assignment.Common.{
  String, Bool, true, false, Option, none, some, List, [], ◌∷◌, truthy, if◌then◌else◌,
}
use hcl_assignment.Services.Model.{Poll, PollResults}
use hcl_assignment.Services.Api.{Result, ok, err, message_or}
use hcl_assignment.Effects.{Effect, call, load_public}
use hcl_assignment.Pages.Live.{or_null}

pub record State : Type 0 where
  pub poll : Option Poll
  pub results : Option PollResults
  pub is_loading : Bool
  pub error : Option String

unfoldable pub init : State
init = record { poll = none; results = none; is_loading = true; error = none }

fetch_code : String → State → State × List Effect
fetch_code id s =
    if truthy id
    then (record s { is_loading = true; error = none }, call (load_public id) ∷ [])
    else (s, [])

-- `fetchPoll` up to the calls.
unfoldable pub fetch_poll : Option String → State → State × List Effect
unfolding fetch_code
fetch_poll none s = (s, [])
fetch_poll (some id) s = fetch_code id s

-- `fetchPoll` from the answers.
unfoldable pub fetch_settled : Result (Option Poll) → Result (Option PollResults) → State → State
fetch_settled (ok poll) results s = record s {
  poll = poll;
  results = or_null results;
  is_loading = false;
}
fetch_settled (err e) results s = record s {
  error = some (message_or "Failed to load poll" e);
  is_loading = false;
}
