-- ===== src/Pages/Live.antt =====
-- What the three pages with live results share: loading a poll with its results by `Promise.all`, and
-- the effects of `useRealtimePoll(poll?.id ?? null, initialResults)` after a render.
pub mod Follows
use hcl_assignment.Common.{
  String, Bool, true, false, Option, none, some, ◌==◌, or_else, if◌then◌else◌,
}
use hcl_assignment.Services.Model.{Poll, PollResults}
use hcl_assignment.Services.Api.{Result, ok, err}
use hcl_assignment.Realtime.{Hook, step, changed, initial}

-- `promise.catch(() => null)`
abbrev pub or_null : {T : Type 0} → Result (Option T) → Option T
or_null (ok value) = value
or_null (err e) = none

-- `poll?.id ?? null`
abbrev pub id_of : Option Poll → Option String
id_of none = none
id_of (some p) = some p.id

abbrev pub same_id : Option String → Option String → Bool
same_id none none = true
same_id (some a) (some b) = a == b
same_id _ _ = false

-- The effect on `pollId` runs if the identity has changed, then the one on `initial` if the page has
-- set the initial results.
unfoldable pub run_initial : Option (Option PollResults) → Hook → Hook
run_initial none h = h
run_initial (some value) h = step (initial value) h

unfoldable pub follow : Option String → Option String → Option (Option PollResults) → Hook → Hook
unfolding run_initial
follow old new set h = run_initial set (if same_id old new then h else step (changed new) h)

-- `results || initialResults`
abbrev pub live_results : Option PollResults → Option PollResults → Option PollResults
live_results results initial_results = or_else results initial_results
