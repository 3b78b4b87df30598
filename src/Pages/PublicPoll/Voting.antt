-- ===== src/Pages/PublicPoll/Voting.antt =====
-- What a vote does to the page and its hook.
use hcl_assignment.Common.{true, false, Option, none, some, List, [], ◌∷◌, ◌≡◌, refl, arith}
use hcl_assignment.Services.Model.{Poll, PollResults}
use hcl_assignment.Services.Api.{ok, err, Failure}
use hcl_assignment.Realtime.{Hook, Event, changed, initial}
use hcl_assignment.Realtime
use hcl_assignment.Pages.Live.{follow, live_results}
use hcl_assignment.Pages.PublicPoll.{
  State, vote_for, vote_failed, Action, loaded, select, vote, voted, step, Screen, act,
}

-- When the server accepts a vote, the page shows the results of its answer, whatever the socket had
-- brought before, and the vote counts as cast.
pub voted-live_results :
    (r : PollResults) (s : Screen)
    → let s' = act (voted (ok (some r))) s in
      (live_results s'.hook.results s'.page.initial_results ≡ some r)
      × (s'.page.has_voted ≡ true)
      × (s'.page.is_voting ≡ false)
      × (s'.page.poll ≡ s.page.poll)
unfolding act step follow Realtime.step
voted-live_results r s = (refl, refl, refl, refl)

vote_failed-has_voted :
    (e : Failure) (s : State) → s.has_voted ≡ true → (vote_failed e s).0.has_voted ≡ true
unfolding vote_failed
vote_failed-has_voted e s h = ground arith

handle_vote-has_voted : (p : Option Poll) (s : State) → (vote_for p s).0.has_voted ≡ s.has_voted
unfolding vote_for
handle_vote-has_voted none s = refl
handle_vote-has_voted (some p) s = ground arith

step-has_voted : (a : Action) (s : State) → s.has_voted ≡ true → (step a s).0.has_voted ≡ true
unfolding step
step-has_voted (loaded (ok poll) results) s h = h
step-has_voted (loaded (err e) results) s h = h
step-has_voted (select id) s h = h
step-has_voted vote s h = rw (handle_vote-has_voted s.poll s) h
step-has_voted (voted (ok result)) s h = refl
step-has_voted (voted (err e)) s h = vote_failed-has_voted e s h

pub run : List Action → State → State
run [] s = s
run (a ∷ actions) s = run actions (step a s).0

pub run-has_voted :
    (actions : List Action) (s : State) → s.has_voted ≡ true → (run actions s).has_voted ≡ true
unfolding run
run-has_voted [] s h = h
run-has_voted (a ∷ actions) s h = run-has_voted actions (step a s).0 (step-has_voted a s h)
