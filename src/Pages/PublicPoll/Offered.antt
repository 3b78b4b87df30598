-- ===== src/Pages/PublicPoll/Offered.antt =====
-- When the page offers to submit a vote.
use hcl_assignment.Common.{
  String, Bool, true, false, not, ◌&&◌, Option, none, some, List, ◌≡◌, refl, inl, inr, Option-cases,
  get_or, truthy, arith,
}
use hcl_assignment.Services.Model.{Poll, PollOption, PollResults, Status, active, closed, is_active}
use hcl_assignment.Services.Api.{Result, ok, err}
use hcl_assignment.Realtime.{WsStatus, Hook}
use hcl_assignment.Components.Offers.{offers-live_indicator, offers-chart_of}
use hcl_assignment.Ui.{offers}
use hcl_assignment.Ui.Offers.{offers-each-none}
use hcl_assignment.Pages.Live.{live_results}
use hcl_assignment.Pages.PublicPoll.{
  State, Screen, Action, vote, voted, step, vote_failed, has_code, option_choice, shown_results,
  results_part, voting_part, status_badge, results_link, poll_view, render,
}
use hcl_assignment.Pages.PublicPoll.Voting.{run, run-has_voted}

abbrev pub is_vote : Action → Bool
is_vote vote = true
is_vote _ = false

offers-shown_results :
    (options : List PollOption) (r : Option PollResults)
    → offers is_vote (shown_results options r) ≡ false
unfolding shown_results
offers-shown_results options none = unfold offers in refl
offers-shown_results options (some r) = offers-chart_of is_vote options r

offers-status_badge : (status : Status) → offers is_vote (status_badge status) ≡ false
unfolding offers status_badge
offers-status_badge active = refl
offers-status_badge closed = refl

offers-results_link : (code : Option String) → offers is_vote (results_link code) ≡ false
unfolding offers results_link
offers-results_link none = refl
offers-results_link (some code) = ground arith

offers-option_choice :
    (selected : String) (o : PollOption) → offers is_vote (option_choice selected o) ≡ false
unfolding offers option_choice
offers-option_choice selected o = ground arith

offers-results_part :
    (p : Poll) (has_voted : Bool) (live : Option PollResults)
    → offers is_vote (results_part p has_voted live) ≡ false
unfolding offers results_part
offers-results_part p has_voted live = ground (arith, offers-shown_results p.options live)

offers-voting_part :
    (p : Poll) (s : State)
    → offers is_vote (voting_part p s) ≡ (truthy s.selected_option && not s.is_voting)
unfolding offers voting_part
offers-voting_part p s = ground (
  arith,
  offers-each-none is_vote (option_choice s.selected_option) p.options
      (offers-option_choice s.selected_option),
)

-- A vote on the poll can be submitted in this state of the page.
abbrev pub can_vote : State → Poll → Bool
can_vote s p =
    not s.has_voted && (is_active p.status && (truthy s.selected_option && not s.is_voting))

offers-poll_view :
    (code : Option String) (p : Poll) (s : State) (live : Option PollResults) (status : WsStatus)
    → offers is_vote (poll_view code p s live status) ≡ can_vote s p
unfolding offers poll_view
offers-poll_view code p s live status = ground (
  arith,
  offers-status_badge p.status,
  offers-live_indicator is_vote status,
  offers-results_link code,
  offers-results_part p s.has_voted live,
  offers-voting_part p s,
)

abbrev pub shows : State → Poll → Bool
shows s p = not s.is_loading && not (truthy (get_or s.load_error ""))

-- The page offers to submit a vote exactly when it has loaded, without an error, a poll that is
-- active, an option is selected, no vote is being submitted and none has been cast.
pub offers_vote-render :
    (code : Option String) (p : Poll) (s : Screen)
    → s.page.poll ≡ some p
    → offers is_vote (render code s) ≡ (shows s.page p && can_vote s.page p)
unfolding offers render
offers_vote-render code p s e = rw e (
    ground (
      arith,
      offers-poll_view code p s.page (live_results s.hook.results s.page.initial_results)
          s.hook.status,
    ))

pub offers-no_poll :
    (code : Option String) (s : Screen)
    → s.page.poll ≡ none
    → offers is_vote (render code s) ≡ false
unfolding offers render
offers-no_poll code s e = rw e (ground arith)

offers-voted :
    (code : Option String) (s : Screen)
    → s.page.has_voted ≡ true
    → offers is_vote (render code s) ≡ false
offers-voted code s h = elim (Option-cases s.page.poll) [
  | inl e ↦ offers-no_poll code s e
  | inr (p, e) ↦ ground (arith, offers_vote-render code p s e)
]

-- An answer to a vote that accepts it, or refuses it with the code ALREADY_VOTED.
abbrev pub is_counted : Result (Option PollResults) → Bool
is_counted (ok result) = true
is_counted (err e) = has_code "ALREADY_VOTED" e

step-is_counted :
    (answer : Result (Option PollResults)) (s : State)
    → is_counted answer ≡ true
    → (step (voted answer) s).0.has_voted ≡ true
unfolding step vote_failed
step-is_counted (ok result) s h = refl
step-is_counted (err e) s h = rw h refl

-- Once the server has accepted a vote, or refused it as a second one with the code ALREADY_VOTED, no
-- later actions of the page, further answers of the server included, bring the offer to vote back,
-- whatever the state of the page was and that of the hook is.
pub run-offers_no_vote :
    (code : Option String) (actions : List Action) (answer : Result (Option PollResults))
    (s : State) (h : Hook)
    → is_counted answer ≡ true
    → offers is_vote
        (render code (record { page = run actions (step (voted answer) s).0; hook = h }))
      ≡ false
run-offers_no_vote code actions answer s h counted =
    offers-voted code (record { page = run actions (step (voted answer) s).0; hook = h })
      (run-has_voted actions (step (voted answer) s).0 (step-is_counted answer s counted))
