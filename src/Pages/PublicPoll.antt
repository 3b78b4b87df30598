-- ===== src/Pages/PublicPoll.antt =====
-- pages/PublicPoll.tsx
pub mod Voting
pub mod Offered
pub mod Drawn
pub mod Coupled
pub mod Votes
use hcl_assignment.Common.{
  ℕ, String, Bool, true, false, not, ◌&&◌, ◌||◌, Option, none, some, List, [], ◌∷◌, ◌⧺◌, ◌==◌,
  truthy, or_text, get_or, is_some, if◌then◌else◌,
}
use hcl_assignment.Services.Model.{
  Poll, PollOption, PollResults, Status, active, closed, is_active, is_closed,
}
use hcl_assignment.Services.Api.{Result, ok, err, Failure, message_or, code_of}
use hcl_assignment.Effects.{
  Effect, call, load_public, cast_vote, toast_success, toast_error, toast_info,
}
use hcl_assignment.Realtime.{WsStatus, Hook}
use hcl_assignment.Components.Status.{live_indicator}
use hcl_assignment.Components.Chart.{chart_of}
use hcl_assignment.Pages.Live.{or_null, id_of, follow, live_results}
use hcl_assignment.Ui.{
  View, el, text, ◌⊕◌, nothing, icon, when, each, prop, disabled, on_click, on_change,
}

pub record State : Type 0 where
  pub poll : Option Poll
  pub initial_results : Option PollResults
  pub is_loading : Bool
  pub load_error : Option String
  pub selected_option : String
  pub is_voting : Bool
  pub has_voted : Bool

unfoldable pub init : State
init = record {
  poll = none;
  initial_results = none;
  is_loading = true;
  load_error = none;
  selected_option = "";
  is_voting = false;
  has_voted = false;
}

abbrev load_code : String → List Effect
load_code code = if truthy code then call (load_public code) ∷ [] else []

-- The effect on `shareCode`.
unfoldable pub load : Option String → List Effect
load none = []
load (some code) = load_code code

unfoldable pub load_settled : Result (Option Poll) → Result (Option PollResults) → State → State
load_settled (ok poll) results s = record s {
  poll = poll;
  initial_results = or_null results;
  is_loading = false;
}
load_settled (err e) results s = record s {
  load_error = some (message_or "Poll not found" e);
  is_loading = false;
}

vote_for : Option Poll → State → State × List Effect
vote_for none s = (s, [])
vote_for (some p) s =
    if truthy s.selected_option
    then (record s { is_voting = true }, call (cast_vote p.id s.selected_option) ∷ [])
    else (s, [])

-- handleVote up to the call.
unfoldable pub handle_vote : State → State × List Effect
unfolding vote_for
handle_vote s = vote_for s.poll s

abbrev pub has_code : String → Failure → Bool
has_code code e = elim (code_of e) [ none ↦ false | some c ↦ c == code ]

-- `p ? { ...p, status: "closed" } : p`
abbrev close_locally : Option Poll → Option Poll
close_locally none = none
close_locally (some p) = some (record p { status = closed })

vote_failed : Failure → State → State × List Effect
unfolding code_of message_or
vote_failed e s =
    if has_code "ALREADY_VOTED" e
    then (
      record s { has_voted = true; is_voting = false },
      toast_info "You've already voted on this poll" ∷ [],
    )
    else if has_code "POLL_CLOSED" e
    then (
      record s { poll = close_locally s.poll; is_voting = false },
      toast_error "This poll is closed" ∷ [],
    )
    else (
      record s { is_voting = false },
      toast_error (or_text (message_or "" e) "Failed to submit vote") ∷ [],
    )

-- handleVote from the answer of `pollService.vote`.
unfoldable pub vote_settled : Result (Option PollResults) → State → State × List Effect
unfolding vote_failed
vote_settled (ok result) s = (
  record s { initial_results = result; has_voted = true; is_voting = false },
  toast_success "Vote submitted!" ∷ [],
)
vote_settled (err e) s = vote_failed e s

pub data Action : Type 0 where
  loaded : Result (Option Poll) → Result (Option PollResults) → Action
  select : String → Action
  vote : Action
  voted : Result (Option PollResults) → Action

unfoldable pub step : Action → State → State × List Effect
unfolding load_settled handle_vote vote_settled
step (loaded poll results) s = (load_settled poll results s, [])
step (select id) s = (record s { selected_option = id }, [])
step vote s = handle_vote s
step (voted answer) s = vote_settled answer s

-- The initial results that an action sets, if it sets them.
abbrev pub sets_initial : Action → Option (Option PollResults)
sets_initial (loaded (ok poll) results) = some (or_null results)
sets_initial (voted (ok result)) = some result
sets_initial _ = none

-- The page with its hook.
pub record Screen : Type 0 where
  pub page : State
  pub hook : Hook

unfoldable pub act : Action → Screen → Screen
act a s =
    let page = (step a s.page).0 in
    record {
      page = page;
      hook = follow (id_of s.page.poll) (id_of page.poll) (sets_initial a) s.hook;
    }

-- The three skeleton rows, and what a poll that cannot be shown looks like.
loading_view : View Action
loading_view = el "div" [] (
    el "Card" [] (
      el "CardContent" [] (
        el "Skeleton" [] nothing
        ⊕ el "Skeleton" [] nothing
        ⊕ each {B = String} (λ i. el "Skeleton" [] nothing) ("1" ∷ "2" ∷ "3" ∷ []))))

missing_view : String → View Action
missing_view message = el "div" [] (
    el "Card" [] (
      el "CardContent" []
        (icon "AlertCircle" ⊕ el "h2" [] (text "Poll not found") ⊕ el "p" [] (text message))))

option_choice : String → PollOption → View Action
option_choice selected o =
    el "div"
      (prop "key" o.id
        ∷ prop "class" (
            if selected == o.id
            then "border-primary bg-primary/5 shadow-sm"
            else "border-border hover:border-muted-foreground/30 hover:bg-muted/30")
        ∷ on_click (select o.id)
        ∷ [])
      (el "RadioGroupItem" (prop "value" o.id ∷ prop "id" o.id ∷ []) nothing
        ⊕ el "Label" (prop "htmlFor" o.id ∷ []) (text o.text))

shown_results : List PollOption → Option PollResults → View Action
shown_results options none = nothing
shown_results options (some r) = chart_of options r

results_part : Poll → Bool → Option PollResults → View Action
unfolding shown_results
results_part p has_voted live = el "div" [] (
    when has_voted (
      el "div" [] (
        icon "CheckCircle2"
        ⊕ el "div" [] (
            el "p" [] (text "Vote submitted")
            ⊕ el "p" [] (text "Your response has been recorded."))))
    ⊕ shown_results p.options live)

voting_part : Poll → State → View Action
unfolding option_choice
voting_part p s = el "div" [] (
    el "RadioGroup" (prop "value" s.selected_option ∷ on_change select ∷ [])
      (each (option_choice s.selected_option) p.options)
    ⊕ el "Button"
        (prop "size" "lg"
          ∷ disabled (not (truthy s.selected_option) || s.is_voting)
          ∷ on_click vote
          ∷ [])
        (text (if s.is_voting then "Submitting..." else "Submit Vote")))

status_badge : Status → View Action
status_badge active = el "Badge" (prop "variant" "live" ∷ []) (text "● Live Poll")
status_badge closed = el "Badge" (prop "variant" "secondary" ∷ []) (text "Closed")

unfoldable pub results_link : Option String → View Action
results_link none = nothing
results_link (some code) = when (truthy code) (
    el "Link" (prop "to" ("/p/" ⧺ code ⧺ "/results") ∷ [])
      (icon "BarChart2" ⊕ text " Full Results"))

poll_view : Option String → Poll → State → Option PollResults → WsStatus → View Action
unfolding results_part voting_part status_badge results_link
poll_view share_code p s live status = el "div" [] (
    el "div" [] (
      el "Card" [] (
        el "CardHeader" [] (
          el "div" [] (
            el "div" [] (
              el "div" [] (status_badge p.status)
              ⊕ el "CardTitle" [] (text p.title)
              ⊕ when (truthy p.description) (el "CardDescription" [] (text p.description)))
            ⊕ live_indicator status))
        ⊕ el "CardContent" [] (
            if s.has_voted || is_closed p.status
            then results_part p s.has_voted live
            else voting_part p s))
      ⊕ el "div" []
          (el "span" [] (text "Results update live • PulsePoll") ⊕ results_link share_code)))

shown_poll : Option String → Option Poll → State → Option PollResults → WsStatus → View Action
unfolding missing_view poll_view
shown_poll share_code none s live status =
    missing_view (or_text (get_or s.load_error "") "This poll doesn't exist or is unavailable.")
shown_poll share_code (some p) s live status =
    if truthy (get_or s.load_error "")
    then missing_view (get_or s.load_error "")
    else poll_view share_code p s live status

unfoldable pub render : Option String → Screen → View Action
unfolding loading_view shown_poll
render share_code s =
    if s.page.is_loading
    then loading_view
    else shown_poll share_code s.page.poll s.page
        (live_results s.hook.results s.page.initial_results) s.hook.status
