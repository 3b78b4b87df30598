-- ===== src/Pages/Results.antt =====
-- pages/Results.tsx. The page has no handlers but the load and the hook.
pub mod Shown
use hcl_assignment.Common.{
  String, Bool, true, false, Option, none, some, List, [], ◌∷◌, ◌⧺◌, truthy, get_or, if◌then◌else◌,
}
use hcl_assignment.Services.Model.{Poll, PollOption, PollResults, Status, active, closed, is_active}
use hcl_assignment.Services.Api.{Result, ok, err}
use hcl_assignment.Effects.{Effect, call, load_public}
use hcl_assignment.Realtime.{WsStatus, Hook}
use hcl_assignment.Utils.Constants.{share_url}
use hcl_assignment.Components.Status.{live_indicator}
use hcl_assignment.Components.Chart.{chart_of}
use hcl_assignment.Pages.Live.{or_null, id_of, follow, live_results}
use hcl_assignment.Ui.{View, el, text, ◌⊕◌, nothing, icon, when, each, prop, flag}

-- The page has nothing to click but links.
pub data Action : Type 0 where
  loaded : Result (Option Poll) → Result (Option PollResults) → Action

pub record State : Type 0 where
  pub poll : Option Poll
  pub initial_results : Option PollResults
  pub is_loading : Bool

unfoldable pub init : State
init = record { poll = none; initial_results = none; is_loading = true }

unfoldable pub load : Option String → List Effect
load none = []
load (some code) = if truthy code then call (load_public code) ∷ [] else []

-- `then`, `catch(() => {})` and `finally`.
unfoldable pub load_settled : Result (Option Poll) → Result (Option PollResults) → State → State
load_settled (ok poll) results s = record {
  poll = poll;
  initial_results = or_null results;
  is_loading = false;
}
load_settled (err e) results s = record s { is_loading = false }

abbrev pub sets_initial : Action → Option (Option PollResults)
sets_initial (loaded (ok poll) results) = some (or_null results)
sets_initial (loaded (err e) results) = none

pub record Screen : Type 0 where
  pub page : State
  pub hook : Hook

unfoldable pub act : Action → Screen → Screen
unfolding load_settled
act (loaded poll results) s =
    let page = load_settled poll results s.page in
    record {
      page = page;
      hook =
          follow (id_of s.page.poll) (id_of page.poll) (sets_initial (loaded poll results)) s.hook;
    }

loading_view : View Action
loading_view = el "div" [] (
    el "Card" [] (
      el "CardContent" [] (
        el "Skeleton" [] nothing
        ⊕ el "Skeleton" [] nothing
        ⊕ each {B = String} (λ i. el "Skeleton" [] nothing) ("1" ∷ "2" ∷ "3" ∷ []))))

missing_view : View Action
missing_view = el "div" [] (
    el "Card" [] (
      el "p" [] (text "Poll not found")
      ⊕ el "Button" (flag "asChild" ∷ []) (el "Link" (prop "to" "/" ∷ []) (text "Back to Home"))))

status_badge : Status → View Action
status_badge active = el "Badge" (prop "variant" "live" ∷ []) (text "● Live Results")
status_badge closed = el "Badge" (prop "variant" "secondary" ∷ []) (text "Final Results")

shown_results : List PollOption → Option PollResults → View Action
shown_results options none = el "p" [] (text "No votes yet")
shown_results options (some r) = chart_of options r

poll_view : String → String → Poll → Option PollResults → WsStatus → View Action
unfolding status_badge shown_results
poll_view origin share_code p live status = el "div" [] (
    el "div" [] (
      el "div" [] (
        el "Button" (prop "variant" "ghost" ∷ prop "size" "sm" ∷ flag "asChild" ∷ []) (
          el "Link" (prop "to" ("/p/" ⧺ share_code) ∷ []) (icon "ArrowLeft" ⊕ text " Back to Poll"))
        ⊕ live_indicator status)
      ⊕ el "Card" [] (
          el "CardHeader" [] (
            el "div" [] (
              el "div" [] (
                el "div" [] (status_badge p.status)
                ⊕ el "CardTitle" [] (text p.title)
                ⊕ when (truthy p.description) (el "p" [] (text p.description)))))
          ⊕ el "CardContent" [] (shown_results p.options live))
      ⊕ el "div" [] (
          when (is_active p.status) (
            el "Button" (flag "asChild" ∷ []) (
              el "a"
                (prop "href" (share_url origin p.share_code)
                  ∷ prop "target" "_blank"
                  ∷ prop "rel" "noreferrer"
                  ∷ [])
                (icon "ExternalLink" ⊕ text " Vote on this Poll"))))))

shown_poll : String → String → Option Poll → Option PollResults → WsStatus → View Action
unfolding missing_view poll_view
shown_poll origin share_code none live status = missing_view
shown_poll origin share_code (some p) live status = poll_view origin share_code p live status

unfoldable pub render : String → String → Screen → View Action
unfolding loading_view shown_poll
render origin share_code s =
    if s.page.is_loading
    then loading_view
    else shown_poll origin share_code s.page.poll
        (live_results s.hook.results s.page.initial_results) s.hook.status
