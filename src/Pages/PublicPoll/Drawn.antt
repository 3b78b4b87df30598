-- ===== src/Pages/PublicPoll/Drawn.antt =====
-- The page of a poll that can be voted on, as components/ui renders it.
use hcl_assignment.Common.{
  String, Bool, true, false, not, ◌&&◌, ◌||◌, Option, none, some, List, [], ◌∷◌, ◌++◌, ◌≡◌, refl,
  ap, map, truthy, inl, inr, Bool-cases, if◌then◌else◌,
}
use mathlib.Core.List.{append-nil}
use hcl_assignment.Services.Model.{Poll, PollOption, active}
use hcl_assignment.Ui.{each, when, el, text}
use hcl_assignment.Ui.Controls.{Input, inputs, clicks, Has}
use hcl_assignment.Components.Primitives.{Classes}
use hcl_assignment.Components.Primitives.Expand.{expand}
use hcl_assignment.Components.Status.{live_indicator}
use hcl_assignment.Realtime.{WsStatus, connecting, connected, reconnecting, disconnected, Hook}
use hcl_assignment.Pages.PublicPoll.{
  State, Screen, Action, select, vote, option_choice, status_badge, results_link, poll_view,
  shown_poll, render,
}

-- A page that has loaded a poll.
abbrev pub voting_page : Poll → State → Hook → Screen
voting_page p s hook = record {
  page = record s { is_loading = false; poll = some p; load_error = none };
  hook = hook;
}

abbrev pub vote_inputs : State → String → List (Input Action)
vote_inputs s t = (none, some s.selected_option, select t) ∷ []

abbrev pub vote_clicks : Poll → State → List Action
vote_clicks p s =
    map (λ o. select o.id) p.options
    ++ (if truthy s.selected_option && not s.is_voting then vote ∷ [] else [])

module _ (lib : Classes) where
  choices-Has :
      (selected : String) (options : List PollOption)
      → Has
          (expand lib (each (option_choice selected) options))
          (λ t. [])
          (map (λ o. select o.id) options)
  unfolding inputs clicks expand option_choice
  choices-Has selected [] = (λ t. refl, refl)
  choices-Has selected (o ∷ options) =
      (λ t. (choices-Has selected options).0 t, rw (choices-Has selected options).1 refl)

  live-Has :
      (status : WsStatus) → Has (expand lib (live_indicator {A = Action} status)) (λ t. []) []
  unfolding inputs clicks expand live_indicator
  live-Has connecting = (λ t. refl, refl)
  live-Has connected = (λ t. refl, refl)
  live-Has reconnecting = (λ t. refl, refl)
  live-Has disconnected = (λ t. refl, refl)

  described-Has :
      (b : Bool) (s : String)
      → Has {A = Action} (expand lib (when b (el "CardDescription" [] (text s)))) (λ t. []) []
  unfolding inputs clicks expand
  described-Has true s = (λ t. refl, refl)
  described-Has false s = (λ t. refl, refl)

  link-Has : (code : Option String) → Has (expand lib (results_link code)) (λ t. []) []
  unfolding inputs clicks expand results_link
  link-Has none = (λ t. refl, refl)
  link-Has (some code) = elim (Bool-cases (truthy code)) [
    | inl e ↦ rw e (λ t. refl, refl)
    | inr e ↦ rw e (λ t. refl, refl)
  ]

  vote_button :
      (a b : Bool) (xs : List Action)
      → (xs ++ ((if not (not a || b) && true then vote ∷ [] else []) ++ [])) ++ []
        ≡ xs ++ (if a && not b then vote ∷ [] else [])
  vote_button true true xs = append-nil _
  vote_button true false xs = append-nil _
  vote_button false b xs = append-nil _

  no_button :
      (a b : Bool)
      → ◌≡◌ {A = List (Input Action)}
          (((if not (not a || b) && true then [] else []) ++ []) ++ [])
          []
  no_button true true = refl
  no_button true false = refl
  no_button false b = refl

  pub voting-Has :
      (code : Option String) (p : Poll) (s : State) (hook : Hook)
      → p.status ≡ active
      → s.has_voted ≡ false
      → Has (expand lib (render code (voting_page p s hook))) (vote_inputs s) (vote_clicks p s)
  unfolding inputs clicks expand render shown_poll poll_view status_badge
  voting-Has code p s hook open_poll fresh =
      let described = described-Has (truthy p.description) p.description in
      let live = live-Has hook.status in
      let choices = choices-Has s.selected_option p.options in
      let link = link-Has code in
      rw (open_poll, fresh)
        (
          λ t.
              rw (described.0 t, live.0 t, choices.0 t, link.0 t)
                (ap (λ rest. (none, some s.selected_option, select t) ∷ rest)
                  (no_button (truthy s.selected_option) s.is_voting)),
          rw (described.1, live.1, choices.1, link.1)
              (vote_button (truthy s.selected_option) s.is_voting
                (map (λ o. select o.id) p.options)),
        )
