-- ===== src/Examples/Drawn.antt =====
-- The components of components/ui at concrete views.
use hcl_assignment.Common.{
  String, Option, none, some, List, [], ◌∷◌, ◌⧺◌, ◌≡◌, refl, decimal, map, arith,
}
use hcl_assignment.Services.Model.{Poll, PollOption, active}
use hcl_assignment.Utils.Percent.{percent}
use hcl_assignment.Realtime.{Hook, mount}
use hcl_assignment.Components.Chart.{Counts, bar_percent, bars, results_chart}
use hcl_assignment.Components.Primitives.{Classes}
use hcl_assignment.Components.Primitives.Expand.{expand}
use hcl_assignment.Components.Primitives.Bars.{transforms, shift, transforms-results_chart}
use hcl_assignment.Pages.Login
use hcl_assignment.Pages.Signup
use hcl_assignment.Pages.PublicPoll
use hcl_assignment.Pages.Login.Requests.{is_submit as is_login}
use hcl_assignment.Pages.Signup.Requests.{is_submit as is_signup}

-- clsx joins what is given; the others are taken to add nothing.
abbrev join : List (Option String) → String
join [] = ""
join (none ∷ inputs) = join inputs
join (some s ∷ inputs) = s ⧺ " " ⧺ join inputs

abbrev lib : Classes
lib = record { clsx = join; tw_merge = λ s. s; cva = λ base config options. base }

abbrev go : PollOption
go = record { id = "a"; text = "Go" }

abbrev rust : PollOption
rust = record { id = "b"; text = "Rust" }

abbrev counts : Counts
counts = ("a", 3) ∷ ("b", 1) ∷ []

transforms-results_chart_example :
    transforms (expand {A = Unit} lib (results_chart (go ∷ rust ∷ []) counts 4))
    ≡ map shift (bars (go ∷ rust ∷ []) counts 4)
unfolding bars
transforms-results_chart_example =
    transforms-results_chart Unit lib (go ∷ rust ∷ []) counts 4 (omega arith)

shifts : map shift (bars (go ∷ rust ∷ []) counts 4) ≡ "translateX(-25%)" ∷ "translateX(-75%)" ∷ []
unfolding bars bar_percent percent decimal
shifts = refl

abbrev poll : Poll
poll = record {
  id = "p";
  creator_id = "u";
  title = "Best?";
  description = "";
  options = go ∷ rust ∷ [];
  share_code = "abc";
  status = active;
  created_at = "2026-01-01";
  updated_at = "2026-01-01";
  expires_at = none;
}

-- one option is chosen
abbrev chosen : PublicPoll.State
chosen = record PublicPoll.init { selected_option = "b" }

abbrev hook : Hook
hook = mount none none
