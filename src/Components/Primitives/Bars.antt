-- ===== src/Components/Primitives/Bars.antt =====
-- The results chart as it is rendered: how far the indicator of each bar is moved.
use hcl_assignment.Common.{
  ℕ, ◌-◌, ◌≤◌, String, List, [], ◌∷◌, ◌++◌, ◌⧺◌, ◌≡◌, ◌∙◌, refl, inl, inr, Bool-cases, map, All,
  le→leb, ◌==◌, if◌then◌else◌, decimal,
}
use hcl_assignment.Services.Model.{PollOption}
use hcl_assignment.Ui.{View, nothing, text, count, el, seq, Attr, prop, each}
use hcl_assignment.Components.Chart.{
  Counts, Bar, bars, bar_percent, result_bar, results_chart, vote_stats,
}
use hcl_assignment.Components.Chart.Leading.{votes, bars-percent}
use hcl_assignment.Components.Primitives.{Classes}
use hcl_assignment.Components.Primitives.Panels.{remaining, translate, progress}
use hcl_assignment.Components.Primitives.Expand.{expand, find_component, render_as}

abbrev transform_of : {A : Type 0} → List (Attr A) → List String
transform_of [] = []
transform_of (prop name s ∷ props) =
    if name == "transform" then s ∷ transform_of props else transform_of props
transform_of (_ ∷ props) = transform_of props

-- The `transform` styles of a view, in order.
pub transforms : {A : Type 0} → View A → List String
transforms nothing = []
transforms (text s) = []
transforms (count n) = []
transforms (el tag props v) = transform_of props ++ transforms v
transforms (seq v w) = transforms v ++ transforms w

module _ (A : Type 0) (lib : Classes) where
  result_bar-transforms :
      (b : Bar) → transforms (expand {A = A} lib (result_bar b)) ≡ translate (bar_percent b) ∷ []
  unfolding result_bar expand find_component progress render_as transforms
  result_bar-transforms b = elim (Bool-cases b.is_leading) [
    | inl leading ↦ rw leading refl
    | inr behind ↦ rw behind refl
  ]

  each-transforms :
      (bs : List Bar)
      → transforms (expand {A = A} lib (each result_bar bs))
        ≡ map (λ b. translate (bar_percent b)) bs
  unfolding expand transforms
  each-transforms [] = refl
  each-transforms (b ∷ bs) = rw (result_bar-transforms b, each-transforms bs) refl

  chart-transforms :
      (options : List PollOption) (counts : Counts) (total : ℕ)
      → transforms (expand {A = A} lib (results_chart options counts total))
        ≡ map (λ b. translate (bar_percent b)) (bars options counts total)
  unfolding results_chart bars vote_stats expand find_component render_as transforms
  chart-transforms options counts total = each-transforms (bars options counts total)

-- The text of a shift to the left by the part of the bar that is missing.
abbrev pub shift : Bar → String
shift b = "translateX(-" ⧺ decimal (100 - bar_percent b) ⧺ "%)"

translate-shift : (b : Bar) → bar_percent b ≤ 100 → translate (bar_percent b) ≡ shift b
unfolding translate remaining
translate-shift b le = rw (le→leb (bar_percent b) 100 le) refl

map-shift :
    (bs : List Bar)
    → All (λ b. bar_percent b ≤ 100) bs
    → map (λ b. translate (bar_percent b)) bs ≡ map shift bs
map-shift [] le = refl
map-shift (b ∷ bs) (le, rest) = rw (translate-shift b le, map-shift bs rest) refl

-- If the options' votes add up to at most the total, the rendered chart moves the indicator of each
-- bar, in the order of the options, to the left by what its percentage lacks to 100.
pub transforms-results_chart :
    (A : Type 0) (lib : Classes) (options : List PollOption) (counts : Counts) (total : ℕ)
    → votes counts options ≤ total
    → transforms (expand {A = A} lib (results_chart options counts total))
      ≡ map shift (bars options counts total)
transforms-results_chart A lib options counts total le =
    chart-transforms A lib options counts total
    ∙ map-shift (bars options counts total) (bars-percent counts total options le)
