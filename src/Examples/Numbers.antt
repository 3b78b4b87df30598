-- ===== src/Examples/Numbers.antt =====
-- The numbers of the results chart.
use hcl_assignment.Common.{◌+◌, ◌*◌, ◌≤◌, ◌<◌, true, false, [], ◌∷◌, ◌++◌, ◌≡◌, ◌↔◌, refl, arith}
use hcl_assignment.Services.Model.{PollOption}
use hcl_assignment.Utils.Percent.{percent}
use hcl_assignment.Utils.Percent.Nearest.{percent-nearest}
use hcl_assignment.Components.Chart.{Counts, count_of, max_count, bar_of, bars}
use hcl_assignment.Components.Chart.Leading.{AtMost, leading_iff}

abbrev counts : Counts
counts = ("a", 2) ∷ ("b", 1) ∷ []

abbrev a : PollOption
a = record { id = "a"; text = "Go" }

abbrev b : PollOption
b = record { id = "b"; text = "Rust" }

shown :
    bars (a ∷ b ∷ []) counts 3
    ≡ record { label = "Go"; count = 2; total = 3; is_leading = true }
      ∷ record { label = "Rust"; count = 1; total = 3; is_leading = false }
      ∷ []
unfolding bars
shown = refl

leading_iff_example :
    ((bar_of (max_count ([] ++ a ∷ b ∷ []) counts) counts 3 a).is_leading ≡ true)
    ↔ ((0 < count_of counts "a") × AtMost counts (count_of counts "a") ([] ++ a ∷ b ∷ []))
leading_iff_example = leading_iff counts 3 [] (b ∷ []) a

percent-nearest_example :
    (2 * percent 29 200 * 200 ≤ 200 * 29 + 200) × (200 * 29 ≤ 2 * percent 29 200 * 200 + 200)
percent-nearest_example = percent-nearest 29 200 (omega arith) (omega arith) (omega arith)
