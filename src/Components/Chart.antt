-- ===== src/Components/Chart.antt =====
-- components/results: ResultsChart, ResultBar and VoteStats.
pub mod Leading
use hcl_assignment.Common.{
  ℕ, max, String, Bool, true, false, ◌&&◌, Option, none, some, List, [], ◌∷◌, map, ltb, eqb, ◌==◌,
  get_or, if◌then◌else◌,
}
use hcl_assignment.Services.Model.{PollOption, PollResults}
use hcl_assignment.Utils.Percent.{percent, format_percent}
use hcl_assignment.Ui.{View, el, text, count, ◌⊕◌, nothing, icon, prop, number, when, each}

abbrev pub Counts : Type 0
Counts = List (String × ℕ)

-- `counts[id] || 0`
unfoldable pub count_of : Counts → String → ℕ
count_of [] id = 0
count_of ((k, n) ∷ counts) id = if k == id then n else count_of counts id

-- `Math.max(...xs, 0)`
unfoldable pub max_of : List ℕ → ℕ
max_of [] = 0
max_of (n ∷ rest) = max n (max_of rest)

-- The props of a ResultBar.
pub record Bar : Type 0 where
  pub label : String
  pub count : ℕ
  pub total : ℕ
  pub is_leading : Bool

unfoldable pub max_count : List PollOption → Counts → ℕ
unfolding max_of count_of
max_count options counts = max_of (map (λ o. count_of counts o.id) options)

unfoldable pub bar_of : ℕ → Counts → ℕ → PollOption → Bar
unfolding count_of
bar_of most counts total option = record {
  label = option.text;
  count = count_of counts option.id;
  total = total;
  is_leading = eqb (count_of counts option.id) most && ltb 0 (count_of counts option.id);
}

-- The bars of a chart, in the order of the options.
unfoldable pub bars : List PollOption → Counts → ℕ → List Bar
unfolding max_count bar_of
bars options counts total = map (bar_of (max_count options counts) counts total) options

unfoldable pub bar_percent : Bar → ℕ
bar_percent b = if eqb b.total 0 then 0 else percent b.count b.total

unfoldable pub result_bar : {A : Type 0} → Bar → View A
unfolding bar_percent
result_bar b = el "div" [] (
    el "div" [] (
      el "span" (prop "class" (if b.is_leading then "text-primary" else "text-foreground") ∷ [])
        (text b.label ⊕ when b.is_leading (el "span" [] (text "● Leading")))
      ⊕ el "div" []
          (el "span" [] (count b.count) ⊕ el "span" [] (text (format_percent b.count b.total))))
    ⊕ el "Progress" (number "value" (bar_percent b) ∷ []) nothing)

unfoldable pub vote_stats : {A : Type 0} → ℕ → View A
vote_stats total_votes = el "div" [] (
    icon "Users"
    ⊕ el "span" [] (
        el "span" [] (count total_votes)
        ⊕ text " "
        ⊕ text (if eqb total_votes 1 then "vote" else "votes")
        ⊕ text " total"))

unfoldable pub results_chart : {A : Type 0} → List PollOption → Counts → ℕ → View A
unfolding vote_stats result_bar bars
results_chart options counts total_votes =
    el "div" []
      (vote_stats total_votes ⊕ el "div" [] (each result_bar (bars options counts total_votes)))

-- The chart of a page, `counts || {}` and `totalVotes || 0`.
unfoldable pub chart_of : {A : Type 0} → List PollOption → PollResults → View A
unfolding results_chart
chart_of options results =
    results_chart options (get_or results.counts []) (get_or results.total_votes 0)
