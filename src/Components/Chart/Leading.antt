-- ===== src/Components/Chart/Leading.antt =====
-- Which options a chart marks as leading, and that no bar passes 100 percent.
use hcl_assignment.Common.{
  ℕ, ◌+◌, ◌≤◌, ◌<◌, true, List, [], ◌∷◌, ◌++◌, inl, inr, Bool-cases, map, ◌≡◌, ◌↔◌, All, eqb, arith,
}
use hcl_assignment.Services.Model.{PollOption}
use native.Mathlib.Nat.{le_refl}
use hcl_assignment.Utils.Percent.Bounds.{percent-le}
use hcl_assignment.Components.Chart.{Counts, count_of, max_of, max_count, bar_of, bars, bar_percent}

max_of-le : (n : ℕ) (xs : List ℕ) → All (λ x. x ≤ n) xs ↔ (max_of xs ≤ n)
unfolding max_of
max_of-le n [] = (λ h. omega arith, λ h. tt)
max_of-le n (x ∷ xs) = ground (arith, max_of-le n xs)

abbrev pub AtMost : Counts → ℕ → List PollOption → Type 0
AtMost counts n = All (λ o. count_of counts o.id ≤ n)

max_count-le :
    (counts : Counts) (n : ℕ) (options : List PollOption)
    → AtMost counts n options ↔ (max_count options counts ≤ n)
unfolding max_count
max_count-le counts n [] = (λ h. omega arith, λ h. tt)
max_count-le counts n (o ∷ options) = ground (arith, max_count-le counts n options)

All-middle :
    (counts : Counts) (n : ℕ) (before after : List PollOption) (o : PollOption)
    → AtMost counts n (before ++ o ∷ after)
    → count_of counts o.id ≤ n
All-middle counts n [] after o h = h.0
All-middle counts n (x ∷ before) after o h = All-middle counts n before after o h.1

is_leading_iff :
    (counts : Counts) (most total : ℕ) (o : PollOption)
    → ((bar_of most counts total o).is_leading ≡ true)
      ↔ ((count_of counts o.id ≡ most) × (0 < count_of counts o.id))
unfolding bar_of
is_leading_iff counts most total o = ground arith

-- The bar of an option of the chart is marked as leading exactly when the option has a vote and no
-- option has more; ties are all marked.
pub leading_iff :
    (counts : Counts) (total : ℕ) (before after : List PollOption) (o : PollOption)
    → let options = before ++ o ∷ after in
      ((bar_of (max_count options counts) counts total o).is_leading ≡ true)
      ↔ ((0 < count_of counts o.id) × AtMost counts (count_of counts o.id) options)
leading_iff counts total before after o =
    let options = before ++ o ∷ after in
    let most = max_count options counts in
    let reached =
      All-middle counts most before after o ((max_count-le counts most options).1 (le_refl most)) in
    (
      λ h.
          let p = (is_leading_iff counts most total o).0 h in
          (p.1, (max_count-le counts (count_of counts o.id) options).1 (omega (arith, p.0))),
      λ h.
          (is_leading_iff counts most total o).1 (
            omega (arith, reached, (max_count-le counts (count_of counts o.id) options).0 h.1),
            h.0,
          ),
    )

-- The sum of the counts of the options.
abbrev pub votes : Counts → List PollOption → ℕ
votes counts [] = 0
votes counts (o ∷ options) = count_of counts o.id + votes counts options

bar_of-percent :
    (counts : Counts) (most total : ℕ) (o : PollOption)
    → count_of counts o.id ≤ total
    → bar_percent (bar_of most counts total o) ≤ 100
unfolding bar_of bar_percent
bar_of-percent counts most total o le = elim (Bool-cases (eqb total 0)) [
  | inl z ↦ rw z (omega arith)
  | inr nz ↦ rw nz (percent-le (count_of counts o.id) total (ground arith) le)
]

bars_at-le :
    (counts : Counts) (most total : ℕ) (options : List PollOption)
    → votes counts options ≤ total
    → All (λ b. bar_percent b ≤ 100) (map (bar_of most counts total) options)
bars_at-le counts most total [] le = tt
bars_at-le counts most total (o ∷ options) le = (
  bar_of-percent counts most total o (omega arith),
  bars_at-le counts most total options (omega arith),
)

-- If the options' votes add up to at most the total, every bar shows at most 100 percent, also before
-- the first vote.
pub bars-percent :
    (counts : Counts) (total : ℕ) (options : List PollOption)
    → votes counts options ≤ total
    → All (λ b. bar_percent b ≤ 100) (bars options counts total)
unfolding bars
bars-percent counts total options le = bars_at-le counts (max_count options counts) total options le
