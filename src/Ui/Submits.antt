-- ===== src/Ui/Submits.antt =====
-- Which forms of a view the user can submit: by its submit button, or by Enter in one of its inputs,
-- which the browser refuses while that button is disabled.
use hcl_assignment.Common.{
  Bool, true, false, ◌&&◌, ◌||◌, Option, none, some, List, [], ◌∷◌, get_or, or_else, if◌then◌else◌,
  ◌==◌,
}
use hcl_assignment.Ui.{
  View, nothing, text, count, el, seq, Attr, on_submit, prop, is_enabled, is_shown,
}

module _ {A : Type 0} where
  abbrev pub submits_on : (A → Bool) → List (Attr A) → Bool
  submits_on p [] = false
  submits_on p (on_submit a ∷ props) = p a || submits_on p props
  submits_on p (_ ∷ props) = submits_on p props

  abbrev pub is_submit_button : List (Attr A) → Bool
  is_submit_button [] = false
  is_submit_button (prop name s ∷ props) = name == "type" && s == "submit" || is_submit_button props
  is_submit_button (_ ∷ props) = is_submit_button props

  -- Whether the first submit button is enabled; `none` without one.
  unfoldable pub default_button : View A → Option Bool
  default_button nothing = none
  default_button (text s) = none
  default_button (count n) = none
  default_button (el tag props v) =
      if is_submit_button props then some (is_enabled props) else default_button v
  default_button (seq v w) = or_else (default_button v) (default_button w)

  -- Some form that is shown sends an action that passes the test.
  unfoldable pub submits : (A → Bool) → View A → Bool
  unfolding default_button
  submits p nothing = false
  submits p (text s) = false
  submits p (count n) = false
  submits p (el tag props v) =
      is_shown props && (submits_on p props && get_or (default_button v) true || submits p v)
  submits p (seq v w) = submits p v || submits p w
