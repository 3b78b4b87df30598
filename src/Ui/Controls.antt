-- ===== src/Ui/Controls.antt =====
-- What a user can do in a view: its inputs and its clicks.
use hcl_assignment.Common.{String, Option, List, [], ◌∷◌, ◌++◌, ◌≡◌, if◌then◌else◌}
use hcl_assignment.Ui.{
  View, nothing, text, count, el, seq, Attr, on_change, on_click, is_enabled, is_shown,
}
use hcl_assignment.Components.Primitives.{attr}

-- An input: its id, the value that it shows, and what it sends when it is changed.
abbrev pub Input : Type 0 → Type 0
Input A = Option String × Option String × A

module _ {A : Type 0} where
  abbrev inputs_of : String → Option String → Option String → List (Attr A) → List (Input A)
  inputs_of t id value [] = []
  inputs_of t id value (on_change f ∷ props) = (id, value, f t) ∷ inputs_of t id value props
  inputs_of t id value (_ ∷ props) = inputs_of t id value props

  abbrev clicks_of : List (Attr A) → List A
  clicks_of [] = []
  clicks_of (on_click a ∷ props) = a ∷ clicks_of props
  clicks_of (_ ∷ props) = clicks_of props

  -- The shown and enabled inputs of a view, in order, when they are changed to a text.
  unfoldable pub inputs : String → View A → List (Input A)
  inputs t nothing = []
  inputs t (text s) = []
  inputs t (count n) = []
  inputs t (el tag props v) =
      if is_shown props
      then (if is_enabled props
          then inputs_of t (attr "id" props) (attr "value" props) props
          else [])
        ++ inputs t v
      else []
  inputs t (seq v w) = inputs t v ++ inputs t w

  -- What the shown and enabled elements send when they are clicked, in order.
  unfoldable pub clicks : View A → List A
  clicks nothing = []
  clicks (text s) = []
  clicks (count n) = []
  clicks (el tag props v) =
      if is_shown props then (if is_enabled props then clicks_of props else []) ++ clicks v else []
  clicks (seq v w) = clicks v ++ clicks w

-- A view with these inputs and clicks.
abbrev pub Has : {A : Type 0} → View A → (String → List (Input A)) → List A → Type 0
Has v fields buttons = ((t : String) → inputs t v ≡ fields t) × (clicks v ≡ buttons)
