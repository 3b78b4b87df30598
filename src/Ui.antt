-- ===== src/Ui.antt =====
-- Rendered views: what the JSX of a component builds, and which actions a user can take in it.
-- Event props carry the action that the page handles; class names stand in `prop "class"` where the
-- code computes them, and fixed ones are left out.
pub mod Offers
pub mod Controls
pub mod Submits
use hcl_assignment.Common.{
  ℕ, String, Bool, true, false, not, ◌&&◌, ◌||◌, List, [], ◌∷◌, ◌++◌, if◌then◌else◌, ◌==◌,
}

pub data Attr (A : Type 0) : Type 0 where
  on_click : A → Attr A
  on_submit : A → Attr A
  on_change : (String → A) → Attr A
  on_open_change : (Bool → A) → Attr A
  disabled : Bool → Attr A
  shown : Bool → Attr A
  prop : String → String → Attr A
  number : String → ℕ → Attr A
  flag : String → Attr A

pub data View (A : Type 0) : Type 0 where
  nothing : View A
  text : String → View A
  count : ℕ → View A
  el : String → List (Attr A) → View A → View A
  seq : View A → View A → View A

infixr 20 ◌⊕◌
abbrev pub ◌⊕◌ : {A : Type 0} → View A → View A → View A
v ⊕ w = seq v w

-- An icon, less its size and colour.
abbrev pub icon : {A : Type 0} → String → View A
icon name = el name [] nothing

-- `test && view`
abbrev pub when : {A : Type 0} → Bool → View A → View A
when b v = if b then v else nothing

-- `xs.map(f)` among the children
abbrev pub each : {A B : Type 0} → (B → View A) → List B → View A
each f [] = nothing
each f (x ∷ xs) = f x ⊕ each f xs

module _ {A : Type 0} where
  -- no `disabled={true}`
  abbrev pub is_enabled : List (Attr A) → Bool
  is_enabled [] = true
  is_enabled (disabled b ∷ props) = not b && is_enabled props
  is_enabled (_ ∷ props) = is_enabled props

  -- no dialog that is closed, `open={false}`
  abbrev pub is_shown : List (Attr A) → Bool
  is_shown [] = true
  is_shown (shown b ∷ props) = b && is_shown props
  is_shown (_ ∷ props) = is_shown props

  abbrev pub clicks_on : (A → Bool) → List (Attr A) → Bool
  clicks_on p [] = false
  clicks_on p (on_click a ∷ props) = p a || clicks_on p props
  clicks_on p (_ ∷ props) = clicks_on p props

  -- Some enabled element that is shown sends, when clicked, an action that passes the test.
  unfoldable pub offers : (A → Bool) → View A → Bool
  offers p nothing = false
  offers p (text s) = false
  offers p (count n) = false
  offers p (el tag props v) =
      is_shown props && (is_enabled props && clicks_on p props || offers p v)
  offers p (seq v w) = offers p v || offers p w

  abbrev pub link_of : List (Attr A) → List String
  link_of [] = []
  link_of (prop name s ∷ props) = if name == "to" then s ∷ link_of props else link_of props
  link_of (_ ∷ props) = link_of props

  -- The targets of the links of a view, in order.
  unfoldable pub links : View A → List String
  links nothing = []
  links (text s) = []
  links (count n) = []
  links (el tag props v) = link_of props ++ links v
  links (seq v w) = links v ++ links w
