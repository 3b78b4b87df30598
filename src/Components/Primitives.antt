-- ===== src/Components/Primitives.antt =====
-- lib/utils.ts, and what the wrappers of components/ui share: the classes, and the props that a
-- component takes out of its own.
pub mod Button
pub mod Card
pub mod Fields
pub mod Panels
pub mod Dialog
pub mod AlertDialog
pub mod Menu
pub mod Expand
pub mod Bars
use hcl_assignment.Common.{
  ℕ, String, Bool, true, false, not, ◌||◌, Option, none, some, List, [], ◌∷◌, ◌++◌, filter, ◌==◌,
  or_else, if◌then◌else◌,
}
use hcl_assignment.Ui.{
  View, el, Attr, prop, number, flag, on_click, on_submit, on_change, on_open_change, disabled,
  shown,
}

-- The configuration of a `cva`: for each option its values with their classes, and the defaults.
pub record Config : Type 0 where
  pub variants : List (String × List (String × String))
  pub default_variants : List (String × String)

-- The packages that compute classes: clsx, tailwind-merge, class-variance-authority. `none` stands for
-- `undefined` and `false`.
pub record Classes : Type 0 where
  pub clsx : List (Option String) → String
  pub tw_merge : String → String
  pub cva : String → Config → List (String × Option String) → String

unfoldable pub cn : Classes → List (Option String) → String
cn lib inputs = lib.tw_merge (lib.clsx inputs)

abbrev pub member : String → List String → Bool
member s [] = false
member s (n ∷ names) = s == n || member s names

module _ {A : Type 0} where
  -- whether a prop has one of the names; handlers, `disabled` and `open` are not asked for
  abbrev pub is_named : List String → Attr A → Bool
  is_named names (prop n s) = member n names
  is_named names (number n k) = member n names
  is_named names (flag n) = member n names
  is_named names (on_click a) = false
  is_named names (on_submit a) = false
  is_named names (on_change f) = false
  is_named names (on_open_change f) = false
  is_named names (disabled b) = false
  is_named names (shown b) = false

  -- `...props` after `names` are taken out, and what was taken
  abbrev pub without : List String → List (Attr A) → List (Attr A)
  without names props = filter (λ a. not (is_named names a)) props

  abbrev pub given : List String → List (Attr A) → List (Attr A)
  given names props = filter (is_named names) props

  -- The value of a prop: of two with one name the last counts.
  abbrev pub attr : String → List (Attr A) → Option String
  attr name [] = none
  attr name (prop n s ∷ props) = or_else (attr name props) (if n == name then some s else none)
  attr name (_ ∷ props) = attr name props

  abbrev pub number_of : String → List (Attr A) → Option ℕ
  number_of name [] = none
  number_of name (number n k ∷ props) =
      or_else (number_of name props) (if n == name then some k else none)
  number_of name (_ ∷ props) = number_of name props

  abbrev pub has_flag : String → List (Attr A) → Bool
  has_flag name [] = false
  has_flag name (flag n ∷ props) = n == name || has_flag name props
  has_flag name (_ ∷ props) = has_flag name props

  -- `<tag className={cn(..., className)} {...props} />`
  unfoldable pub styled : Classes → String → List (Option String) → List (Attr A) → View A → View A
  unfolding cn
  styled lib tag classes props v =
      el tag
        (prop "class" (cn lib (classes ++ attr "class" props ∷ [])) ∷ without ("class" ∷ []) props)
        v
