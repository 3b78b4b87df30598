-- ===== src/Components/Primitives/Button.antt =====
-- components/ui/button.tsx and components/ui/badge.tsx
use hcl_assignment.Common.{String, Option, some, List, [], ◌∷◌, if◌then◌else◌}
use hcl_assignment.Ui.{View, el, Attr, prop}
use hcl_assignment.Components.Primitives.{Config, Classes, cn, attr, has_flag, without}

abbrev button_config : Config
button_config = record {
  variants =
      (
        "variant",
        ("default", "bg-primary text-primary-foreground hover:bg-primary/90")
            ∷ ("destructive", "bg-destructive text-destructive-foreground hover:bg-destructive/90")
            ∷ (
              "outline",
              "border border-input bg-background hover:bg-accent hover:text-accent-foreground",
            )
            ∷ ("secondary", "bg-secondary text-secondary-foreground hover:bg-secondary/80")
            ∷ ("ghost", "hover:bg-accent hover:text-accent-foreground")
            ∷ ("link", "text-primary underline-offset-4 hover:underline")
            ∷ [],
      )
      ∷ (
        "size",
        ("default", "h-10 px-4 py-2")
            ∷ ("sm", "h-9 rounded-md px-3")
            ∷ ("lg", "h-11 rounded-md px-8")
            ∷ ("icon", "h-10 w-10")
            ∷ [],
      )
      ∷ [];
  default_variants = ("variant", "default") ∷ ("size", "default") ∷ [];
}

unfoldable pub button_variants : Classes → List (String × Option String) → String
button_variants lib options =
    lib.cva
      "inline-flex items-center justify-center gap-2 whitespace-nowrap rounded-md text-sm font-medium ring-offset-background transition-colors focus-visible:outline-none focus-visible:ring-2 focus-visible:ring-ring focus-visible:ring-offset-2 disabled:pointer-events-none disabled:opacity-50"
      button_config options

abbrev badge_config : Config
badge_config = record {
  variants =
      (
        "variant",
        ("default", "border-transparent bg-primary text-primary-foreground hover:bg-primary/80")
            ∷ (
              "secondary",
              "border-transparent bg-secondary text-secondary-foreground hover:bg-secondary/80",
            )
            ∷ (
              "destructive",
              "border-transparent bg-destructive text-destructive-foreground hover:bg-destructive/80",
            )
            ∷ ("outline", "text-foreground")
            ∷ ("success", "border-transparent bg-green-100 text-green-800")
            ∷ ("live", "border-transparent bg-green-500 text-white animate-pulse")
            ∷ [],
      )
      ∷ [];
  default_variants = ("variant", "default") ∷ [];
}

badge_variants : Classes → List (String × Option String) → String
badge_variants lib options =
    lib.cva
      "inline-flex items-center rounded-full border px-2.5 py-0.5 text-xs font-semibold transition-colors focus:outline-none focus:ring-2 focus:ring-ring focus:ring-offset-2"
      badge_config options

module _ {A : Type 0} (lib : Classes) where
  unfoldable pub button : List (Attr A) → View A → View A
  unfolding cn button_variants
  button props v =
      el (if has_flag "asChild" props then "Slot" else "button")
        (prop "class" (
            cn lib (
              some (
                button_variants lib (
                  ("variant", attr "variant" props)
                  ∷ ("size", attr "size" props)
                  ∷ ("className", attr "class" props)
                  ∷ []))
              ∷ []))
          ∷ without ("class" ∷ "variant" ∷ "size" ∷ "asChild" ∷ []) props)
        v

  unfoldable pub badge : List (Attr A) → View A → View A
  unfolding cn badge_variants
  badge props v =
      el "div"
        (prop "class" (
            cn lib (
              some (badge_variants lib (("variant", attr "variant" props) ∷ []))
              ∷ attr "class" props
              ∷ []))
          ∷ without ("class" ∷ "variant" ∷ []) props)
        v
