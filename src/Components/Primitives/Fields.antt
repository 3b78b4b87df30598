-- ===== src/Components/Primitives/Fields.antt =====
-- components/ui: input.tsx, textarea.tsx, label.tsx and radio-group.tsx
use hcl_assignment.Common.{some, List, [], ◌∷◌, ◌++◌}
use hcl_assignment.Ui.{View, el, nothing, Attr, prop}
use hcl_assignment.Components.Primitives.{Classes, cn, attr, given, without, styled}

module _ {A : Type 0} (lib : Classes) where
  unfoldable pub input : List (Attr A) → View A → View A
  unfolding cn
  input props v =
      el "input"
        (given ("type" ∷ []) props
          ++ prop "class" (
              cn lib (
                some
                  "flex h-10 w-full rounded-md border border-input bg-background px-3 py-2 text-sm ring-offset-background file:border-0 file:bg-transparent file:text-sm file:font-medium placeholder:text-muted-foreground focus-visible:outline-none focus-visible:ring-2 focus-visible:ring-ring focus-visible:ring-offset-2 disabled:cursor-not-allowed disabled:opacity-50"
                ∷ attr "class" props
                ∷ []))
            ∷ without ("class" ∷ "type" ∷ []) props)
        v

  unfoldable pub textarea : List (Attr A) → View A → View A
  unfolding styled
  textarea props v =
      styled lib "textarea"
        (some
            "flex min-h-[80px] w-full rounded-md border border-input bg-background px-3 py-2 text-sm ring-offset-background placeholder:text-muted-foreground focus-visible:outline-none focus-visible:ring-2 focus-visible:ring-ring focus-visible:ring-offset-2 disabled:cursor-not-allowed disabled:opacity-50"
          ∷ [])
        props v

  -- `labelVariants()`
  unfoldable pub label : List (Attr A) → View A → View A
  unfolding styled
  label props v =
      styled lib "LabelPrimitive.Root"
        (some (
            lib.cva
              "text-sm font-medium leading-none peer-disabled:cursor-not-allowed peer-disabled:opacity-70"
              (record { variants = []; default_variants = [] }) [])
          ∷ [])
        props v

  unfoldable pub radio_group : List (Attr A) → View A → View A
  unfolding styled
  radio_group props v = styled lib "RadioGroupPrimitive.Root" (some "grid gap-2" ∷ []) props v

  unfoldable pub radio_group_item : List (Attr A) → View A → View A
  unfolding styled
  radio_group_item props v =
      styled lib "RadioGroupPrimitive.Item"
        (some
            "aspect-square h-4 w-4 rounded-full border border-primary text-primary ring-offset-background focus:outline-none focus-visible:ring-2 focus-visible:ring-ring focus-visible:ring-offset-2 disabled:cursor-not-allowed disabled:opacity-50"
          ∷ [])
        props
        (el "RadioGroupPrimitive.Indicator" (prop "class" "flex items-center justify-center" ∷ [])
          (el "Circle" (prop "class" "h-2.5 w-2.5 fill-current text-current" ∷ []) nothing))
