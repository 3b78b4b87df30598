-- ===== src/Components/Primitives/Panels.antt =====
-- components/ui: tabs.tsx, separator.tsx, skeleton.tsx and progress.tsx; and components/layout/PageContainer.tsx
use hcl_assignment.Common.{
  String, ℕ, ◌-◌, some, List, [], ◌∷◌, ◌⧺◌, ◌==◌, leb, decimal, get_or, if◌then◌else◌,
}
use hcl_assignment.Ui.{View, el, nothing, Attr, prop, flag}
use hcl_assignment.Components.Primitives.{Classes, cn, attr, number_of, without, styled}

-- `100 - value` as a text; a value above 100 gives a negative number.
unfoldable pub remaining : ℕ → String
remaining value = if leb value 100 then decimal (100 - value) else "-" ⧺ decimal (value - 100)

unfoldable pub translate : ℕ → String
unfolding remaining
translate value = "translateX(-" ⧺ remaining value ⧺ "%)"

module _ {A : Type 0} (lib : Classes) where
  unfoldable pub tabs : List (Attr A) → View A → View A
  tabs props v = el "TabsPrimitive.Root" props v

  unfoldable pub tabs_list : List (Attr A) → View A → View A
  unfolding styled
  tabs_list props v =
      styled lib "TabsPrimitive.List"
        (some
            "inline-flex h-10 items-center justify-center rounded-md bg-muted p-1 text-muted-foreground"
          ∷ [])
        props v

  unfoldable pub tabs_trigger : List (Attr A) → View A → View A
  unfolding styled
  tabs_trigger props v =
      styled lib "TabsPrimitive.Trigger"
        (some
            "inline-flex items-center justify-center whitespace-nowrap rounded-sm px-3 py-1.5 text-sm font-medium ring-offset-background transition-all focus-visible:outline-none focus-visible:ring-2 focus-visible:ring-ring focus-visible:ring-offset-2 disabled:pointer-events-none disabled:opacity-50 data-[state=active]:bg-background data-[state=active]:text-foreground data-[state=active]:shadow-sm"
          ∷ [])
        props v

  unfoldable pub tabs_content : List (Attr A) → View A → View A
  unfolding styled
  tabs_content props v =
      styled lib "TabsPrimitive.Content"
        (some
            "mt-2 ring-offset-background focus-visible:outline-none focus-visible:ring-2 focus-visible:ring-ring focus-visible:ring-offset-2"
          ∷ [])
        props v

  -- `decorative` keeps its default, `true`, everywhere.
  unfoldable pub separator : List (Attr A) → View A → View A
  unfolding cn
  separator props v =
      let orientation = get_or (attr "orientation" props) "horizontal" in
      el "SeparatorPrimitive.Root"
        (flag "decorative"
          ∷ prop "orientation" orientation
          ∷ prop "class" (
              cn lib (
                some "shrink-0 bg-border"
                ∷ some (if orientation == "horizontal" then "h-[1px] w-full" else "h-full w-[1px]")
                ∷ attr "class" props
                ∷ []))
          ∷ without ("class" ∷ "orientation" ∷ "decorative" ∷ []) props)
        v

  unfoldable pub skeleton : List (Attr A) → View A → View A
  unfolding styled
  skeleton props v = styled lib "div" (some "animate-pulse rounded-md bg-muted" ∷ []) props v

  unfoldable pub progress : List (Attr A) → View A → View A
  unfolding cn translate
  progress props v =
      el "ProgressPrimitive.Root"
        (prop "class" (
            cn lib (
              some "relative h-4 w-full overflow-hidden rounded-full bg-secondary"
              ∷ attr "class" props
              ∷ []))
          ∷ without ("class" ∷ "value" ∷ []) props)
        (el "ProgressPrimitive.Indicator"
          (prop "class" "h-full w-full flex-1 bg-primary transition-all duration-500"
            ∷ prop "transform" (translate (get_or (number_of "value" props) 0))
            ∷ [])
          nothing)

  unfoldable pub page_container : List (Attr A) → View A → View A
  unfolding cn
  page_container props v =
      el "div"
        (prop "class" (
            cn lib
              (some "mx-auto w-full max-w-7xl px-4 py-8 sm:px-6 lg:px-8" ∷ attr "class" props ∷ []))
          ∷ [])
        v
