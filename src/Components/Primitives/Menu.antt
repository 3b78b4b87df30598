-- ===== src/Components/Primitives/Menu.antt =====
-- components/ui/dropdown-menu.tsx
use hcl_assignment.Common.{String, Option, none, some, List, [], ◌∷◌, get_or, if◌then◌else◌}
use hcl_assignment.Ui.{View, el, nothing, ◌⊕◌, Attr, prop, number}
use hcl_assignment.Components.Primitives.{Classes, cn, attr, number_of, has_flag, without, styled}

-- `inset && "pl-8"`
abbrev inset_class : {A : Type 0} → List (Attr A) → Option String
inset_class props = if has_flag "inset" props then some "pl-8" else none

module _ {A : Type 0} (lib : Classes) where
  unfoldable pub dropdown_menu : List (Attr A) → View A → View A
  dropdown_menu props v = el "DropdownMenuPrimitive.Root" props v

  unfoldable pub dropdown_menu_trigger : List (Attr A) → View A → View A
  dropdown_menu_trigger props v = el "DropdownMenuPrimitive.Trigger" props v

  unfoldable pub dropdown_menu_group : List (Attr A) → View A → View A
  dropdown_menu_group props v = el "DropdownMenuPrimitive.Group" props v

  unfoldable pub dropdown_menu_portal : List (Attr A) → View A → View A
  dropdown_menu_portal props v = el "DropdownMenuPrimitive.Portal" props v

  unfoldable pub dropdown_menu_sub : List (Attr A) → View A → View A
  dropdown_menu_sub props v = el "DropdownMenuPrimitive.Sub" props v

  unfoldable pub dropdown_menu_radio_group : List (Attr A) → View A → View A
  dropdown_menu_radio_group props v = el "DropdownMenuPrimitive.RadioGroup" props v

  unfoldable pub dropdown_menu_sub_trigger : List (Attr A) → View A → View A
  unfolding styled
  dropdown_menu_sub_trigger props v =
      styled lib "DropdownMenuPrimitive.SubTrigger"
        (some
            "flex cursor-default select-none items-center rounded-sm px-2 py-1.5 text-sm outline-none focus:bg-accent data-[state=open]:bg-accent"
          ∷ inset_class props
          ∷ [])
        (without ("inset" ∷ []) props)
        (v ⊕ el "ChevronRight" (prop "class" "ml-auto h-4 w-4" ∷ []) nothing)

  unfoldable pub dropdown_menu_sub_content : List (Attr A) → View A → View A
  unfolding styled
  dropdown_menu_sub_content props v =
      styled lib "DropdownMenuPrimitive.SubContent"
        (some
            "z-50 min-w-[8rem] overflow-hidden rounded-md border bg-popover p-1 text-popover-foreground shadow-lg"
          ∷ [])
        props v

  unfoldable pub dropdown_menu_content : List (Attr A) → View A → View A
  unfolding cn dropdown_menu_portal
  dropdown_menu_content props v = dropdown_menu_portal [] (
      el "DropdownMenuPrimitive.Content"
        (number "sideOffset" (get_or (number_of "sideOffset" props) 4)
          ∷ prop "class" (
              cn lib (
                some
                  "z-50 min-w-[8rem] overflow-hidden rounded-md border bg-popover p-1 text-popover-foreground shadow-md"
                ∷ attr "class" props
                ∷ []))
          ∷ without ("class" ∷ "sideOffset" ∷ []) props)
        v)

  unfoldable pub dropdown_menu_item : List (Attr A) → View A → View A
  unfolding styled
  dropdown_menu_item props v =
      styled lib "DropdownMenuPrimitive.Item"
        (some
            "relative flex cursor-default select-none items-center rounded-sm px-2 py-1.5 text-sm outline-none transition-colors focus:bg-accent focus:text-accent-foreground data-[disabled]:pointer-events-none data-[disabled]:opacity-50"
          ∷ inset_class props
          ∷ [])
        (without ("inset" ∷ []) props) v

  unfoldable pub dropdown_menu_checkbox_item : List (Attr A) → View A → View A
  unfolding styled
  dropdown_menu_checkbox_item props v =
      styled lib "DropdownMenuPrimitive.CheckboxItem"
        (some
            "relative flex cursor-default select-none items-center rounded-sm py-1.5 pl-8 pr-2 text-sm outline-none transition-colors focus:bg-accent focus:text-accent-foreground"
          ∷ [])
        props
        (el "span"
            (prop "class" "absolute left-2 flex h-3.5 w-3.5 items-center justify-center" ∷ [])
            (el "DropdownMenuPrimitive.ItemIndicator" []
              (el "Check" (prop "class" "h-4 w-4" ∷ []) nothing))
          ⊕ v)

  unfoldable pub dropdown_menu_radio_item : List (Attr A) → View A → View A
  unfolding styled
  dropdown_menu_radio_item props v =
      styled lib "DropdownMenuPrimitive.RadioItem"
        (some
            "relative flex cursor-default select-none items-center rounded-sm py-1.5 pl-8 pr-2 text-sm outline-none transition-colors focus:bg-accent"
          ∷ [])
        props
        (el "span"
            (prop "class" "absolute left-2 flex h-3.5 w-3.5 items-center justify-center" ∷ [])
            (el "DropdownMenuPrimitive.ItemIndicator" []
              (el "Circle" (prop "class" "h-2 w-2 fill-current" ∷ []) nothing))
          ⊕ v)

  unfoldable pub dropdown_menu_label : List (Attr A) → View A → View A
  unfolding styled
  dropdown_menu_label props v =
      styled lib "DropdownMenuPrimitive.Label"
        (some "px-2 py-1.5 text-sm font-semibold" ∷ inset_class props ∷ [])
        (without ("inset" ∷ []) props) v

  unfoldable pub dropdown_menu_separator : List (Attr A) → View A → View A
  unfolding styled
  dropdown_menu_separator props v =
      styled lib "DropdownMenuPrimitive.Separator" (some "-mx-1 my-1 h-px bg-muted" ∷ []) props v

  unfoldable pub dropdown_menu_shortcut : List (Attr A) → View A → View A
  unfolding styled
  dropdown_menu_shortcut props v =
      styled lib "span" (some "ml-auto text-xs tracking-widest opacity-60" ∷ []) props v
