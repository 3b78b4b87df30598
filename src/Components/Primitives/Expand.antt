-- ===== src/Components/Primitives/Expand.antt =====
-- The pages' views with each component of components/ui replaced by what it renders.
use hcl_assignment.Common.{String, Option, none, some, List, [], ◌∷◌, ◌==◌, or_else, if◌then◌else◌}
use hcl_assignment.Ui.{View, nothing, text, count, el, seq, Attr}
use hcl_assignment.Components.Primitives.{Classes}
use hcl_assignment.Components.Primitives.Button.{button, badge}
use hcl_assignment.Components.Primitives.Card.{
  card, card_header, card_title, card_description, card_content, card_footer,
}
use hcl_assignment.Components.Primitives.Fields.{
  input, textarea, label, radio_group, radio_group_item,
}
use hcl_assignment.Components.Primitives.Panels.{
  tabs, tabs_list, tabs_trigger, tabs_content, separator, skeleton, progress,
}
use hcl_assignment.Components.Primitives.Dialog.{
  dialog, dialog_trigger, dialog_portal, dialog_close, dialog_overlay, dialog_content,
  dialog_header, dialog_footer, dialog_title, dialog_description,
}
use hcl_assignment.Components.Primitives.AlertDialog.{
  alert_dialog, alert_dialog_trigger, alert_dialog_portal, alert_dialog_overlay,
  alert_dialog_content, alert_dialog_header, alert_dialog_footer, alert_dialog_title,
  alert_dialog_description, alert_dialog_action, alert_dialog_cancel,
}
use hcl_assignment.Components.Primitives.Menu.{
  dropdown_menu, dropdown_menu_trigger, dropdown_menu_group, dropdown_menu_portal,
  dropdown_menu_sub, dropdown_menu_radio_group, dropdown_menu_sub_trigger,
  dropdown_menu_sub_content, dropdown_menu_content, dropdown_menu_item, dropdown_menu_checkbox_item,
  dropdown_menu_radio_item, dropdown_menu_label, dropdown_menu_separator, dropdown_menu_shortcut,
}

abbrev pub Wrapper : Type 0 → Type 0
Wrapper A = List (Attr A) → View A → View A

abbrev pub find_wrapper : {A : Type 0} → String → List (String × Wrapper A) → Option (Wrapper A)
find_wrapper name [] = none
find_wrapper name ((n, f) ∷ table) = if name == n then some f else find_wrapper name table

abbrev pub find_in : {A : Type 0} → String → List (List (String × Wrapper A)) → Option (Wrapper A)
find_in name [] = none
find_in name (table ∷ tables) = or_else (find_wrapper name table) (find_in name tables)

module _ {A : Type 0} (lib : Classes) where
  unfoldable pub button_wrappers : List (String × Wrapper A)
  unfolding button badge
  button_wrappers = ("Button", button lib) ∷ ("Badge", badge lib) ∷ []

  unfoldable pub card_wrappers : List (String × Wrapper A)
  unfolding card card_header card_title card_description card_content card_footer
  card_wrappers =
      ("Card", card lib)
      ∷ ("CardHeader", card_header lib)
      ∷ ("CardTitle", card_title lib)
      ∷ ("CardDescription", card_description lib)
      ∷ ("CardContent", card_content lib)
      ∷ ("CardFooter", card_footer lib)
      ∷ []

  unfoldable pub input_wrappers : List (String × Wrapper A)
  unfolding input textarea label radio_group radio_group_item
  input_wrappers =
      ("Input", input lib)
      ∷ ("Textarea", textarea lib)
      ∷ ("Label", label lib)
      ∷ ("RadioGroup", radio_group lib)
      ∷ ("RadioGroupItem", radio_group_item lib)
      ∷ []

  unfoldable pub tabs_wrappers : List (String × Wrapper A)
  unfolding tabs tabs_list tabs_trigger tabs_content separator skeleton progress
  tabs_wrappers =
      ("Tabs", tabs lib)
      ∷ ("TabsList", tabs_list lib)
      ∷ ("TabsTrigger", tabs_trigger lib)
      ∷ ("TabsContent", tabs_content lib)
      ∷ ("Separator", separator lib)
      ∷ ("Skeleton", skeleton lib)
      ∷ ("Progress", progress lib)
      ∷ []

  unfoldable pub dialog_wrappers : List (String × Wrapper A)
  unfolding dialog dialog_trigger dialog_portal dialog_close dialog_overlay dialog_content
      dialog_header dialog_footer dialog_title dialog_description
  dialog_wrappers =
      ("Dialog", dialog lib)
      ∷ ("DialogTrigger", dialog_trigger lib)
      ∷ ("DialogPortal", dialog_portal lib)
      ∷ ("DialogClose", dialog_close lib)
      ∷ ("DialogOverlay", dialog_overlay lib)
      ∷ ("DialogContent", dialog_content lib)
      ∷ ("DialogHeader", dialog_header lib)
      ∷ ("DialogFooter", dialog_footer lib)
      ∷ ("DialogTitle", dialog_title lib)
      ∷ ("DialogDescription", dialog_description lib)
      ∷ []

  unfoldable pub alert_dialog_wrappers : List (String × Wrapper A)
  unfolding alert_dialog alert_dialog_trigger alert_dialog_portal alert_dialog_overlay
      alert_dialog_content alert_dialog_header alert_dialog_footer alert_dialog_title
      alert_dialog_description alert_dialog_action alert_dialog_cancel
  alert_dialog_wrappers =
      ("AlertDialog", alert_dialog lib)
      ∷ ("AlertDialogTrigger", alert_dialog_trigger lib)
      ∷ ("AlertDialogPortal", alert_dialog_portal lib)
      ∷ ("AlertDialogOverlay", alert_dialog_overlay lib)
      ∷ ("AlertDialogContent", alert_dialog_content lib)
      ∷ ("AlertDialogHeader", alert_dialog_header lib)
      ∷ ("AlertDialogFooter", alert_dialog_footer lib)
      ∷ ("AlertDialogTitle", alert_dialog_title lib)
      ∷ ("AlertDialogDescription", alert_dialog_description lib)
      ∷ ("AlertDialogAction", alert_dialog_action lib)
      ∷ ("AlertDialogCancel", alert_dialog_cancel lib)
      ∷ []

  unfoldable pub dropdown_menu_wrappers : List (String × Wrapper A)
  unfolding dropdown_menu dropdown_menu_trigger dropdown_menu_group dropdown_menu_portal
      dropdown_menu_sub dropdown_menu_radio_group dropdown_menu_sub_trigger
      dropdown_menu_sub_content dropdown_menu_content dropdown_menu_item dropdown_menu_checkbox_item
      dropdown_menu_radio_item dropdown_menu_label dropdown_menu_separator dropdown_menu_shortcut
  dropdown_menu_wrappers =
      ("DropdownMenu", dropdown_menu lib)
      ∷ ("DropdownMenuTrigger", dropdown_menu_trigger lib)
      ∷ ("DropdownMenuGroup", dropdown_menu_group lib)
      ∷ ("DropdownMenuPortal", dropdown_menu_portal lib)
      ∷ ("DropdownMenuSub", dropdown_menu_sub lib)
      ∷ ("DropdownMenuRadioGroup", dropdown_menu_radio_group lib)
      ∷ ("DropdownMenuSubTrigger", dropdown_menu_sub_trigger lib)
      ∷ ("DropdownMenuSubContent", dropdown_menu_sub_content lib)
      ∷ ("DropdownMenuContent", dropdown_menu_content lib)
      ∷ ("DropdownMenuItem", dropdown_menu_item lib)
      ∷ ("DropdownMenuCheckboxItem", dropdown_menu_checkbox_item lib)
      ∷ ("DropdownMenuRadioItem", dropdown_menu_radio_item lib)
      ∷ ("DropdownMenuLabel", dropdown_menu_label lib)
      ∷ ("DropdownMenuSeparator", dropdown_menu_separator lib)
      ∷ ("DropdownMenuShortcut", dropdown_menu_shortcut lib)
      ∷ []

  -- The components of components/ui, by file.
  unfoldable pub components : List (List (String × Wrapper A))
  unfolding button_wrappers card_wrappers input_wrappers tabs_wrappers dialog_wrappers
      alert_dialog_wrappers dropdown_menu_wrappers
  components =
      button_wrappers ∷ card_wrappers ∷ input_wrappers ∷ tabs_wrappers ∷ dialog_wrappers
      ∷ alert_dialog_wrappers ∷ dropdown_menu_wrappers ∷ []

  unfoldable pub find_component : String → Option (Wrapper A)
  unfolding components
  find_component name = find_in name components

  unfoldable pub render_as : Option (Wrapper A) → String → List (Attr A) → View A → View A
  render_as none tag props v = el tag props v
  render_as (some f) tag props v = f props v

  unfoldable pub expand : View A → View A
  unfolding find_component render_as
  expand nothing = nothing
  expand (text s) = text s
  expand (count n) = count n
  expand (el tag props v) = render_as (find_component tag) tag props (expand v)
  expand (seq v w) = seq (expand v) (expand w)
