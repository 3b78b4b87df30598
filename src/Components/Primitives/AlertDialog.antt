-- ===== src/Components/Primitives/AlertDialog.antt =====
-- components/ui/alert-dialog.tsx
use hcl_assignment.Common.{some, List, [], ◌∷◌}
use hcl_assignment.Ui.{View, el, nothing, ◌⊕◌, Attr}
use hcl_assignment.Components.Primitives.{Classes, styled}
use hcl_assignment.Components.Primitives.Button.{button_variants}

module _ {A : Type 0} (lib : Classes) where
  unfoldable pub alert_dialog : List (Attr A) → View A → View A
  alert_dialog props v = el "AlertDialogPrimitive.Root" props v

  unfoldable pub alert_dialog_trigger : List (Attr A) → View A → View A
  alert_dialog_trigger props v = el "AlertDialogPrimitive.Trigger" props v

  unfoldable pub alert_dialog_portal : List (Attr A) → View A → View A
  alert_dialog_portal props v = el "AlertDialogPrimitive.Portal" props v

  unfoldable pub alert_dialog_overlay : List (Attr A) → View A → View A
  unfolding styled
  alert_dialog_overlay props v =
      styled lib "AlertDialogPrimitive.Overlay" (some "fixed inset-0 z-50 bg-black/80" ∷ []) props v

  unfoldable pub alert_dialog_content : List (Attr A) → View A → View A
  unfolding styled alert_dialog_portal alert_dialog_overlay
  alert_dialog_content props v = alert_dialog_portal [] (
      alert_dialog_overlay [] nothing
      ⊕ styled lib "AlertDialogPrimitive.Content"
          (some
              "fixed left-[50%] top-[50%] z-50 grid w-full max-w-lg translate-x-[-50%] translate-y-[-50%] gap-4 border bg-background p-6 shadow-lg sm:rounded-lg"
            ∷ [])
          props v)

  unfoldable pub alert_dialog_header : List (Attr A) → View A → View A
  unfolding styled
  alert_dialog_header props v =
      styled lib "div" (some "flex flex-col space-y-2 text-center sm:text-left" ∷ []) props v

  unfoldable pub alert_dialog_footer : List (Attr A) → View A → View A
  unfolding styled
  alert_dialog_footer props v =
      styled lib "div" (some "flex flex-col-reverse sm:flex-row sm:justify-end sm:space-x-2" ∷ [])
        props v

  unfoldable pub alert_dialog_title : List (Attr A) → View A → View A
  unfolding styled
  alert_dialog_title props v =
      styled lib "AlertDialogPrimitive.Title" (some "text-lg font-semibold" ∷ []) props v

  unfoldable pub alert_dialog_description : List (Attr A) → View A → View A
  unfolding styled
  alert_dialog_description props v =
      styled lib "AlertDialogPrimitive.Description" (some "text-sm text-muted-foreground" ∷ [])
        props v

  unfoldable pub alert_dialog_action : List (Attr A) → View A → View A
  unfolding styled button_variants
  alert_dialog_action props v =
      styled lib "AlertDialogPrimitive.Action" (some (button_variants lib []) ∷ []) props v

  unfoldable pub alert_dialog_cancel : List (Attr A) → View A → View A
  unfolding styled button_variants
  alert_dialog_cancel props v =
      styled lib "AlertDialogPrimitive.Cancel"
        (some (button_variants lib (("variant", some "outline") ∷ [])) ∷ some "mt-2 sm:mt-0" ∷ [])
        props v
