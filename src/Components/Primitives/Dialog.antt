-- ===== src/Components/Primitives/Dialog.antt =====
-- components/ui/dialog.tsx
use hcl_assignment.Common.{some, List, [], ◌∷◌}
use hcl_assignment.Ui.{View, el, text, nothing, ◌⊕◌, Attr, prop}
use hcl_assignment.Components.Primitives.{Classes, styled}

module _ {A : Type 0} (lib : Classes) where
  unfoldable pub dialog : List (Attr A) → View A → View A
  dialog props v = el "DialogPrimitive.Root" props v

  unfoldable pub dialog_trigger : List (Attr A) → View A → View A
  dialog_trigger props v = el "DialogPrimitive.Trigger" props v

  unfoldable pub dialog_portal : List (Attr A) → View A → View A
  dialog_portal props v = el "DialogPrimitive.Portal" props v

  unfoldable pub dialog_close : List (Attr A) → View A → View A
  dialog_close props v = el "DialogPrimitive.Close" props v

  unfoldable pub dialog_overlay : List (Attr A) → View A → View A
  unfolding styled
  dialog_overlay props v =
      styled lib "DialogPrimitive.Overlay"
        (some
            "fixed inset-0 z-50 bg-black/80 data-[state=open]:animate-in data-[state=closed]:animate-out data-[state=closed]:fade-out-0 data-[state=open]:fade-in-0"
          ∷ [])
        props v

  unfoldable pub dialog_content : List (Attr A) → View A → View A
  unfolding styled dialog_portal dialog_overlay dialog_close
  dialog_content props v = dialog_portal [] (
      dialog_overlay [] nothing
      ⊕ styled lib "DialogPrimitive.Content"
          (some
              "fixed left-[50%] top-[50%] z-50 grid w-full max-w-lg translate-x-[-50%] translate-y-[-50%] gap-4 border bg-background p-6 shadow-lg duration-200 data-[state=open]:animate-in data-[state=closed]:animate-out data-[state=closed]:fade-out-0 data-[state=open]:fade-in-0 data-[state=closed]:zoom-out-95 data-[state=open]:zoom-in-95 data-[state=closed]:slide-out-to-left-1/2 data-[state=closed]:slide-out-to-top-[48%] data-[state=open]:slide-in-from-left-1/2 data-[state=open]:slide-in-from-top-[48%] sm:rounded-lg"
            ∷ [])
          props
          (v
            ⊕ dialog_close
                (prop "class"
                    "absolute right-4 top-4 rounded-sm opacity-70 ring-offset-background transition-opacity hover:opacity-100 focus:outline-none focus:ring-2 focus:ring-ring focus:ring-offset-2"
                  ∷ [])
                (el "X" (prop "class" "h-4 w-4" ∷ []) nothing
                  ⊕ el "span" (prop "class" "sr-only" ∷ []) (text "Close"))))

  unfoldable pub dialog_header : List (Attr A) → View A → View A
  unfolding styled
  dialog_header props v =
      styled lib "div" (some "flex flex-col space-y-1.5 text-center sm:text-left" ∷ []) props v

  unfoldable pub dialog_footer : List (Attr A) → View A → View A
  unfolding styled
  dialog_footer props v =
      styled lib "div" (some "flex flex-col-reverse sm:flex-row sm:justify-end sm:space-x-2" ∷ [])
        props v

  unfoldable pub dialog_title : List (Attr A) → View A → View A
  unfolding styled
  dialog_title props v =
      styled lib "DialogPrimitive.Title"
        (some "text-lg font-semibold leading-none tracking-tight" ∷ []) props v

  unfoldable pub dialog_description : List (Attr A) → View A → View A
  unfolding styled
  dialog_description props v =
      styled lib "DialogPrimitive.Description" (some "text-sm text-muted-foreground" ∷ []) props v
