-- ===== src/Components/Dialogs.antt =====
-- components/polls/SharePollDialog.tsx and components/polls/DeletePollDialog.tsx
use hcl_assignment.Common.{
  String, Bool, true, false, Option, none, some, List, [], ◌∷◌, ◌⧺◌, if◌then◌else◌,
}
use hcl_assignment.Services.Model.{Poll}
use hcl_assignment.Utils.Constants.{share_url}
use hcl_assignment.Effects.{
  Effect, toast_success, toast_error, open_window, write_clipboard, start_timeout,
}
use hcl_assignment.Ui.{
  View, el, text, ◌⊕◌, nothing, icon, prop, number, flag, shown, disabled, on_click, on_open_change,
}

-- `copied` is the state of the dialog. The answer of the clipboard and the timeout come back as
-- actions.
pub data ShareAction : Type 0 where
  copy : ShareAction
  copy_done : Bool → ShareAction
  copy_expired : ShareAction
  open_share : ShareAction

unfoldable pub share_step : String → ShareAction → Bool → Bool × List Effect
share_step url copy copied = (copied, write_clipboard url ∷ [])
share_step url (copy_done true) copied = (true, toast_success "Link copied!" ∷ start_timeout ∷ [])
share_step url (copy_done false) copied = (copied, toast_error "Failed to copy" ∷ [])
share_step url copy_expired copied = (false, [])
share_step url open_share copied = (copied, open_window url ∷ [])

module _ {A : Type 0} (own : ShareAction → A) (on_change_open : Bool → A) where
  unfoldable pub share_poll_dialog : String → Bool → Bool → String → String → View A
  share_poll_dialog origin copied is_open share_code poll_title =
      let url = share_url origin share_code in
      el "Dialog" (shown is_open ∷ on_open_change on_change_open ∷ []) (
        el "DialogContent" [] (
          el "DialogHeader" []
            (el "DialogTitle" [] (text "Share Poll") ⊕ el "DialogDescription" [] (text poll_title))
          ⊕ el "Tabs" (prop "defaultValue" "link" ∷ []) (
              el "TabsList" [] (
                el "TabsTrigger" (prop "value" "link" ∷ []) (text "Link")
                ⊕ el "TabsTrigger" (prop "value" "qr" ∷ []) (text "QR Code"))
              ⊕ el "TabsContent" (prop "value" "link" ∷ []) (
                  el "div" [] (
                    el "Label" [] (text "Poll URL")
                    ⊕ el "div" [] (
                        el "Input" (prop "value" url ∷ flag "readOnly" ∷ []) nothing
                        ⊕ el "Button"
                            (prop "size" "icon"
                              ∷ prop "variant" "outline"
                              ∷ on_click (own copy)
                              ∷ [])
                            (if copied then icon "Check" else icon "Copy")))
                  ⊕ el "div" [] (
                      el "Button" (on_click (own copy) ∷ [])
                        (text (if copied then "Copied!" else "Copy Link"))
                      ⊕ el "Button" (prop "variant" "outline" ∷ on_click (own open_share) ∷ [])
                          (icon "ExternalLink")))
              ⊕ el "TabsContent" (prop "value" "qr" ∷ []) (
                  el "div" []
                    (el "QRCodeCanvas" (prop "value" url ∷ number "size" 200 ∷ []) nothing)
                  ⊕ el "p" [] (text "Scan this QR code to open the poll")))))

-- `poll?.title`
abbrev title_of : Option Poll → String
title_of none = ""
title_of (some p) = p.title

module _ {A : Type 0} (on_change_open : Bool → A) (on_confirm : A) where
  unfoldable pub delete_poll_dialog : Option Poll → Bool → Bool → View A
  delete_poll_dialog poll is_open is_loading =
      el "AlertDialog" (shown is_open ∷ on_open_change on_change_open ∷ []) (
        el "AlertDialogContent" [] (
          el "AlertDialogHeader" [] (
            el "AlertDialogTitle" [] (text "Delete Poll")
            ⊕ el "AlertDialogDescription" [] (
                text "Are you sure you want to delete "
                ⊕ el "strong" [] (text ("\"" ⧺ title_of poll ⧺ "\""))
                ⊕ text
                    "? This action cannot be undone. All votes will also be permanently deleted."))
          ⊕ el "AlertDialogFooter" [] (
              el "AlertDialogCancel" (disabled is_loading ∷ []) (text "Cancel")
              ⊕ el "AlertDialogAction" (on_click on_confirm ∷ disabled is_loading ∷ [])
                  (text (if is_loading then "Deleting..." else "Delete Poll")))))
