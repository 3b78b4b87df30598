-- ===== src/Components/PollCard.antt =====
-- components/polls/PollCard.tsx. Both callbacks are given by the dashboard, its only user; the number
-- of votes is not, and stays at its default 0.
use hcl_assignment.Common.{String, Bool, true, false, List, [], ◌∷◌, ◌⧺◌}
use hcl_assignment.Services.Model.{Poll, is_active}
use hcl_assignment.Utils.Constants.{share_url}
use hcl_assignment.Effects.{
  Effect, toast_success, toast_error, navigate, open_window, write_clipboard,
}
use hcl_assignment.Components.Status.{poll_status}
use hcl_assignment.Ui.{View, el, text, count, ◌⊕◌, nothing, icon, when, prop, on_click, flag}

pub data CardAction : Type 0 where
  manage : CardAction
  copy_link : CardAction
  link_copied : Bool → CardAction
  open_poll : CardAction

-- The card has no state of its own.
unfoldable pub card_step : String → Poll → CardAction → List Effect
card_step origin poll manage = navigate ("/polls/" ⧺ poll.id ⧺ "/manage") ∷ []
card_step origin poll copy_link = write_clipboard (share_url origin poll.share_code) ∷ []
card_step origin poll (link_copied true) = toast_success "Link copied to clipboard" ∷ []
card_step origin poll (link_copied false) = toast_error "Failed to copy link" ∷ []
card_step origin poll open_poll = open_window (share_url origin poll.share_code) ∷ []

-- `formatDate` is the browser's, an argument.
module _ {A : Type 0} (own : Poll → CardAction → A) (on_delete on_close : Poll → A)
    (format_date : String → String) where
  unfoldable pub poll_card : Poll → View A
  poll_card poll = el "Card" [] (
      el "CardHeader" [] (
        el "div" [] (
          el "h3" [] (text poll.title)
          ⊕ el "DropdownMenu" [] (
              el "DropdownMenuTrigger" (flag "asChild" ∷ []) (
                el "Button" (prop "variant" "ghost" ∷ prop "size" "icon" ∷ [])
                  (icon "MoreHorizontal"))
              ⊕ el "DropdownMenuContent" [] (
                  el "DropdownMenuItem" (on_click (own poll manage) ∷ [])
                    (icon "BarChart2" ⊕ text " Manage")
                  ⊕ el "DropdownMenuItem" (on_click (own poll copy_link) ∷ [])
                      (icon "Copy" ⊕ text " Copy link")
                  ⊕ el "DropdownMenuItem" (on_click (own poll open_poll) ∷ [])
                      (icon "ExternalLink" ⊕ text " Open poll")
                  ⊕ when (is_active poll.status) (
                      el "DropdownMenuItem" (on_click (on_close poll) ∷ [])
                        (icon "XCircle" ⊕ text " Close poll"))
                  ⊕ el "DropdownMenuSeparator" [] nothing
                  ⊕ el "DropdownMenuItem" (on_click (on_delete poll) ∷ [])
                      (icon "Trash2" ⊕ text " Delete")))))
      ⊕ el "CardContent" [] (
          el "div" [] (
            poll_status poll.status
            ⊕ el "div" [] (
                el "div" [] (count 0 ⊕ text " votes")
                ⊕ el "div" [] (text (format_date poll.created_at))))))
