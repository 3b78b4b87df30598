-- ===== src/Pages/ManagePoll.antt =====
-- pages/ManagePoll.tsx
pub mod Requests
pub mod Offered
pub mod Coupled
use hcl_assignment.Common.{
  ℕ, String, Bool, true, false, not, Option, none, some, List, [], ◌∷◌, ◌⧺◌, truthy, is_some,
  if◌then◌else◌,
}
use hcl_assignment.Services.Model.{Poll, PollOption, PollResults, User, is_active}
use hcl_assignment.Services.Api.{Result, ok, err}
use hcl_assignment.Effects.{
  Effect, call, load_poll, close_poll, delete_poll, toast_success, toast_error, navigate,
  open_window, write_clipboard,
}
use hcl_assignment.Realtime.{WsStatus, Hook}
use hcl_assignment.Utils.Constants.{share_url}
use hcl_assignment.Components.Status.{live_indicator, poll_status}
use hcl_assignment.Components.Chart.{chart_of}
use hcl_assignment.Components.Dialogs.{
  ShareAction, share_step, share_poll_dialog, delete_poll_dialog,
}
use hcl_assignment.Components.Layout.{sidebar, sidebar_logout}
use hcl_assignment.Pages.Live.{or_null, id_of, follow, live_results}
use hcl_assignment.Ui.{
  View, el, text, ◌⊕◌, nothing, icon, when, each, prop, shown, disabled, on_click, on_open_change,
}

pub record State : Type 0 where
  pub poll : Option Poll
  pub initial_results : Option PollResults
  pub is_loading : Bool
  pub show_share : Bool
  pub show_delete : Bool
  pub show_close : Bool
  pub is_deleting : Bool
  pub is_closing : Bool
  pub copied : Bool

unfoldable pub init : State
init = record {
  poll = none;
  initial_results = none;
  is_loading = true;
  show_share = false;
  show_delete = false;
  show_close = false;
  is_deleting = false;
  is_closing = false;
  copied = false;
}

-- The data of the answer of `getById`: a poll, or an object that holds it under `poll`.
pub data PollAnswer : Type 0 where
  bare : Poll → PollAnswer
  attached : Poll → PollAnswer

-- `p.poll || p`
abbrev pub poll_data : PollAnswer → Poll
poll_data (bare p) = p
poll_data (attached p) = p

-- `load` up to the calls.
unfoldable pub load : Option String → List Effect
load none = []
load (some id) = if truthy id then call (load_poll id) ∷ [] else []

-- `load` from the answers. Without data in the first one, reading its `poll` throws.
unfoldable pub load_settled :
    Result (Option PollAnswer) → Result (Option PollResults) → State → State × List Effect
load_settled (ok (some answer)) results s = (
  record s {
    poll = some (poll_data answer);
    initial_results = or_null results;
    is_loading = false;
  },
  [],
)
load_settled (ok none) results s =
    (record s { is_loading = false }, toast_error "Failed to load poll" ∷ [])
load_settled (err e) results s =
    (record s { is_loading = false }, toast_error "Failed to load poll" ∷ [])

-- handleCopyLink
copy_link : String → Option Poll → List Effect
copy_link origin none = []
copy_link origin (some p) = write_clipboard (share_url origin p.share_code) ∷ []

copied_toast : Bool → List Effect
copied_toast true = toast_success "Link copied!" ∷ []
copied_toast false = toast_error "Failed to copy" ∷ []

open_link : String → Option Poll → List Effect
open_link origin none = []
open_link origin (some p) = open_window (share_url origin p.share_code) ∷ []

close_for : Option Poll → State → State × List Effect
close_for none s = (s, [])
close_for (some p) s = (record s { is_closing = true }, call (close_poll p.id) ∷ [])

-- handleClose up to the call, and from its answer.
unfoldable pub handle_close : State → State × List Effect
unfolding close_for
handle_close s = close_for s.poll s

unfoldable pub close_settled : Result (Option Poll) → State → State × List Effect
close_settled (ok updated) s = (
  record s { poll = updated; is_closing = false; show_close = false },
  toast_success "Poll closed" ∷ [],
)
close_settled (err e) s =
    (record s { is_closing = false; show_close = false }, toast_error "Failed to close poll" ∷ [])

delete_for : Option Poll → State → State × List Effect
delete_for none s = (s, [])
delete_for (some p) s = (record s { is_deleting = true }, call (delete_poll p.id) ∷ [])

-- handleDelete up to the call, and from its answer.
unfoldable pub handle_delete : State → State × List Effect
unfolding delete_for
handle_delete s = delete_for s.poll s

unfoldable pub delete_settled : Result (Option Unit) → State → State × List Effect
delete_settled (ok answer) s =
    (record s { is_deleting = false }, toast_success "Poll deleted" ∷ navigate "/dashboard" ∷ [])
delete_settled (err e) s =
    (record s { is_deleting = false }, toast_error "Failed to delete poll" ∷ [])

pub data Action : Type 0 where
  loaded : Result (Option PollAnswer) → Result (Option PollResults) → Action
  copy copy_and_open : Action
  copied_link : Bool → Action
  share_open delete_open close_open : Bool → Action
  confirm_close confirm_delete : Action
  closed_poll : Result (Option Poll) → Action
  deleted_poll : Result (Option Unit) → Action
  share : ShareAction → Action
  back logout : Action

abbrev share_url_of : String → Option Poll → String
share_url_of origin none = ""
share_url_of origin (some p) = share_url origin p.share_code

shared : Bool × List Effect → State → State × List Effect
shared (copied, effects) s = (record s { copied = copied }, effects)

unfoldable pub step : String → Action → State → State × List Effect
unfolding load_settled copy_link copied_toast open_link handle_close close_settled handle_delete
    delete_settled shared
step origin (loaded answer results) s = load_settled answer results s
step origin copy s = (s, copy_link origin s.poll)
step origin copy_and_open s = (s, open_link origin s.poll)
step origin (copied_link done) s = (s, copied_toast done)
step origin (share_open is_open) s = (record s { show_share = is_open }, [])
step origin (delete_open is_open) s = (record s { show_delete = is_open }, [])
step origin (close_open is_open) s = (record s { show_close = is_open }, [])
step origin confirm_close s = handle_close s
step origin confirm_delete s = handle_delete s
step origin (closed_poll answer) s = close_settled answer s
step origin (deleted_poll answer) s = delete_settled answer s
step origin (share a) s = shared (share_step (share_url_of origin s.poll) a s.copied) s
step origin back s = (s, navigate "/dashboard" ∷ [])
step origin logout s = (s, sidebar_logout)

-- The initial results that an action sets, if it sets them.
abbrev pub sets_initial : Action → Option (Option PollResults)
sets_initial (loaded (ok (some answer)) results) = some (or_null results)
sets_initial _ = none

pub record Screen : Type 0 where
  pub page : State
  pub hook : Hook

unfoldable pub act : String → Action → Screen → Screen
act origin a s =
    let page = (step origin a s.page).0 in
    record {
      page = page;
      hook = follow (id_of s.page.poll) (id_of page.poll) (sets_initial a) s.hook;
    }

skeleton : View Action
skeleton = el "Card" [] (
    el "CardContent" [] (
      el "Skeleton" [] nothing
      ⊕ each {B = String} (λ i. el "Skeleton" [] nothing) ("1" ∷ "2" ∷ "3" ∷ [])))

shown_results : List PollOption → Option PollResults → View Action
shown_results options none =
    el "p" [] (text "No votes yet. Share your poll link to start collecting responses.")
shown_results options (some r) = chart_of options r

details_card : String → WsStatus → Poll → View Action
details_card origin status p = el "Card" [] (
    el "CardHeader" [] (
      el "div" [] (
        el "div" [] (
          el "div" [] (poll_status p.status ⊕ live_indicator status)
          ⊕ el "CardTitle" [] (text p.title)
          ⊕ when (truthy p.description) (el "p" [] (text p.description)))))
    ⊕ el "CardContent" [] (
        el "div" [] (
          el "code" [] (text (share_url origin p.share_code))
          ⊕ el "Button" (prop "size" "icon" ∷ prop "variant" "ghost" ∷ on_click copy ∷ [])
              (icon "Copy")
          ⊕ el "Button" (prop "size" "icon" ∷ prop "variant" "ghost" ∷ on_click copy_and_open ∷ [])
              (icon "ExternalLink"))
        ⊕ el "Separator" [] nothing
        ⊕ el "div" [] (
            el "Button" (prop "variant" "outline" ∷ on_click (share_open true) ∷ [])
              (icon "Share2" ⊕ text " Share")
            ⊕ when (is_active p.status) (
                el "Button" (prop "variant" "outline" ∷ on_click (close_open true) ∷ [])
                  (icon "XCircle" ⊕ text " Close Poll"))
            ⊕ el "Button" (prop "variant" "outline" ∷ on_click (delete_open true) ∷ [])
                (icon "Trash2" ⊕ text " Delete"))))

poll_part : String → WsStatus → Option PollResults → Option Poll → View Action
unfolding details_card shown_results
poll_part origin status live none = nothing
poll_part origin status live (some p) =
    details_card origin status p
    ⊕ el "Card" [] (
        el "CardHeader" [] (el "CardTitle" [] (text "Live Results"))
        ⊕ el "CardContent" [] (shown_results p.options live))

share_part : String → State → Option Poll → View Action
share_part origin s none = nothing
share_part origin s (some p) =
    share_poll_dialog share share_open origin s.copied s.show_share p.share_code p.title

close_dialog : State → View Action
close_dialog s = el "AlertDialog" (shown s.show_close ∷ on_open_change close_open ∷ []) (
    el "AlertDialogContent" [] (
      el "AlertDialogHeader" [] (
        el "AlertDialogTitle" [] (text "Close poll?")
        ⊕ el "AlertDialogDescription" [] (
            text "Closing this poll will permanently stop accepting new votes from your audience."))
      ⊕ el "AlertDialogFooter" [] (
          el "AlertDialogCancel" (disabled s.is_closing ∷ []) (text "Cancel")
          ⊕ el "AlertDialogAction" (on_click confirm_close ∷ disabled s.is_closing ∷ [])
              (text (if s.is_closing then "Closing..." else "Close Poll")))))

unfoldable pub render : String → String → Option User → Screen → View Action
unfolding skeleton poll_part share_part close_dialog
render origin pathname user s = el "div" [] (
    el "div" [] (sidebar logout pathname user)
    ⊕ el "main" [] (
        el "div" [] (
          el "div" [] (
            el "Button" (prop "variant" "ghost" ∷ prop "size" "icon" ∷ on_click back ∷ [])
              (icon "ArrowLeft")
            ⊕ el "h1" [] (text "Manage Poll"))
          ⊕ (if s.page.is_loading
              then skeleton
              else poll_part origin s.hook.status
                  (live_results s.hook.results s.page.initial_results) s.page.poll)))
    ⊕ share_part origin s.page s.page.poll
    ⊕ delete_poll_dialog delete_open confirm_delete s.page.poll s.page.show_delete
        s.page.is_deleting
    ⊕ close_dialog s.page)
