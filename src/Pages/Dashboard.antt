-- ===== src/Pages/Dashboard.antt =====
-- pages/Dashboard.tsx. The answer of `close` is taken to hold a poll, as its type says.
pub mod Polls
pub mod Offered
pub mod Requests
pub mod Deleted
use hcl_assignment.Common.{
  ℕ, String, Bool, true, false, not, Option, none, some, List, [], ◌∷◌, ◌⧺◌, map, filter, length,
  ltb, eqb, ◌==◌, is_some, get_or, first_word, if◌then◌else◌,
}
use hcl_assignment.Services.Model.{Poll, User, Status, is_active}
use hcl_assignment.Services.Api.{Result, ok, err}
use hcl_assignment.Effects.{
  Effect, call, list_polls, close_poll, delete_poll, toast_success, toast_error, navigate,
}
use hcl_assignment.Components.Dialogs.{delete_poll_dialog}
use hcl_assignment.Components.Layout.{sidebar, sidebar_logout}
use hcl_assignment.Components.PollCard.{CardAction, card_step, poll_card}
use hcl_assignment.Ui.{View, el, text, count, ◌⊕◌, nothing, icon, each, on_click}

pub record State : Type 0 where
  pub polls : List Poll
  pub is_loading : Bool
  pub deleting_poll : Option Poll
  pub is_deleting : Bool

unfoldable pub init : State
init = record { polls = []; is_loading = true; deleting_poll = none; is_deleting = false }

-- loadPolls from its answer, `data || []`.
unfoldable pub load_settled : Result (Option (List Poll)) → State → State × List Effect
load_settled (ok polls) s = (record s { polls = get_or polls []; is_loading = false }, [])
load_settled (err e) s = (record s { is_loading = false }, toast_error "Failed to load polls" ∷ [])

delete_for : Option Poll → State → State × List Effect
delete_for none s = (s, [])
delete_for (some p) s = (record s { is_deleting = true }, call (delete_poll p.id) ∷ [])

-- handleDelete up to the call.
unfoldable pub handle_delete : State → State × List Effect
unfolding delete_for
handle_delete s = delete_for s.deleting_poll s

-- handleDelete from its answer. The poll is the one that was captured before the call.
unfoldable pub delete_settled : Poll → Result (Option Unit) → State → State × List Effect
delete_settled poll (ok answer) s = (
  record s {
    polls = filter (λ p. not (p.id == poll.id)) s.polls;
    deleting_poll = none;
    is_deleting = false;
  },
  toast_success "Poll deleted" ∷ [],
)
delete_settled poll (err e) s =
    (record s { is_deleting = false }, toast_error "Failed to delete poll" ∷ [])

-- handleClose up to the call, and from its answer.
unfoldable pub handle_close : Poll → State → State × List Effect
handle_close poll s = (s, call (close_poll poll.id) ∷ [])

pub replace : Poll → Poll → Poll
replace updated p = if p.id == updated.id then updated else p

unfoldable pub close_settled : Result Poll → State → State × List Effect
unfolding replace
close_settled (ok updated) s =
    (record s { polls = map (replace updated) s.polls }, toast_success "Poll closed" ∷ [])
close_settled (err e) s = (s, toast_error "Failed to close poll" ∷ [])

pub data Action : Type 0 where
  loaded : Result (Option (List Poll)) → Action
  ask_delete : Poll → Action
  delete_open : Bool → Action
  confirm_delete : Action
  deleted : Poll → Result (Option Unit) → Action
  close : Poll → Action
  closed_poll : Result Poll → Action
  card : Poll → CardAction → Action
  create logout : Action

-- `onOpenChange` of the dialog: `!open && setDeletingPoll(null)`
dialog_changed : Bool → State → State
dialog_changed true s = s
dialog_changed false s = record s { deleting_poll = none }

unfoldable pub step : String → Action → State → State × List Effect
unfolding load_settled handle_delete delete_settled handle_close close_settled dialog_changed
step origin (loaded answer) s = load_settled answer s
step origin (ask_delete p) s = (record s { deleting_poll = some p }, [])
step origin (delete_open is_open) s = (dialog_changed is_open s, [])
step origin confirm_delete s = handle_delete s
step origin (deleted p answer) s = delete_settled p answer s
step origin (close p) s = handle_close p s
step origin (closed_poll answer) s = close_settled answer s
step origin (card p a) s = (s, card_step origin p a)
step origin create s = (s, navigate "/polls/create" ∷ [])
step origin logout s = (s, sidebar_logout)

unfoldable pub active_polls_count : List Poll → ℕ
active_polls_count polls = length (filter (λ p. is_active p.status) polls)

-- The hour is the browser's.
unfoldable pub greeting : ℕ → String
greeting h =
    if ltb h 12 then "Good morning" else if ltb h 18 then "Good afternoon" else "Good evening"

-- StatCard; a value is a number or a text.
stat_card : String → String → View Action → View Action
stat_card icon_name label value = el "Card" [] (
    el "CardContent" []
      (el "div" [] (icon icon_name) ⊕ el "div" [] (el "p" [] value ⊕ el "p" [] (text label))))

first_name : Option User → String
first_name none = ""
first_name (some u) = first_word u.name

header : ℕ → Option User → View Action
unfolding greeting first_name
header hour user = el "div" [] (
    el "div" [] (
      el "h1" [] (text (greeting hour ⧺ ", " ⧺ first_name user))
      ⊕ el "p" [] (text "Manage your polls and track live responses"))
    ⊕ el "Button" (on_click create ∷ []) (icon "Plus" ⊕ text " Create Poll"))

stats : List Poll → View Action
unfolding stat_card active_polls_count
stats polls = el "div" [] (
    stat_card "BarChart2" "Total Polls" (count (length polls))
    ⊕ stat_card "CheckCircle" "Active Polls" (count (active_polls_count polls))
    ⊕ stat_card "Users" "Poll Status"
        (text (if ltb 0 (active_polls_count polls) then "Ready" else "Idle")))

skeleton_card : View Action
skeleton_card = el "Card" [] (
    el "CardContent" []
      (el "Skeleton" [] nothing ⊕ el "Skeleton" [] nothing ⊕ el "Skeleton" [] nothing))

empty_view : View Action
empty_view = el "div" [] (
    icon "BarChart2"
    ⊕ el "h3" [] (text "No polls yet")
    ⊕ el "p" [] (text "Create your first poll and start collecting responses.")
    ⊕ el "Button" (on_click create ∷ []) (icon "Plus" ⊕ text " Create Poll"))

grid : (String → String) → State → View Action
unfolding skeleton_card empty_view
grid format_date s =
    if s.is_loading
    then el "div" [] (skeleton_card ⊕ skeleton_card ⊕ skeleton_card)
    else if eqb (length s.polls) 0
    then empty_view
    else el "div" [] (each (poll_card card ask_delete close format_date) s.polls)

unfoldable pub render : String → Option User → ℕ → (String → String) → State → View Action
unfolding header stats grid
render pathname user hour format_date s = el "div" [] (
    el "div" [] (sidebar logout pathname user)
    ⊕ el "main" [] (
        el "div" [] (
          header hour user
          ⊕ stats s.polls
          ⊕ el "div" [] (el "h2" [] (text "Your Polls") ⊕ grid format_date s)))
    ⊕ delete_poll_dialog delete_open confirm_delete s.deleting_poll (is_some s.deleting_poll)
        s.is_deleting)
