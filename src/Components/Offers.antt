-- ===== src/Components/Offers.antt =====
-- What the components offer to click, for any test on the actions of the page that uses them.
use hcl_assignment.Common.{
  String, Bool, true, false, not, ◌&&◌, ◌||◌, Option, none, some, List, [], get_or, ◌≡◌, refl,
  arith,
}
use hcl_assignment.Services.Model.{
  Poll, PollOption, PollResults, User, Status, active, closed, is_active,
}
use hcl_assignment.Realtime.{WsStatus, connecting, connected, reconnecting, disconnected}
use hcl_assignment.Ui.{offers}
use hcl_assignment.Ui.Offers.{offers-each-none}
use hcl_assignment.Components.Status.{live_indicator, poll_status}
use hcl_assignment.Components.Chart.{Bar, bars, result_bar, chart_of}
use hcl_assignment.Components.Dialogs.{
  ShareAction, copy, open_share, share_poll_dialog, delete_poll_dialog,
}
use hcl_assignment.Components.PollCard.{CardAction, manage, copy_link, open_poll, poll_card}
use hcl_assignment.Components.Layout.{sidebar, navbar}

module _ {A : Type 0} (p : A → Bool) where
  pub offers-poll_status : (status : Status) → offers p (poll_status status) ≡ false
  unfolding offers poll_status
  offers-poll_status active = refl
  offers-poll_status closed = refl

  pub offers-live_indicator : (status : WsStatus) → offers p (live_indicator status) ≡ false
  unfolding offers live_indicator
  offers-live_indicator connecting = refl
  offers-live_indicator connected = refl
  offers-live_indicator reconnecting = refl
  offers-live_indicator disconnected = refl

  offers-result_bar : (b : Bar) → offers p (result_bar b) ≡ false
  unfolding offers result_bar
  offers-result_bar b = ground arith

  pub offers-chart_of :
      (options : List PollOption) (results : PollResults)
      → offers p (chart_of options results) ≡ false
  unfolding offers chart_of
  offers-chart_of options results =
      offers-each-none p result_bar
        (bars options (get_or results.counts []) (get_or results.total_votes 0)) offers-result_bar

  pub offers-sidebar :
      (logout : A) (pathname : String) (user : Option User)
      → offers p (sidebar logout pathname user) ≡ p logout
  unfolding offers sidebar
  offers-sidebar logout pathname none = ground arith
  offers-sidebar logout pathname (some u) = ground arith

  pub offers-navbar :
      (logout : A) (is_authenticated : Bool)
      → offers p (navbar logout is_authenticated) ≡ (is_authenticated && p logout)
  unfolding offers navbar
  offers-navbar logout true = ground arith
  offers-navbar logout false = refl

  pub offers-share_poll_dialog :
      (own : ShareAction → A) (on_change_open : Bool → A) (origin : String) (copied is_open : Bool)
      (share_code title : String)
      → p (own copy) ≡ false
      → p (own open_share) ≡ false
      → offers p (share_poll_dialog own on_change_open origin copied is_open share_code title)
        ≡ false
  unfolding offers share_poll_dialog
  offers-share_poll_dialog own on_change_open origin copied is_open share_code title c o =
      ground arith

  -- The dialog's confirmation is offered while the dialog is open and nothing is being deleted.
  pub offers-delete_poll_dialog :
      (on_change_open : Bool → A) (on_confirm : A) (poll : Option Poll) (is_open is_loading : Bool)
      → offers p (delete_poll_dialog on_change_open on_confirm poll is_open is_loading)
        ≡ (is_open && (not is_loading && p on_confirm))
  unfolding offers delete_poll_dialog
  offers-delete_poll_dialog on_change_open on_confirm poll is_open is_loading = ground arith

  -- A card offers to close the poll exactly while it is active, and to delete it always.
  pub offers-poll_card :
      (own : Poll → CardAction → A) (on_delete on_close : Poll → A) (format_date : String → String)
      (poll : Poll)
      → offers p (poll_card own on_delete on_close format_date poll) ≡ (
          p (own poll manage)
          || (p (own poll copy_link)
              || (p (own poll open_poll)
                  || (is_active poll.status && p (on_close poll) || p (on_delete poll)))))
  unfolding offers poll_card
  offers-poll_card own on_delete on_close format_date poll =
      ground (arith, offers-poll_status poll.status)
