-- ===== src/Pages/ManagePoll/Offered.antt =====
-- What the page and its dialogs offer to click.
use hcl_assignment.Common.{
  String, Bool, true, false, not, ◌&&◌, ◌||◌, Option, none, some, List, ◌≡◌, refl, arith,
}
use hcl_assignment.Services.Model.{Poll, PollOption, PollResults, User, is_active}
use hcl_assignment.Realtime.{WsStatus}
use hcl_assignment.Components.Offers.{
  offers-sidebar, offers-share_poll_dialog, offers-delete_poll_dialog, offers-poll_status,
  offers-live_indicator, offers-chart_of,
}
use hcl_assignment.Components.Dialogs.{ShareAction}
use hcl_assignment.Ui.{offers}
use hcl_assignment.Pages.Live.{live_results}
use hcl_assignment.Pages.ManagePoll.{
  State, Screen, Action, copy, copy_and_open, back, skeleton, delete_open, close_open,
  confirm_close, confirm_delete, share, share_open, logout, details_card, shown_results, poll_part,
  share_part, close_dialog, render,
}

abbrev pub is_ask_close : Action → Bool
is_ask_close (close_open b) = b
is_ask_close _ = false

abbrev pub is_confirm_close : Action → Bool
is_confirm_close confirm_close = true
is_confirm_close _ = false

abbrev pub is_confirm_delete : Action → Bool
is_confirm_delete confirm_delete = true
is_confirm_delete _ = false

-- A test that passes none of the other actions that the page offers.
record Narrow (t : Action → Bool) : Type 0 where
  to_share : (a : ShareAction) → t (share a) ≡ false
  to_copy : t copy ≡ false
  to_copy_and_open : t copy_and_open ≡ false
  to_open_share : t (share_open true) ≡ false
  to_open_delete : t (delete_open true) ≡ false
  to_back : t back ≡ false
  to_logout : t logout ≡ false

abbrev pub active_poll : Option Poll → Bool
active_poll none = false
active_poll (some p) = is_active p.status

module _ (t : Action → Bool) (narrow : Narrow t) where
  offers-shown_results :
      (options : List PollOption) (r : Option PollResults)
      → offers t (shown_results options r) ≡ false
  unfolding shown_results
  offers-shown_results options none = unfold offers in refl
  offers-shown_results options (some r) = offers-chart_of t options r

  offers-details_card :
      (origin : String) (status : WsStatus) (p : Poll)
      → offers t (details_card origin status p) ≡ (is_active p.status && t (close_open true))
  unfolding offers details_card
  offers-details_card origin status p = ground (
    arith,
    offers-poll_status t p.status,
    offers-live_indicator t status,
    narrow.to_copy,
    narrow.to_copy_and_open,
    narrow.to_open_share,
    narrow.to_open_delete,
  )

  offers-poll_part :
      (origin : String) (status : WsStatus) (live : Option PollResults) (poll : Option Poll)
      → offers t (poll_part origin status live poll) ≡ (active_poll poll && t (close_open true))
  unfolding offers poll_part
  offers-poll_part origin status live none = refl
  offers-poll_part origin status live (some p) =
      ground (arith, offers-details_card origin status p, offers-shown_results p.options live)

  offers-share_part :
      (origin : String) (s : State) (poll : Option Poll)
      → offers t (share_part origin s poll) ≡ false
  unfolding share_part
  offers-share_part origin s none = unfold offers in refl
  offers-share_part origin s (some p) =
      offers-share_poll_dialog t share share_open _ _ _ _ _ (narrow.to_share _) (narrow.to_share _)

  offers-close_dialog :
      (s : State)
      → offers t (close_dialog s) ≡ (s.show_close && (not s.is_closing && t confirm_close))
  unfolding offers close_dialog
  offers-close_dialog s = ground arith

  offers-skeleton : offers t skeleton ≡ false
  unfolding offers skeleton
  offers-skeleton = refl

  offers-page :
      (origin pathname : String) (user : Option User) (s : Screen)
      → offers t (render origin pathname user s) ≡ (
          not s.page.is_loading && (active_poll s.page.poll && t (close_open true))
          || (s.page.show_delete && (not s.page.is_deleting && t confirm_delete)
              || s.page.show_close && (not s.page.is_closing && t confirm_close)))
  unfolding offers render
  offers-page origin pathname user s =
      let live = live_results s.hook.results s.page.initial_results in
      ground (
        arith,
        offers-sidebar t logout pathname user,
        narrow.to_logout,
        narrow.to_back,
        offers-skeleton,
        offers-poll_part origin s.hook.status live s.page.poll,
        offers-share_part origin s.page s.page.poll,
        offers-delete_poll_dialog t delete_open confirm_delete s.page.poll s.page.show_delete
            s.page.is_deleting,
        offers-close_dialog s.page,
      )

ask : Narrow is_ask_close
ask = ground arith

close : Narrow is_confirm_close
close = ground arith

delete : Narrow is_confirm_delete
delete = ground arith

-- The page offers to ask for closing exactly while it shows an active poll; the confirmation of the
-- closing, and that of the deletion, are offered exactly while their dialog is open and no such
-- request is in flight.
pub offers_requests-render :
    (origin pathname : String) (user : Option User) (s : Screen)
    → (offers is_ask_close (render origin pathname user s)
        ≡ (not s.page.is_loading && active_poll s.page.poll))
      × (offers is_confirm_close (render origin pathname user s)
          ≡ (s.page.show_close && not s.page.is_closing))
      × (offers is_confirm_delete (render origin pathname user s)
          ≡ (s.page.show_delete && not s.page.is_deleting))
offers_requests-render origin pathname user s = (
  ground (arith, offers-page is_ask_close ask origin pathname user s),
  ground (arith, offers-page is_confirm_close close origin pathname user s),
  ground (arith, offers-page is_confirm_delete delete origin pathname user s),
)
