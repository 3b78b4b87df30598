-- ===== src/Pages/Dashboard/Offered.antt =====
-- What the dashboard offers to click.
use hcl_assignment.Common.{
  ℕ, String, Bool, true, false, not, ◌&&◌, ◌||◌, Option, List, ◌≡◌, refl, is_some, arith,
}
use hcl_assignment.Services.Model.{Poll, User, is_active, is_closed}
use hcl_assignment.Components.Offers.{offers-sidebar, offers-delete_poll_dialog, offers-poll_card}
use hcl_assignment.Components.PollCard.{CardAction, manage, copy_link, open_poll, poll_card}
use hcl_assignment.Ui.{offers}
use hcl_assignment.Ui.Offers.{offers-each-none}
use hcl_assignment.Pages.Dashboard.{
  State, Action, ask_delete, delete_open, confirm_delete, close, card, create, logout, header,
  stats, grid, render,
}

abbrev pub closes_closed : Action → Bool
closes_closed (close p) = is_closed p.status
closes_closed _ = false

abbrev pub is_confirm_delete : Action → Bool
is_confirm_delete confirm_delete = true
is_confirm_delete _ = false

abbrev quiet_card : (Action → Bool) → Poll → Bool
quiet_card t p = is_active p.status && t (close p) || t (ask_delete p)

closed_card : (p : Poll) → quiet_card closes_closed p ≡ false
closed_card p = ground arith

no_card : (p : Poll) → quiet_card is_confirm_delete p ≡ false
no_card p = ground arith

module _ (t : Action → Bool) (to_create : t create ≡ false) (to_logout : t logout ≡ false)
    (to_cards : (p : Poll) (a : CardAction) → t (card p a) ≡ false)
    (on_cards : (p : Poll) → quiet_card t p ≡ false) where
  offers-header : (hour : ℕ) (user : Option User) → offers t (header hour user) ≡ false
  unfolding offers header
  offers-header hour user = ground arith

  offers-stats : (polls : List Poll) → offers t (stats polls) ≡ false
  unfolding offers stats
  offers-stats polls = ground arith

  offers-card :
      (format_date : String → String) (p : Poll)
      → offers t (poll_card card ask_delete close format_date p) ≡ false
  offers-card format_date p = ground (
    arith,
    offers-poll_card t card ask_delete close format_date p,
    on_cards p,
    to_cards p manage,
    to_cards p copy_link,
    to_cards p open_poll,
  )

  offers-grid : (format_date : String → String) (s : State) → offers t (grid format_date s) ≡ false
  unfolding offers grid
  offers-grid format_date s = ground (
    arith,
    offers-each-none t (poll_card card ask_delete close format_date) s.polls
        (offers-card format_date),
  )

  offers-page :
      (pathname : String) (user : Option User) (hour : ℕ) (format_date : String → String)
      (s : State)
      → offers t (render pathname user hour format_date s)
        ≡ (is_some s.deleting_poll && (not s.is_deleting && t confirm_delete))
  unfolding offers render
  offers-page pathname user hour format_date s = ground (
    arith,
    offers-sidebar t logout pathname user,
    offers-header hour user,
    offers-stats s.polls,
    offers-grid format_date s,
    offers-delete_poll_dialog t delete_open confirm_delete s.deleting_poll (is_some s.deleting_poll)
        s.is_deleting,
  )

-- Whatever the state, the dashboard never offers to close a poll that is closed; and it offers to
-- confirm a deletion exactly while a poll is chosen for it and none is being deleted.
pub offers_polls-render :
    (pathname : String) (user : Option User) (hour : ℕ) (format_date : String → String) (s : State)
    → (offers closes_closed (render pathname user hour format_date s) ≡ false)
      × (offers is_confirm_delete (render pathname user hour format_date s)
          ≡ (is_some s.deleting_poll && not s.is_deleting))
offers_polls-render pathname user hour format_date s = (
  ground (
    arith,
    offers-page closes_closed refl refl (λ p a. refl) closed_card pathname user hour format_date s,
  ),
  ground (
    arith,
    offers-page is_confirm_delete refl refl (λ p a. refl) no_card pathname user hour format_date s,
  ),
)
