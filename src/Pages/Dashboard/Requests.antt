-- ===== src/Pages/Dashboard/Requests.antt =====
-- The page as one that awaits a deletion.
use hcl_assignment.Common.{
  ℕ, suc, String, true, false, Option, none, some, List, [], ◌∷◌, ◌≡◌, refl, arith,
}
use hcl_assignment.Services.Model.{Poll, User}
use hcl_assignment.Services.Api.{ok, err}
use hcl_assignment.Effects.{Effect, call, delete_poll}
use hcl_assignment.Components.PollCard.{
  CardAction, manage, copy_link, link_copied, open_poll, card_step,
}
use hcl_assignment.Components.Layout.{sidebar_logout}
use hcl_assignment.Ui.{offers}
use hcl_assignment.Pages.Requests.{Role, starts, answers, neither, flag, Requester}
use hcl_assignment.Pages.Dashboard.{
  State, Action, loaded, ask_delete, delete_open, confirm_delete, deleted, close, closed_poll, card,
  create, logout, delete_for, step, render,
}
use hcl_assignment.Pages.Dashboard.Offered.{is_confirm_delete, offers_polls-render}

abbrev pub deletions : List Effect → ℕ
deletions [] = 0
deletions (call (delete_poll id) ∷ effects) = suc (deletions effects)
deletions (_ ∷ effects) = deletions effects

abbrev pub role : Action → Role
role confirm_delete = starts
role (deleted p answer) = answers
role _ = neither

pub offers-idle :
    (pathname : String) (user : Option User) (hour : ℕ) (format_date : String → String) (s : State)
    → offers is_confirm_delete (render pathname user hour format_date s) ≡ true
    → s.is_deleting ≡ false
offers-idle pathname user hour format_date s h =
    ground (arith, offers_polls-render pathname user hour format_date s)

module _ (origin : String) where
  delete_for-starts :
      (p : Option Poll) (s : State)
      → s.is_deleting ≡ false
      → deletions (delete_for p s).1 ≡ flag (delete_for p s).0.is_deleting
  unfolding delete_for
  delete_for-starts none s idle = ground arith
  delete_for-starts (some p) s idle = refl

  pub role-starts :
      (a : Action) (s : State)
      → role a ≡ starts
      → s.is_deleting ≡ false
      → deletions (step origin a s).1 ≡ flag (step origin a s).0.is_deleting
  unfolding step
  role-starts confirm_delete s r idle = delete_for-starts s.deleting_poll s idle
  role-starts (loaded answer) s r idle = cc
  role-starts (ask_delete p) s r idle = cc
  role-starts (delete_open is_open) s r idle = cc
  role-starts (deleted p answer) s r idle = cc
  role-starts (close p) s r idle = cc
  role-starts (closed_poll answer) s r idle = cc
  role-starts (card p a) s r idle = cc
  role-starts create s r idle = cc
  role-starts logout s r idle = cc

  pub role-answers :
      (a : Action) (s : State)
      → role a ≡ answers
      → ((step origin a s).0.is_deleting ≡ false) × (deletions (step origin a s).1 ≡ 0)
  unfolding step
  role-answers (deleted p (ok answer)) s r = (refl, refl)
  role-answers (deleted p (err e)) s r = (refl, refl)
  role-answers confirm_delete s r = cc
  role-answers (loaded answer) s r = cc
  role-answers (ask_delete p) s r = cc
  role-answers (delete_open is_open) s r = cc
  role-answers (close p) s r = cc
  role-answers (closed_poll answer) s r = cc
  role-answers (card p a) s r = cc
  role-answers create s r = cc
  role-answers logout s r = cc

  card_step-deletions : (p : Poll) (a : CardAction) → deletions (card_step origin p a) ≡ 0
  unfolding card_step
  card_step-deletions p manage = refl
  card_step-deletions p copy_link = refl
  card_step-deletions p (link_copied true) = refl
  card_step-deletions p (link_copied false) = refl
  card_step-deletions p open_poll = refl

  pub role-neither :
      (a : Action) (s : State)
      → role a ≡ neither
      → ((step origin a s).0.is_deleting ≡ s.is_deleting) × (deletions (step origin a s).1 ≡ 0)
  unfolding step sidebar_logout
  role-neither confirm_delete s r = cc
  role-neither (deleted p answer) s r = cc
  role-neither (loaded (ok polls)) s r = (refl, refl)
  role-neither (loaded (err e)) s r = (refl, refl)
  role-neither (ask_delete p) s r = (refl, refl)
  role-neither (delete_open true) s r = (refl, refl)
  role-neither (delete_open false) s r = (refl, refl)
  role-neither (close p) s r = (refl, refl)
  role-neither (closed_poll (ok p)) s r = (refl, refl)
  role-neither (closed_poll (err e)) s r = (refl, refl)
  role-neither (card p a) s r = (refl, card_step-deletions p a)
  role-neither create s r = (refl, refl)
  role-neither logout s r = (refl, refl)

-- A deletion can be confirmed while the dialog is open and its button is enabled.
abbrev pub requester :
    String → String → Option User → ℕ → (String → String) → Requester State Action
requester origin pathname user hour format_date = record {
  step = step origin;
  role = role;
  is_busy = λ s. s.is_deleting;
  is_offered = λ s. offers is_confirm_delete (render pathname user hour format_date s);
  sends = deletions;
  offered_idle = offers-idle pathname user hour format_date;
  start_lem = role-starts origin;
  answer_lem = role-answers origin;
  other_lem = role-neither origin;
}
