-- ===== src/Pages/CreatePoll/Requests.antt =====
-- The page as one that awaits the creation of a poll.
use hcl_assignment.Common.{
  ℕ, suc, ◌+◌, String, Bool, true, false, not, Option, none, some, List, [], ◌∷◌, ◌≡◌, refl, inl,
  inr, Bool-cases, truthy, length, ltb, arith,
}
use hcl_assignment.Services.Model.{Poll, User}
use hcl_assignment.Services.Api.{ok, err}
use hcl_assignment.Effects.{Effect, call, create_poll}
use hcl_assignment.Components.Dialogs.{
  ShareAction, copy, copy_done, copy_expired, open_share, share_step, share_poll_dialog,
}
use hcl_assignment.Components.Layout.{sidebar, sidebar_logout}
use hcl_assignment.Ui.Submits.{submits, default_button}
use hcl_assignment.Pages.Requests.{Role, starts, answers, neither, flag, Requester}
use hcl_assignment.Pages.CreatePoll.{
  OptionRow, State, Action, set_title, set_description, add, remove, update, submit, settled,
  share_open, share, back, logout, share_url_of, share_changed, step, option_row, option_rows,
  details, options_card, share_dialog, render,
}

abbrev pub creations : List Effect → ℕ
creations [] = 0
creations (call (create_poll poll) ∷ effects) = suc (creations effects)
creations (_ ∷ effects) = creations effects

abbrev pub role : Action → Role
role submit = starts
role (settled answer) = answers
role _ = neither

abbrev pub is_submit : Action → Bool
is_submit submit = true
is_submit _ = false

option_rows-plain :
    (total index : ℕ) (rows : List OptionRow)
    → (default_button (option_rows total index rows) ≡ none)
      × (submits is_submit (option_rows total index rows) ≡ false)
unfolding default_button submits option_rows option_row
option_rows-plain total index [] = (refl, refl)
option_rows-plain total index (o ∷ rows) = ground (arith, option_rows-plain total (index + 1) rows)

options_card-plain :
    (now : ℕ) (s : State)
    → (default_button (options_card now s) ≡ none)
      × (submits is_submit (options_card now s) ≡ false)
unfolding default_button submits options_card
options_card-plain now s = elim (Bool-cases (ltb (length s.options) 10)) [
  | inl more ↦ rw more (ground (arith, option_rows-plain (length s.options) 0 s.options))
  | inr full ↦ rw full (ground (arith, option_rows-plain (length s.options) 0 s.options))
]

share_dialog-plain :
    (origin : String) (s : State) (p : Option Poll)
    → submits is_submit (share_dialog origin s p) ≡ false
unfolding submits share_dialog share_poll_dialog
share_dialog-plain origin s none = refl
share_dialog-plain origin s (some p) = ground arith

sidebar-plain :
    (pathname : String) (user : Option User)
    → submits is_submit (sidebar logout pathname user) ≡ false
unfolding submits sidebar
sidebar-plain pathname none = ground arith
sidebar-plain pathname (some u) = ground arith

module _ (origin pathname : String) (user : Option User) (now : ℕ) where
  submits-render :
      (s : State) → submits is_submit (render origin pathname user now s) ≡ not s.is_loading
  unfolding submits default_button render details
  submits-render s =
      let (button, form) = options_card-plain now s in
      elim (Bool-cases (truthy s.error)) [
        | inl failed ↦
            rw
              (
                failed,
                sidebar-plain pathname user,
                share_dialog-plain origin s s.created_poll,
                button,
                form,
              )
              (ground arith)
        | inr fine ↦
            rw
              (
                fine,
                sidebar-plain pathname user,
                share_dialog-plain origin s s.created_poll,
                button,
                form,
              )
              (ground arith)
      ]

  pub submits-idle :
      (s : State)
      → submits is_submit (render origin pathname user now s) ≡ true
      → s.is_loading ≡ false
  submits-idle s h = ground (arith, submits-render s)

module _ (origin : String) where
  pub role-starts :
      (a : Action) (s : State)
      → role a ≡ starts
      → s.is_loading ≡ false
      → creations (step origin a s).1 ≡ flag (step origin a s).0.is_loading
  unfolding step
  role-starts submit s r idle = ground arith
  role-starts (settled answer) s r idle = cc
  role-starts (set_title value) s r idle = cc
  role-starts (set_description value) s r idle = cc
  role-starts (add now) s r idle = cc
  role-starts (remove id) s r idle = cc
  role-starts (update id value) s r idle = cc
  role-starts (share_open is_open) s r idle = cc
  role-starts (share a) s r idle = cc
  role-starts back s r idle = cc
  role-starts logout s r idle = cc

  pub role-answers :
      (a : Action) (s : State)
      → role a ≡ answers
      → ((step origin a s).0.is_loading ≡ false) × (creations (step origin a s).1 ≡ 0)
  unfolding step
  role-answers (settled (ok poll)) s r = (refl, refl)
  role-answers (settled (err e)) s r = (refl, refl)
  role-answers submit s r = cc
  role-answers (set_title value) s r = cc
  role-answers (set_description value) s r = cc
  role-answers (add now) s r = cc
  role-answers (remove id) s r = cc
  role-answers (update id value) s r = cc
  role-answers (share_open is_open) s r = cc
  role-answers (share a) s r = cc
  role-answers back s r = cc
  role-answers logout s r = cc

  share_step-creations :
      (url : String) (a : ShareAction) (copied : Bool) → creations (share_step url a copied).1 ≡ 0
  unfolding share_step
  share_step-creations url copy copied = refl
  share_step-creations url (copy_done true) copied = refl
  share_step-creations url (copy_done false) copied = refl
  share_step-creations url copy_expired copied = refl
  share_step-creations url open_share copied = refl

  share_changed-quiet :
      (is_open : Bool) (s : State)
      → ((share_changed is_open s).0.is_loading ≡ s.is_loading)
        × (creations (share_changed is_open s).1 ≡ 0)
  unfolding share_changed
  share_changed-quiet true s = (refl, refl)
  share_changed-quiet false s = ground arith

  pub role-neither :
      (a : Action) (s : State)
      → role a ≡ neither
      → ((step origin a s).0.is_loading ≡ s.is_loading) × (creations (step origin a s).1 ≡ 0)
  unfolding step sidebar_logout
  role-neither submit s r = cc
  role-neither (settled answer) s r = cc
  role-neither (set_title value) s r = (refl, refl)
  role-neither (set_description value) s r = (refl, refl)
  role-neither (add now) s r = ground arith
  role-neither (remove id) s r = ground arith
  role-neither (update id value) s r = ground arith
  role-neither (share_open is_open) s r = share_changed-quiet is_open s
  role-neither (share a) s r =
      ground (arith, share_step-creations (share_url_of origin s.created_poll) a s.copied)
  role-neither back s r = (refl, refl)
  role-neither logout s r = (refl, refl)

-- The form can be submitted while its button is enabled.
abbrev pub requester : String → String → Option User → ℕ → Requester State Action
requester origin pathname user now = record {
  step = step origin;
  role = role;
  is_busy = λ s. s.is_loading;
  is_offered = λ s. submits is_submit (render origin pathname user now s);
  sends = creations;
  offered_idle = submits-idle origin pathname user now;
  start_lem = role-starts origin;
  answer_lem = role-answers origin;
  other_lem = role-neither origin;
}
