-- ===== src/Pages/ManagePoll/Requests.antt =====
-- The page as one that awaits a closing, and one that awaits a deletion.
use hcl_assignment.Common.{
  ℕ, suc, String, Bool, true, false, Option, none, some, List, [], ◌∷◌, ◌≡◌, refl, arith,
}
use hcl_assignment.Services.Model.{Poll, User}
use hcl_assignment.Services.Api.{ok, err}
use hcl_assignment.Effects.{Effect, call, close_poll, delete_poll}
use hcl_assignment.Components.Dialogs.{
  ShareAction, copy as copy_text, copy_done, copy_expired, open_share, share_step,
}
use hcl_assignment.Components.Layout.{sidebar_logout}
use hcl_assignment.Realtime
use hcl_assignment.Realtime.{Event}
use hcl_assignment.Ui.{offers}
use hcl_assignment.Pages.Requests.{Role, starts, answers, neither, flag, Requester}
use hcl_assignment.Pages.ManagePoll.{
  State, Screen, share_url_of, close_for, delete_for, Action, loaded, confirm_close, confirm_delete,
  closed_poll, deleted_poll, share, step, act, render,
}
use hcl_assignment.Pages.ManagePoll.Offered.{
  is_confirm_close, is_confirm_delete, offers_requests-render,
}

-- The two requests that a dialog confirms.
pub data Kind : Type 0 where
  closing deleting : Kind

abbrev pub closes : List Effect → ℕ
closes [] = 0
closes (call (close_poll id) ∷ effects) = suc (closes effects)
closes (_ ∷ effects) = closes effects

abbrev pub deletes : List Effect → ℕ
deletes [] = 0
deletes (call (delete_poll id) ∷ effects) = suc (deletes effects)
deletes (_ ∷ effects) = deletes effects

abbrev pub sends : Kind → List Effect → ℕ
sends closing effects = closes effects
sends deleting effects = deletes effects

abbrev pub is_busy : Kind → State → Bool
is_busy closing s = s.is_closing
is_busy deleting s = s.is_deleting

abbrev pub role : Kind → Action → Role
role closing confirm_close = starts
role closing (closed_poll answer) = answers
role deleting confirm_delete = starts
role deleting (deleted_poll answer) = answers
role _ _ = neither

abbrev pub confirms : Kind → Action → Bool
confirms closing a = is_confirm_close a
confirms deleting a = is_confirm_delete a

pub offers-idle :
    (k : Kind) (origin pathname : String) (user : Option User) (s : Screen)
    → offers (confirms k) (render origin pathname user s) ≡ true
    → is_busy k s.page ≡ false
offers-idle closing origin pathname user s h =
    ground (arith, offers_requests-render origin pathname user s)
offers-idle deleting origin pathname user s h =
    ground (arith, offers_requests-render origin pathname user s)

module _ (origin : String) where
  close_for-starts :
      (p : Option Poll) (s : State)
      → s.is_closing ≡ false
      → closes (close_for p s).1 ≡ flag (close_for p s).0.is_closing
  unfolding close_for
  close_for-starts none s idle = ground arith
  close_for-starts (some p) s idle = refl

  delete_for-starts :
      (p : Option Poll) (s : State)
      → s.is_deleting ≡ false
      → deletes (delete_for p s).1 ≡ flag (delete_for p s).0.is_deleting
  unfolding delete_for
  delete_for-starts none s idle = ground arith
  delete_for-starts (some p) s idle = refl

  role-starts :
      (k : Kind) (a : Action) (s : State)
      → role k a ≡ starts
      → is_busy k s ≡ false
      → sends k (step origin a s).1 ≡ flag (is_busy k (step origin a s).0)
  unfolding step
  role-starts closing confirm_close s r idle = close_for-starts s.poll s idle
  role-starts deleting confirm_delete s r idle = delete_for-starts s.poll s idle
  role-starts k a s r idle = cc

  role-answers :
      (k : Kind) (a : Action) (s : State)
      → role k a ≡ answers
      → (is_busy k (step origin a s).0 ≡ false) × (sends k (step origin a s).1 ≡ 0)
  unfolding step
  role-answers closing (closed_poll (ok updated)) s r = (refl, refl)
  role-answers closing (closed_poll (err e)) s r = (refl, refl)
  role-answers deleting (deleted_poll (ok answer)) s r = (refl, refl)
  role-answers deleting (deleted_poll (err e)) s r = (refl, refl)
  role-answers k a s r = cc

  share_step-quiet :
      (k : Kind) (url : String) (a : ShareAction) (copied : Bool)
      → sends k (share_step url a copied).1 ≡ 0
  unfolding share_step
  share_step-quiet closing url copy_text copied = refl
  share_step-quiet closing url (copy_done true) copied = refl
  share_step-quiet closing url (copy_done false) copied = refl
  share_step-quiet closing url copy_expired copied = refl
  share_step-quiet closing url open_share copied = refl
  share_step-quiet deleting url copy_text copied = refl
  share_step-quiet deleting url (copy_done true) copied = refl
  share_step-quiet deleting url (copy_done false) copied = refl
  share_step-quiet deleting url copy_expired copied = refl
  share_step-quiet deleting url open_share copied = refl

  -- What a step leaves alone: the busy flag, and the requests of the kind.
  abbrev Keeps : Kind → Action → State → Type 0
  Keeps k a s = (is_busy k (step origin a s).0 ≡ is_busy k s) × (sends k (step origin a s).1 ≡ 0)

  role-neither : (k : Kind) (a : Action) (s : State) → role k a ≡ neither → Keeps k a s
  unfolding step sidebar_logout
  role-neither closing (loaded (ok (some answer)) results) s r = (refl, refl)
  role-neither deleting (loaded (ok (some answer)) results) s r = (refl, refl)
  role-neither closing (share a) s r =
      (refl, share_step-quiet closing (share_url_of origin s.poll) a s.copied)
  role-neither deleting (share a) s r =
      (refl, share_step-quiet deleting (share_url_of origin s.poll) a s.copied)
  role-neither closing a s r = ground arith
  role-neither deleting a s r = ground arith

-- What happens on the screen: an action of the page, or an event that its hook hears.
pub data Move : Type 0 where
  does : Action → Move
  hears : Event → Move

abbrev pub move : String → Move → Screen → Screen × List Effect
move origin (does a) s = (act origin a s, (step origin a s.page).1)
move origin (hears e) s = (record s { hook = Realtime.step e s.hook }, [])

abbrev pub move_role : Kind → Move → Role
move_role k (does a) = role k a
move_role k (hears e) = neither

module _ (origin : String) (k : Kind) where
  pub move-starts :
      (m : Move) (s : Screen)
      → move_role k m ≡ starts
      → is_busy k s.page ≡ false
      → sends k (move origin m s).1 ≡ flag (is_busy k (move origin m s).0.page)
  unfolding act
  move-starts (does a) s r idle = role-starts origin k a s.page r idle
  move-starts (hears e) s r idle = cc

  pub move-answers :
      (m : Move) (s : Screen)
      → move_role k m ≡ answers
      → (is_busy k (move origin m s).0.page ≡ false) × (sends k (move origin m s).1 ≡ 0)
  unfolding act
  move-answers (does a) s r = role-answers origin k a s.page r
  move-answers (hears e) s r = cc

  none_sent : sends k [] ≡ 0
  none_sent = elim k as (λ k. sends k [] ≡ 0) [ closing ↦ refl | deleting ↦ refl ]

  pub move-neither :
      (m : Move) (s : Screen)
      → move_role k m ≡ neither
      → (is_busy k (move origin m s).0.page ≡ is_busy k s.page) × (sends k (move origin m s).1 ≡ 0)
  unfolding act
  move-neither (does a) s r = role-neither origin k a s.page r
  move-neither (hears e) s r = (refl, none_sent)

-- A request can be confirmed while its dialog is open and the button is enabled.
abbrev pub requester : Kind → String → String → Option User → Requester Screen Move
requester k origin pathname user = record {
  step = move origin;
  role = move_role k;
  is_busy = λ s. is_busy k s.page;
  is_offered = λ s. offers (confirms k) (render origin pathname user s);
  sends = sends k;
  offered_idle = offers-idle k origin pathname user;
  start_lem = move-starts origin k;
  answer_lem = move-answers origin k;
  other_lem = move-neither origin k;
}
