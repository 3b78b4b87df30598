-- ===== src/Pages/CreatePoll/Screen.antt =====
-- What the page offers to click.
use hcl_assignment.Common.{
  ℕ, ◌+◌, ◌≤◌, String, Bool, true, false, not, ◌&&◌, Option, none, some, List, [], ◌∷◌, length, ◌≡◌,
  refl, ltb, leb, arith,
}
use hcl_assignment.Services.Model.{Poll, User}
use hcl_assignment.Components.Offers.{offers-sidebar, offers-share_poll_dialog}
use hcl_assignment.Ui.{offers}
use hcl_assignment.Pages.CreatePoll.{
  OptionRow, State, Action, add, remove, logout, option_rows, share, share_open, share_dialog,
  render,
}

abbrev pub is_add : Action → Bool
is_add (add now) = true
is_add _ = false

abbrev pub is_remove : Action → Bool
is_remove (remove id) = true
is_remove _ = false

offers_add-option_rows :
    (total index : ℕ) (rows : List OptionRow) → offers is_add (option_rows total index rows) ≡ false
unfolding offers option_rows
offers_add-option_rows total index [] = refl
offers_add-option_rows total index (o ∷ rows) =
    ground (arith, offers_add-option_rows total (index + 1) rows)

offers_remove-option_rows :
    (total index : ℕ) (rows : List OptionRow)
    → offers is_remove (option_rows total index rows) ≡ (not (leb total 2) && ltb 0 (length rows))
unfolding offers option_rows
offers_remove-option_rows total index [] = ground arith
offers_remove-option_rows total index (o ∷ rows) =
    ground (arith, offers_remove-option_rows total (index + 1) rows)

module _ (origin pathname : String) (user : Option User) (now : ℕ) (s : State) where
  offers-share_dialog :
      (p : Option Poll)
      → (offers is_add (share_dialog origin s p) ≡ false)
        × (offers is_remove (share_dialog origin s p) ≡ false)
  unfolding share_dialog
  offers-share_dialog none = (unfold offers in refl, unfold offers in refl)
  offers-share_dialog (some p) = (
    offers-share_poll_dialog is_add share share_open _ _ _ _ _ refl refl,
    offers-share_poll_dialog is_remove share share_open _ _ _ _ _ refl refl,
  )

  -- The page offers "Add Option" exactly while there are fewer than 10 rows, and to remove rows exactly
  -- while there are more than 2.
  pub offers_rows-render :
      2 ≤ length s.options
      → (offers is_add (render origin pathname user now s) ≡ ltb (length s.options) 10)
        × (offers is_remove (render origin pathname user now s) ≡ ltb 2 (length s.options))
  unfolding offers render
  offers_rows-render h =
      let (a, r) = offers-share_dialog s.created_poll in
      let sa = offers-sidebar is_add logout pathname user in
      let sr = offers-sidebar is_remove logout pathname user in
      let ra = offers_add-option_rows (length s.options) 0 s.options in
      let rr = offers_remove-option_rows (length s.options) 0 s.options in
      (ground arith, ground arith)
