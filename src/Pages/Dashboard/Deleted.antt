-- ===== src/Pages/Dashboard/Deleted.antt =====
-- A deleted poll stays away.
use hcl_assignment.Common.{
  String, true, false, not, Option, none, some, List, [], ◌∷◌, ◌≡◌, refl, All, map, filter, eq_refl,
  ◌==◌, arith,
}
use hcl_assignment.Services.Model.{Poll}
use hcl_assignment.Services.Api.{ok, err}
use hcl_assignment.Pages.Dashboard.{
  State, Action, loaded, ask_delete, delete_open, confirm_delete, deleted, close, closed_poll, card,
  create, logout, delete_for, replace, step,
}
use hcl_assignment.Pages.Dashboard.Polls.{
  find_poll, find_poll-filter, find_poll-replace, deleted-find_poll,
}

abbrev pub run : String → List Action → State → State
run origin [] s = s
run origin (a ∷ actions) s = run origin actions (step origin a s).0

-- Anything but the answer of the list, which the page asks for once, when it is mounted.
abbrev pub IsLater : Action → Type 0
IsLater (loaded answer) = ⊥
IsLater _ = Unit

gone-replace :
    (updated : Poll) (j : String) (polls : List Poll)
    → find_poll j polls ≡ none
    → find_poll j (map (replace updated) polls) ≡ none
gone-replace updated j polls gone = ground (arith, gone, find_poll-replace updated j polls)

gone-filter :
    (id j : String) (polls : List Poll)
    → find_poll j polls ≡ none
    → find_poll j (filter (λ p. not (p.id == id)) polls) ≡ none
gone-filter id j polls gone = ground (arith, gone, find_poll-filter id j polls)

delete_for-polls : (p : Option Poll) (s : State) → (delete_for p s).0.polls ≡ s.polls
unfolding delete_for
delete_for-polls none s = refl
delete_for-polls (some p) s = refl

module _ (origin : String) where
  step-gone :
      (a : Action) (s : State) (j : String)
      → IsLater a
      → find_poll j s.polls ≡ none
      → find_poll j (step origin a s).0.polls ≡ none
  unfolding step
  step-gone (loaded answer) s j later gone = absurd later
  step-gone (ask_delete p) s j later gone = gone
  step-gone (delete_open true) s j later gone = gone
  step-gone (delete_open false) s j later gone = gone
  step-gone confirm_delete s j later gone = rw (delete_for-polls s.deleting_poll s) gone
  step-gone (deleted p (ok answer)) s j later gone = gone-filter p.id j s.polls gone
  step-gone (deleted p (err e)) s j later gone = gone
  step-gone (close p) s j later gone = gone
  step-gone (closed_poll (ok p)) s j later gone = gone-replace p j s.polls gone
  step-gone (closed_poll (err e)) s j later gone = gone
  step-gone (card p a) s j later gone = gone
  step-gone create s j later gone = gone
  step-gone logout s j later gone = gone

  run-gone :
      (actions : List Action) (s : State) (j : String)
      → All IsLater actions
      → find_poll j s.polls ≡ none
      → find_poll j (run origin actions s).polls ≡ none
  run-gone [] s j later gone = gone
  run-gone (a ∷ actions) s j (first, later) gone =
      run-gone actions (step origin a s).0 j later (step-gone a s j first gone)

  deleted-gone :
      (p : Poll) (answer : Option Unit) (s : State)
      → find_poll p.id (step origin (deleted p (ok answer)) s).0.polls ≡ none
  deleted-gone p answer s =
      let (found, chosen, idle) = deleted-find_poll origin p (ok answer) s p.id in
      ground (arith, found, eq_refl p.id)

  -- Once the server has deleted a poll, no poll with its identity is on the dashboard any more, whatever
  -- the user does and whatever answers of deletions and closings come later.
  pub deleted-run :
      (p : Poll) (answer : Option Unit) (s : State) (actions : List Action)
      → All IsLater actions
      → find_poll p.id (run origin actions (step origin (deleted p (ok answer)) s).0).polls ≡ none
  deleted-run p answer s actions later =
      run-gone actions (step origin (deleted p (ok answer)) s).0 p.id later
        (deleted-gone p answer s)
