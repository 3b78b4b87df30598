-- ===== src/Pages/Login/Requests.antt =====
-- The page as one that awaits a login.
use hcl_assignment.Common.{
  ℕ, suc, Bool, true, false, not, none, some, List, [], ◌∷◌, ◌≡◌, refl, inl, inr, Bool-cases,
  truthy, arith,
}
use hcl_assignment.Effects.{Effect, call, log_in}
use hcl_assignment.Ui.Submits.{submits}
use hcl_assignment.Pages.Requests.{Role, starts, answers, neither, flag, Requester}
use hcl_assignment.Pages.Login.{
  State, Action, set_email, set_password, submit, settled, step, render,
}

abbrev pub log_ins : List Effect → ℕ
log_ins [] = 0
log_ins (call (log_in email password) ∷ effects) = suc (log_ins effects)
log_ins (_ ∷ effects) = log_ins effects

abbrev pub role : Action → Role
role submit = starts
role (settled answer) = answers
role (set_email value) = neither
role (set_password value) = neither

abbrev pub is_submit : Action → Bool
is_submit submit = true
is_submit _ = false

submits-render : (s : State) → submits is_submit (render s) ≡ not s.is_loading
unfolding submits render
submits-render s = elim (Bool-cases (truthy s.error)) [
  | inl failed ↦ rw failed (ground arith)
  | inr fine ↦ rw fine (ground arith)
]

pub role-starts :
    (a : Action) (s : State)
    → role a ≡ starts
    → s.is_loading ≡ false
    → log_ins (step a s).1 ≡ flag (step a s).0.is_loading
unfolding step
role-starts submit s r idle = refl
role-starts (settled answer) s r idle = cc
role-starts (set_email value) s r idle = cc
role-starts (set_password value) s r idle = cc

pub role-answers :
    (a : Action) (s : State)
    → role a ≡ answers
    → ((step a s).0.is_loading ≡ false) × (log_ins (step a s).1 ≡ 0)
unfolding step
role-answers submit s r = cc
role-answers (settled none) s r = (refl, refl)
role-answers (settled (some e)) s r = (refl, refl)
role-answers (set_email value) s r = cc
role-answers (set_password value) s r = cc

pub role-neither :
    (a : Action) (s : State)
    → role a ≡ neither
    → ((step a s).0.is_loading ≡ s.is_loading) × (log_ins (step a s).1 ≡ 0)
unfolding step
role-neither submit s r = cc
role-neither (settled answer) s r = cc
role-neither (set_email value) s r = (refl, refl)
role-neither (set_password value) s r = (refl, refl)

pub submits-idle : (s : State) → submits is_submit (render s) ≡ true → s.is_loading ≡ false
submits-idle s h = ground (arith, submits-render s)

-- The form can be submitted while its button is enabled.
abbrev pub requester : Requester State Action
requester = record {
  step = step;
  role = role;
  is_busy = λ s. s.is_loading;
  is_offered = λ s. submits is_submit (render s);
  sends = log_ins;
  offered_idle = submits-idle;
  start_lem = role-starts;
  answer_lem = role-answers;
  other_lem = role-neither;
}
