-- ===== src/Examples/Forms.antt =====
-- The forms of CreatePoll.tsx and Signup.tsx.
use hcl_assignment.Common.{
  String, true, false, [], ◌∷◌, ◌≡◌, ◌↔◌, ◌⊎◌, refl, truthy, eq_iff, decimal, trim,
}
use hcl_assignment.Effects.{call, create_poll, sign_up}
use hcl_assignment.Pages.CreatePoll.{
  set_title, update, State, init, add, step, handle_submit, payload,
}
use hcl_assignment.Pages.CreatePoll.Options.{Inv, Reach, here, next, init-Inv, step-Inv, Fresh}
use hcl_assignment.Pages.CreatePoll.Submission.{IsComplete, handle_submit-IsComplete}
use hcl_assignment.Pages.Signup
use hcl_assignment.Pages.Signup.Checks.{all_met, handle_submit_iff}

abbrev titled : State
titled = (step "https://p" (set_title " Which one? ") init).0

abbrev first_filled : State
first_filled = (step "https://p" (update "1" "Go") titled).0

abbrev filled : State
filled = (step "https://p" (update "2" " Rust ") first_filled).0

filled_reached : Reach "https://p" filled
filled_reached =
    next (next (next here (set_title " Which one? ") tt) (update "1" "Go") tt) (update "2" " Rust ")
      tt

sends_trimmed : (payload filled).options ≡ "Go" ∷ "Rust" ∷ []
unfolding payload trim step init
sends_trimmed = refl

refuses_blank : (handle_submit init).0.error ≡ "Please provide at least 2 options"
unfolding handle_submit init trim
refuses_blank = refl

handle_submit-IsComplete_example :
    (((handle_submit filled).1 ≡ []) × (truthy (handle_submit filled).0.error ≡ true))
    ⊎ (((handle_submit filled).1 ≡ call (create_poll (payload filled)) ∷ [])
        × IsComplete (payload filled)
        × ((handle_submit filled).0.is_loading ≡ true))
handle_submit-IsComplete_example = handle_submit-IsComplete "https://p" filled_reached

distinct : (a b : String) → (a ≡ b → false ≡ true) → a ≡ b → ⊥
distinct a b f e = let h = f e in cc

init-Fresh : Fresh "1700000000000" init.options
unfolding init
init-Fresh = (
  distinct "1" "1700000000000" (eq_iff "1" "1700000000000").1,
  (distinct "2" "1700000000000" (eq_iff "2" "1700000000000").1, tt),
)

step-Inv_example : Inv (step "https://p" (add 1700000000000) init).0
step-Inv_example =
    step-Inv "https://p" (add 1700000000000) init (unfold decimal in init-Fresh) init-Inv

abbrev form : Signup.State
form = record Signup.init {
  name = "Ada";
  email = "a@b.c";
  password = "12345678";
  confirm_password = "12345678";
}

handle_submit_iff_example :
    ((all_met (Signup.reqs form) ≡ true)
      ↔ ((Signup.handle_submit form).1 ≡ call (sign_up form.name form.email form.password) ∷ []))
    × ((all_met (Signup.reqs form) ≡ false) ↔ (
        ((Signup.handle_submit form).1 ≡ []) × (truthy (Signup.handle_submit form).0.error ≡ true)))
handle_submit_iff_example = handle_submit_iff form
