-- ===== src/Pages/Drawn.antt =====
-- The sign-in forms and the voting page as components/ui renders them.
use hcl_assignment.Common.{String, some, List, [], ◌∷◌}
use hcl_assignment.Ui.Controls.{Input}
use hcl_assignment.Pages.Login
use hcl_assignment.Pages.Login.Requests.{is_submit as is_login}
use hcl_assignment.Pages.Signup
use hcl_assignment.Pages.Signup.Requests.{is_submit as is_signup}
use hcl_assignment.Pages.PublicPoll

abbrev pub login_inputs : Login.State → String → List (Input Login.Action)
login_inputs s t =
    (some "email", some s.email, Login.set_email t)
    ∷ (some "password", some s.password, Login.set_password t)
    ∷ []

abbrev pub signup_inputs : Signup.State → String → List (Input Signup.Action)
signup_inputs s t =
    (some "name", some s.name, Signup.set_name t)
    ∷ (some "email", some s.email, Signup.set_email t)
    ∷ (some "password", some s.password, Signup.set_password t)
    ∷ (some "confirm", some s.confirm_password, Signup.set_confirm_password t)
    ∷ []
