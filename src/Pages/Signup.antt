-- ===== src/Pages/Signup.antt =====
-- pages/Signup.tsx
pub mod Checks
pub mod Requests
use hcl_assignment.Common.{
  ℕ, String, Bool, true, false, not, ◌&&◌, Option, none, some, List, [], ◌∷◌, ◌==◌, ltb, leb,
  truthy, text_length, if◌then◌else◌,
}
use hcl_assignment.Services.Api.{Failure, message_or}
use hcl_assignment.Effects.{Effect, call, sign_up, toast_success, navigate}
use hcl_assignment.Ui.{
  View, el, text, ◌⊕◌, nothing, icon, when, each, prop, flag, disabled, on_submit, on_change,
}

pub record State : Type 0 where
  pub name : String
  pub email : String
  pub password : String
  pub confirm_password : String
  pub is_loading : Bool
  pub error : String

unfoldable pub init : State
init = record {
  name = "";
  email = "";
  password = "";
  confirm_password = "";
  is_loading = false;
  error = "";
}

-- handleSubmit up to the call of `signup`.
unfoldable pub handle_submit : State → State × List Effect
handle_submit s =
    if not (s.password == s.confirm_password)
    then (record s { error = "Passwords do not match" }, [])
    else if ltb (text_length s.password) 8
    then (record s { error = "Password must be at least 8 characters" }, [])
    else (record s { error = ""; is_loading = true }, call (sign_up s.name s.email s.password) ∷ [])

-- handleSubmit from its answer: nothing, or the failure that `signup` throws.
unfoldable pub submit_settled : Option Failure → State → State × List Effect
submit_settled none s = (
  record s { is_loading = false },
  toast_success "Account created successfully!" ∷ navigate "/dashboard" ∷ [],
)
submit_settled (some e) s =
    (record s { error = message_or "Signup failed" e; is_loading = false }, [])

pub record Requirement : Type 0 where
  pub text : String
  pub met : Bool

unfoldable pub reqs : State → List Requirement
reqs s =
    record { text = "At least 8 characters"; met = leb 8 (text_length s.password) }
    ∷ record {
      text = "Passwords match";
      met = ltb 0 (text_length s.password) && s.password == s.confirm_password;
    }
    ∷ []

pub data Action : Type 0 where
  set_name set_email set_password set_confirm_password : String → Action
  submit : Action
  settled : Option Failure → Action

unfoldable pub step : Action → State → State × List Effect
unfolding handle_submit submit_settled
step (set_name value) s = (record s { name = value }, [])
step (set_email value) s = (record s { email = value }, [])
step (set_password value) s = (record s { password = value }, [])
step (set_confirm_password value) s = (record s { confirm_password = value }, [])
step submit s = handle_submit s
step (settled answer) s = submit_settled answer s

-- A labelled input of the form.
field : String → String → String → String → String → (String → Action) → View Action
field id label type placeholder value change = el "div" [] (
    el "Label" (prop "htmlFor" id ∷ []) (text label)
    ⊕ el "Input"
        (prop "id" id
          ∷ prop "type" type
          ∷ prop "placeholder" placeholder
          ∷ prop "value" value
          ∷ on_change change
          ∷ flag "required"
          ∷ [])
        nothing)

requirement : Requirement → View Action
requirement r =
    el "div"
      (prop "key" r.text
        ∷ prop "class" (if r.met then "text-green-600 font-medium" else "text-muted-foreground")
        ∷ [])
      (el "CheckCircle"
          (prop "class" (if r.met then "text-green-600" else "text-muted-foreground") ∷ []) nothing
        ⊕ text r.text)

form : State → View Action
unfolding field requirement reqs
form s = el "form" (on_submit submit ∷ []) (
    field "name" "Name" "text" "John Doe" s.name set_name
    ⊕ field "email" "Email" "email" "you@example.com" s.email set_email
    ⊕ field "password" "Password" "password" "••••••••" s.password set_password
    ⊕ field "confirm" "Confirm Password" "password" "••••••••" s.confirm_password
        set_confirm_password
    ⊕ el "div" [] (each requirement (reqs s))
    ⊕ when (truthy s.error) (el "div" [] (text s.error))
    ⊕ el "Button" (prop "type" "submit" ∷ disabled s.is_loading ∷ [])
        (text (if s.is_loading then "Creating account..." else "Create account")))

unfoldable pub render : State → View Action
unfolding form
render s = el "div" [] (
    el "div" [] (
      el "div" [] (
        el "Link" (prop "to" "/" ∷ []) (el "div" [] (icon "Zap") ⊕ el "span" [] (text "PulsePoll")))
      ⊕ el "Card" [] (
          el "CardHeader" [] (
            el "CardTitle" [] (text "Create an account")
            ⊕ el "CardDescription" [] (text "Start collecting live responses in seconds"))
          ⊕ el "CardContent" [] (form s)
          ⊕ el "CardFooter" [] (
              el "p" [] (
                text "Already have an account?"
                ⊕ text " "
                ⊕ el "Link" (prop "to" "/login" ∷ []) (text "Sign in"))))))
