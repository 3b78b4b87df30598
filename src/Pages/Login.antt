-- ===== src/Pages/Login.antt =====
-- pages/Login.tsx
pub mod Requests
use hcl_assignment.Common.{
  String, Bool, true, false, Option, none, some, List, [], ◌∷◌, truthy, if◌then◌else◌,
}
use hcl_assignment.Services.Api.{Failure, message_or}
use hcl_assignment.Effects.{Effect, call, log_in, toast_success, navigate}
use hcl_assignment.Ui.{
  View, el, text, ◌⊕◌, nothing, icon, when, prop, flag, disabled, on_submit, on_change,
}

pub record State : Type 0 where
  pub email : String
  pub password : String
  pub is_loading : Bool
  pub error : String

unfoldable pub init : State
init = record { email = ""; password = ""; is_loading = false; error = "" }

-- handleSubmit up to the call of `login`.
unfoldable pub handle_submit : State → State × List Effect
handle_submit s =
    (record s { error = ""; is_loading = true }, call (log_in s.email s.password) ∷ [])

-- handleSubmit from its answer: nothing, or the failure that `login` throws.
unfoldable pub submit_settled : Option Failure → State → State × List Effect
submit_settled none s =
    (record s { is_loading = false }, toast_success "Welcome back!" ∷ navigate "/dashboard" ∷ [])
submit_settled (some e) s =
    (record s { error = message_or "Login failed" e; is_loading = false }, [])

pub data Action : Type 0 where
  set_email set_password : String → Action
  submit : Action
  settled : Option Failure → Action

unfoldable pub step : Action → State → State × List Effect
unfolding handle_submit submit_settled
step (set_email value) s = (record s { email = value }, [])
step (set_password value) s = (record s { password = value }, [])
step submit s = handle_submit s
step (settled answer) s = submit_settled answer s

form : State → View Action
form s = el "form" (on_submit submit ∷ []) (
    el "div" [] (
      el "Label" (prop "htmlFor" "email" ∷ []) (text "Email")
      ⊕ el "Input"
          (prop "id" "email"
            ∷ prop "type" "email"
            ∷ prop "placeholder" "you@example.com"
            ∷ prop "value" s.email
            ∷ on_change set_email
            ∷ flag "required"
            ∷ prop "autoComplete" "email"
            ∷ [])
          nothing)
    ⊕ el "div" [] (
        el "Label" (prop "htmlFor" "password" ∷ []) (text "Password")
        ⊕ el "Input"
            (prop "id" "password"
              ∷ prop "type" "password"
              ∷ prop "placeholder" "••••••••"
              ∷ prop "value" s.password
              ∷ on_change set_password
              ∷ flag "required"
              ∷ prop "autoComplete" "current-password"
              ∷ [])
            nothing)
    ⊕ when (truthy s.error) (el "div" [] (text s.error))
    ⊕ el "Button" (prop "type" "submit" ∷ disabled s.is_loading ∷ [])
        (text (if s.is_loading then "Signing in..." else "Sign in")))

unfoldable pub render : State → View Action
unfolding form
render s = el "div" [] (
    el "div" [] (
      el "div" [] (
        el "Link" (prop "to" "/" ∷ []) (el "div" [] (icon "Zap") ⊕ el "span" [] (text "PulsePoll")))
      ⊕ el "Card" [] (
          el "CardHeader" [] (
            el "CardTitle" [] (text "Welcome back")
            ⊕ el "CardDescription" [] (text "Sign in to your account to manage your polls"))
          ⊕ el "CardContent" [] (form s)
          ⊕ el "CardFooter" [] (
              el "p" [] (
                text "Don't have an account?"
                ⊕ text " "
                ⊕ el "Link" (prop "to" "/signup" ∷ []) (text "Create one"))))))
