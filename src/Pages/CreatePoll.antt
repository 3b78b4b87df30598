-- ===== src/Pages/CreatePoll.antt =====
-- pages/CreatePoll.tsx
pub mod Options
pub mod Submission
pub mod Screen
pub mod Requests
use hcl_assignment.Common.{
  ℕ, ◌+◌, String, Bool, true, false, not, Option, none, some, List, [], ◌∷◌, ◌++◌, ◌⧺◌, map, filter,
  length, ltb, leb, ◌==◌, truthy, trim, decimal, if◌then◌else◌,
}
use hcl_assignment.Services.Model.{Poll, CreatePollData, User}
use hcl_assignment.Services.Api.{Result, ok, err, message_or}
use hcl_assignment.Effects.{Effect, call, create_poll, toast_success, navigate}
use hcl_assignment.Components.Dialogs.{ShareAction, share_step, share_poll_dialog}
use hcl_assignment.Components.Layout.{sidebar, sidebar_logout}
use hcl_assignment.Utils.Constants.{share_url}
use hcl_assignment.Ui.{
  View, el, text, count, ◌⊕◌, nothing, icon, when, prop, number, flag, disabled, on_click,
  on_submit, on_change,
}

pub record OptionRow : Type 0 where
  pub id : String
  pub text : String

-- `copied` is the state of the share dialog.
pub record State : Type 0 where
  pub title : String
  pub description : String
  pub options : List OptionRow
  pub is_loading : Bool
  pub error : String
  pub created_poll : Option Poll
  pub show_share : Bool
  pub copied : Bool

unfoldable pub init : State
init = record {
  title = "";
  description = "";
  options = record { id = "1"; text = "" } ∷ record { id = "2"; text = "" } ∷ [];
  is_loading = false;
  error = "";
  created_poll = none;
  show_share = false;
  copied = false;
}

-- addOption; the argument is `Date.now()`.
unfoldable pub add_option : ℕ → State → State
add_option now s =
    if leb 10 (length s.options)
    then s
    else record s { options = s.options ++ record { id = decimal now; text = "" } ∷ [] }

unfoldable pub remove_option : String → State → State
remove_option id s =
    if leb (length s.options) 2
    then s
    else record s { options = filter (λ o. not (o.id == id)) s.options }

retext : String → String → OptionRow → OptionRow
retext id value o = if o.id == id then record o { text = value } else o

unfoldable pub update_option : String → String → State → State
unfolding retext
update_option id value s = record s { options = map (retext id value) s.options }

abbrev pub is_filled : OptionRow → Bool
is_filled o = truthy (trim o.text)

unfoldable pub filled_options : State → List OptionRow
filled_options s = filter is_filled s.options

unfoldable pub payload : State → CreatePollData
unfolding filled_options
payload s = record {
  title = trim s.title;
  description = trim s.description;
  options = map (λ o. trim o.text) (filled_options s);
}

-- handleSubmit up to the call.
unfoldable pub handle_submit : State → State × List Effect
unfolding filled_options payload
handle_submit s =
    if ltb (length (filled_options s)) 2
    then (record s { error = "Please provide at least 2 options" }, [])
    else if not (truthy (trim s.title))
    then (record s { error = "Poll title is required" }, [])
    else (record s { error = ""; is_loading = true }, call (create_poll (payload s)) ∷ [])

-- handleSubmit from the answer of `pollService.create`.
unfoldable pub submit_settled : Result (Option Poll) → State → State × List Effect
submit_settled (ok poll) s = (
  record s { created_poll = poll; show_share = true; is_loading = false },
  toast_success "Poll created successfully!" ∷ [],
)
submit_settled (err e) s =
    (record s { error = message_or "Failed to create poll" e; is_loading = false }, [])

-- `onOpenChange` of the share dialog.
unfoldable pub share_changed : Bool → State → State × List Effect
share_changed true s = (record s { show_share = true }, [])
share_changed false s = (
  record s { show_share = false },
  elim s.created_poll [ none ↦ [] | some p ↦ navigate ("/polls/" ⧺ p.id ⧺ "/manage") ∷ [] ],
)

pub data Action : Type 0 where
  set_title : String → Action
  set_description : String → Action
  add : ℕ → Action
  remove : String → Action
  update : String → String → Action
  submit : Action
  settled : Result (Option Poll) → Action
  share_open : Bool → Action
  share : ShareAction → Action
  back : Action
  logout : Action

shared : Bool × List Effect → State → State × List Effect
shared (copied, effects) s = (record s { copied = copied }, effects)

abbrev share_url_of : String → Option Poll → String
share_url_of origin none = ""
share_url_of origin (some p) = share_url origin p.share_code

unfoldable pub step : String → Action → State → State × List Effect
unfolding add_option remove_option update_option handle_submit submit_settled share_changed shared
step origin (set_title value) s = (record s { title = value }, [])
step origin (set_description value) s = (record s { description = value }, [])
step origin (add now) s = (add_option now s, [])
step origin (remove id) s = (remove_option id s, [])
step origin (update id value) s = (update_option id value s, [])
step origin submit s = handle_submit s
step origin (settled answer) s = submit_settled answer s
step origin (share_open is_open) s = share_changed is_open s
step origin (share a) s = shared (share_step (share_url_of origin s.created_poll) a s.copied) s
step origin back s = (s, navigate "/dashboard" ∷ [])
step origin logout s = (s, sidebar_logout)

-- One row of the form; `count` is the number of rows.
option_row : ℕ → ℕ → OptionRow → View Action
option_row total index o = el "div" (prop "key" o.id ∷ []) (
    el "span" [] (count (index + 1))
    ⊕ el "Input"
        (prop "placeholder" ("Option " ⧺ decimal (index + 1))
          ∷ prop "value" o.text
          ∷ on_change (update o.id)
          ∷ number "maxLength" 200
          ∷ flag "required"
          ∷ [])
        nothing
    ⊕ el "Button"
        (prop "type" "button"
          ∷ prop "variant" "ghost"
          ∷ prop "size" "icon"
          ∷ on_click (remove o.id)
          ∷ disabled (leb total 2)
          ∷ [])
        (icon "Trash2"))

option_rows : ℕ → ℕ → List OptionRow → View Action
unfolding option_row
option_rows total index [] = nothing
option_rows total index (o ∷ rest) = option_row total index o ⊕ option_rows total (index + 1) rest

details : State → View Action
details s = el "Card" [] (
    el "CardHeader" [] (el "CardTitle" [] (text "Poll Details"))
    ⊕ el "CardContent" [] (
        el "div" [] (
          el "Label" (prop "htmlFor" "title" ∷ []) (text "Question *")
          ⊕ el "Input"
              (prop "id" "title"
                ∷ prop "placeholder" "e.g., Which backend framework do you prefer?"
                ∷ prop "value" s.title
                ∷ on_change set_title
                ∷ number "maxLength" 300
                ∷ flag "required"
                ∷ [])
              nothing)
        ⊕ el "div" [] (
            el "Label" (prop "htmlFor" "description" ∷ []) (text "Description (optional)")
            ⊕ el "Textarea"
                (prop "id" "description"
                  ∷ prop "placeholder" "Add more context or details for voters..."
                  ∷ prop "value" s.description
                  ∷ on_change set_description
                  ∷ number "maxLength" 1000
                  ∷ number "rows" 3
                  ∷ [])
                nothing)))

-- `now` is the time of the click on "Add Option".
options_card : ℕ → State → View Action
unfolding option_rows
options_card now s = el "Card" [] (
    el "CardHeader" [] (
      el "CardTitle" [] (text "Options")
      ⊕ el "CardDescription" [] (text "Add 2 to 10 choices for your audience"))
    ⊕ el "CardContent" [] (
        option_rows (length s.options) 0 s.options
        ⊕ when (ltb (length s.options) 10) (
            el "Button" (prop "type" "button" ∷ prop "variant" "outline" ∷ on_click (add now) ∷ [])
              (icon "Plus" ⊕ text " Add Option"))))

share_dialog : String → State → Option Poll → View Action
share_dialog origin s none = nothing
share_dialog origin s (some p) =
    share_poll_dialog share share_open origin s.copied s.show_share p.share_code p.title

unfoldable pub render : String → String → Option User → ℕ → State → View Action
unfolding details options_card share_dialog
render origin pathname user now s = el "div" [] (
    el "div" [] (sidebar logout pathname user)
    ⊕ el "main" [] (
        el "div" [] (
          el "div" [] (
            el "Button" (prop "variant" "ghost" ∷ prop "size" "icon" ∷ on_click back ∷ [])
              (icon "ArrowLeft")
            ⊕ el "div" [] (
                el "h1" [] (text "Create a new poll")
                ⊕ el "p" [] (text "Build your question and customize options")))
          ⊕ el "form" (on_submit submit ∷ []) (
              details s
              ⊕ options_card now s
              ⊕ when (truthy s.error) (el "div" [] (text s.error))
              ⊕ el "Button" (prop "type" "submit" ∷ prop "size" "lg" ∷ disabled s.is_loading ∷ [])
                  (text (if s.is_loading then "Creating..." else "Create Poll")))))
    ⊕ share_dialog origin s s.created_poll)
