-- ===== src/Pages/Landing.antt =====
-- pages/Landing.tsx: a fixed page, but for the bar on top.
use hcl_assignment.Common.{ℕ, String, Bool, false, List, [], ◌∷◌, ◌≡◌, refl, ◌⧺◌, decimal}
use hcl_assignment.Components.Layout.{navbar}
use hcl_assignment.Ui.{View, el, text, count, ◌⊕◌, nothing, icon, each, prop, links, flag}

pub data Action : Type 0 where
  logout : Action

record StepItem : Type 0 where
  num : String
  icon_name : String
  title : String
  desc : String

abbrev steps : List StepItem
steps =
    record {
      num = "01";
      icon_name = "Zap";
      title = "Create";
      desc = "Build your poll with multiple options in seconds.";
    }
    ∷ record {
      num = "02";
      icon_name = "Share2";
      title = "Share";
      desc = "Send your unique link to any audience.";
    }
    ∷ record {
      num = "03";
      icon_name = "Eye";
      title = "Vote";
      desc = "Your audience votes instantly — no sign-up needed.";
    }
    ∷ record {
      num = "04";
      icon_name = "BarChart2";
      title = "Watch Live";
      desc = "Results update automatically in real time.";
    }
    ∷ []

record Preview : Type 0 where
  label : String
  pct : ℕ

abbrev preview : List Preview
preview =
    record { label = "Go"; pct = 45 }
    ∷ record { label = "Python"; pct = 32 }
    ∷ record { label = "TypeScript"; pct = 15 }
    ∷ record { label = "Rust"; pct = 8 }
    ∷ []

preview_bar : Preview → View Action
preview_bar item = el "div" (prop "key" item.label ∷ []) (
    el "div" [] (el "span" [] (text item.label) ⊕ el "span" [] (count item.pct ⊕ text "%"))
    ⊕ el "div" [] (el "div" (prop "width" (decimal item.pct ⧺ "%") ∷ []) nothing))

preview_card : View Action
unfolding preview_bar
preview_card = el "div" [] (
    el "div" [] (
      el "h3" [] (text "Which programming language do you prefer?")
      ⊕ el "span" [] (el "span" [] nothing ⊕ text " Live"))
    ⊕ each preview_bar preview
    ⊕ el "p" [] (text "128 total responses"))

hero : View Action
unfolding preview_card
hero = el "section" [] (
    el "div" [] (
      el "span" [] (el "span" [] nothing ⊕ el "span" [] nothing)
      ⊕ text "Live polling, powered by WebSockets & Redis")
    ⊕ el "h1" [] (
        text "Create polls."
        ⊕ text " "
        ⊕ el "span" [] (text "Get instant")
        ⊕ text " "
        ⊕ text "responses.")
    ⊕ el "p" [] (
        text
          "Launch a poll in seconds and watch your audience respond in real time. No page refresh. No delays. Fast live results.")
    ⊕ el "div" [] (
        el "Button" (prop "size" "lg" ∷ flag "asChild" ∷ [])
          (el "Link" (prop "to" "/signup" ∷ []) (text "Create a Poll"))
        ⊕ el "Button" (prop "size" "lg" ∷ prop "variant" "outline" ∷ flag "asChild" ∷ [])
            (el "Link" (prop "to" "/login" ∷ []) (text "Sign In")))
    ⊕ preview_card)

step_card : StepItem → View Action
step_card step = el "div" (prop "key" step.num ∷ []) (
    el "div" [] (el "span" [] (text step.num) ⊕ el "div" [] (icon step.icon_name))
    ⊕ el "h3" [] (text step.title)
    ⊕ el "p" [] (text step.desc))

how_it_works : View Action
unfolding step_card
how_it_works = el "section" [] (
    el "div" [] (
      el "h2" [] (text "How it works")
      ⊕ el "p" [] (text "Four simple steps to real-time live polling"))
    ⊕ el "div" [] (each step_card steps))

call_to_action : View Action
call_to_action = el "section" [] (
    el "div" [] (
      el "h2" [] (text "Ready to get started?")
      ⊕ el "p" [] (text "Create your first poll and share it with your audience.")
      ⊕ el "Button" (prop "size" "lg" ∷ flag "asChild" ∷ [])
          (el "Link" (prop "to" "/signup" ∷ []) (text "Start Free Now"))))

unfoldable pub render : Bool → View Action
unfolding hero how_it_works call_to_action
render is_authenticated = el "div" [] (
    navbar logout is_authenticated
    ⊕ hero
    ⊕ how_it_works
    ⊕ call_to_action
    ⊕ el "footer" []
        (el "p" [] (text "© PulsePoll · Create polls. Share instantly. Watch responses live.")))

guest_links :
    links (render false) ≡ "/" ∷ "/login" ∷ "/signup" ∷ "/signup" ∷ "/login" ∷ "/signup" ∷ []
unfolding links render navbar
guest_links = refl
