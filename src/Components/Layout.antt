-- ===== src/Components/Layout.antt =====
-- components/layout: Navbar and Sidebar.
use hcl_assignment.Common.{
  String, Bool, true, false, Option, none, some, List, [], ◌∷◌, ◌==◌, if◌then◌else◌,
}
use hcl_assignment.Services.Model.{User}
use hcl_assignment.Effects.{Effect, call, log_out, toast_success, navigate}
use hcl_assignment.Ui.{View, el, text, ◌⊕◌, nothing, icon, prop, on_click, each, flag}

-- The two `handleLogout`.
unfoldable pub navbar_logout : List Effect
navbar_logout = call log_out ∷ toast_success "Logged out successfully" ∷ navigate "/" ∷ []

unfoldable pub sidebar_logout : List Effect
sidebar_logout = call log_out ∷ toast_success "Logged out" ∷ navigate "/" ∷ []

pub record NavItem : Type 0 where
  pub href : String
  pub label : String
  pub icon : String

abbrev pub nav_items : List NavItem
nav_items =
    record { href = "/dashboard"; label = "Dashboard"; icon = "LayoutDashboard" }
    ∷ record { href = "/dashboard/polls"; label = "My Polls"; icon = "BarChart2" }
    ∷ record { href = "/polls/create"; label = "Create Poll"; icon = "Plus" }
    ∷ record { href = "/dashboard/settings"; label = "Settings"; icon = "Settings" }
    ∷ []

module _ {A : Type 0} (logout : A) where
  navbar_actions : Bool → View A
  navbar_actions true =
      el "Button" (prop "variant" "ghost" ∷ flag "asChild" ∷ [])
        (el "Link" (prop "to" "/dashboard" ∷ []) (text "Dashboard"))
      ⊕ el "Button" (prop "variant" "outline" ∷ on_click logout ∷ []) (text "Logout")
  navbar_actions false =
      el "Button" (prop "variant" "ghost" ∷ flag "asChild" ∷ [])
        (el "Link" (prop "to" "/login" ∷ []) (text "Login"))
      ⊕ el "Button" (flag "asChild" ∷ [])
          (el "Link" (prop "to" "/signup" ∷ []) (text "Create Poll"))

  unfoldable pub navbar : Bool → View A
  unfolding navbar_actions
  navbar is_authenticated = el "nav" [] (
      el "div" [] (
        el "Link" (prop "to" "/" ∷ []) (el "div" [] (icon "Zap") ⊕ el "span" [] (text "PulsePoll"))
        ⊕ el "div" [] (navbar_actions is_authenticated)))

  nav_link : String → NavItem → View A
  nav_link pathname item =
      el "Link"
        (prop "key" item.href
          ∷ prop "to" item.href
          ∷ prop "class" (
              if pathname == item.href
              then "bg-primary text-primary-foreground"
              else "text-muted-foreground hover:bg-accent hover:text-foreground")
          ∷ [])
        (el item.icon [] nothing ⊕ text item.label)

  name_of : Option User → View A
  name_of none = nothing
  name_of (some u) = text u.name

  email_of : Option User → View A
  email_of none = nothing
  email_of (some u) = text u.email

  unfoldable pub sidebar : String → Option User → View A
  unfolding nav_link name_of email_of
  sidebar pathname user = el "aside" [] (
      el "div" [] (el "div" [] (icon "Zap") ⊕ el "span" [] (text "PulsePoll"))
      ⊕ el "nav" [] (each (nav_link pathname) nav_items)
      ⊕ el "div" [] (
          el "div" []
            (el "p" [] (text "Signed in as") ⊕ el "p" [] (name_of user) ⊕ el "p" [] (email_of user))
          ⊕ el "Button" (prop "variant" "ghost" ∷ on_click logout ∷ [])
              (icon "LogOut" ⊕ text "Logout")))
