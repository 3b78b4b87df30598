-- ===== src/Pages/Requests/Single.antt =====
-- The pages with a form, the dashboard, and the page that manages a poll: no request is sent twice.
use hcl_assignment.Common.{ℕ, String, Option, none, refl}
use hcl_assignment.Services.Model.{User}
use hcl_assignment.Pages.Requests.{Requester, Flight, Reach, AtMostOne, Reach-AtMostOne}
use hcl_assignment.Pages.Login
use hcl_assignment.Pages.Login.Requests.{requester as login_requester}
use hcl_assignment.Pages.Signup
use hcl_assignment.Pages.Signup.Requests.{requester as signup_requester}
use hcl_assignment.Pages.CreatePoll
use hcl_assignment.Pages.CreatePoll.Requests.{requester as create_poll_requester}
use hcl_assignment.Pages.Dashboard
use hcl_assignment.Pages.Dashboard.Requests.{requester as dashboard_requester}
use hcl_assignment.Realtime.{mount}
use hcl_assignment.Pages.ManagePoll
use hcl_assignment.Pages.ManagePoll.Requests.{
  Kind, closing, deleting, Move, requester as manage_requester,
}

-- A page as it is first rendered, with no request in flight.
abbrev pub first : {S A : Type 0} (page : Requester S A) → S → Flight page
first page s = record { state = s; pending = 0 }

-- The page that manages a poll, as it is first rendered.
abbrev pub first_screen : ManagePoll.Screen
first_screen = record { page = ManagePoll.init; hook = mount none none }

module _ (origin pathname : String) (user : Option User) (now hour : ℕ)
    (format_date : String → String) where
  abbrev pub create_page : Requester CreatePoll.State CreatePoll.Action
  create_page = create_poll_requester origin pathname user now

  abbrev pub board_page : Requester Dashboard.State Dashboard.Action
  board_page = dashboard_requester origin pathname user hour format_date

  abbrev pub manage_page : Kind → Requester ManagePoll.Screen Move
  manage_page k = manage_requester k origin pathname user

  -- Whatever the user does and however late the answers come: the login page has at most one login in
  -- flight, the signup page one signup, the form of a new poll one creation, the dashboard one
  -- deletion, and the page that manages a poll one closing and one deletion; each is busy exactly
  -- while its request is in flight. The user submits a form, or confirms a deletion or a closing,
  -- only where the rendered page lets it.
  pub pages-AtMostOne :
      {l : Flight login_requester} {s : Flight signup_requester} {c : Flight create_page}
      {d : Flight board_page} {x : Flight (manage_page closing)} {y : Flight (manage_page deleting)}
      → Reach login_requester (first login_requester Login.init) l
      → Reach signup_requester (first signup_requester Signup.init) s
      → Reach create_page (first create_page CreatePoll.init) c
      → Reach board_page (first board_page Dashboard.init) d
      → Reach (manage_page closing) (first (manage_page closing) first_screen) x
      → Reach (manage_page deleting) (first (manage_page deleting) first_screen) y
      → AtMostOne login_requester l
        × AtMostOne signup_requester s
        × AtMostOne create_page c
        × AtMostOne board_page d
        × AtMostOne (manage_page closing) x
        × AtMostOne (manage_page deleting) y
  unfolding Login.init Signup.init CreatePoll.init Dashboard.init ManagePoll.init
  pages-AtMostOne l s c d x y = (
    Reach-AtMostOne login_requester refl l,
    Reach-AtMostOne signup_requester refl s,
    Reach-AtMostOne create_page refl c,
    Reach-AtMostOne board_page refl d,
    Reach-AtMostOne (manage_page closing) refl x,
    Reach-AtMostOne (manage_page deleting) refl y,
  )
