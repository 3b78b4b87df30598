-- ===== src/Examples/Requests.antt =====
-- The pages with one kind of request.
use hcl_assignment.Common.{true, none, some, List, [], ◌∷◌, ◌≡◌, refl}
use hcl_assignment.Services.Model.{Poll, active}
use hcl_assignment.Services.Api.{ok}
use hcl_assignment.Pages.Requests.{
  Requester, Flight, Reach, here, next, begins, others, take_step, AtMostOne,
}
use hcl_assignment.Pages.Requests.Single.{
  first, first_screen, create_page, board_page, manage_page, pages-AtMostOne,
}
use hcl_assignment.Pages.Login
use hcl_assignment.Pages.Login.Requests.{requester as login_requester}
use hcl_assignment.Pages.Signup
use hcl_assignment.Pages.Signup.Requests.{requester as signup_requester}
use hcl_assignment.Pages.CreatePoll
use hcl_assignment.Pages.ManagePoll
use hcl_assignment.Pages.ManagePoll.Requests.{closing, deleting, Move, does}
use hcl_assignment.Pages.ManagePoll.Offered.{offers_requests-render}
use hcl_assignment.Pages.Dashboard
use hcl_assignment.Pages.Dashboard.Polls.{find_poll}
use hcl_assignment.Pages.Dashboard.Deleted.{run, deleted-run}
use hcl_assignment.Ui.Submits.{submits}

abbrev fresh_login : Flight login_requester
fresh_login = first login_requester Login.init

abbrev sent_login : Flight login_requester
sent_login = take_step login_requester Login.submit fresh_login

can_submit : login_requester.is_offered fresh_login.state ≡ true
unfolding submits Login.render Login.init
can_submit = refl

login_sent : Reach login_requester fresh_login sent_login
login_sent = next here (begins fresh_login Login.submit refl can_submit)

abbrev poll : Poll
poll = record {
  id = "p1";
  creator_id = "u1";
  title = "Which one?";
  description = "";
  options = record { id = "a"; text = "Go" } ∷ record { id = "b"; text = "Rust" } ∷ [];
  share_code = "abc";
  status = active;
  created_at = "t";
  updated_at = "t";
  expires_at = none;
}

-- The page that manages the poll has loaded it, asks for closing it, and sends that.
abbrev manage : Requester ManagePoll.Screen Move
manage = manage_page "https://p" "/polls/p1/manage" none 0 9 (λ s. s) closing

abbrev loaded : Flight manage
loaded =
    take_step manage (does (ManagePoll.loaded (ok (some (ManagePoll.bare poll))) (ok none)))
      (first manage first_screen)

abbrev asked : Flight manage
asked = take_step manage (does (ManagePoll.close_open true)) loaded

abbrev sent_close : Flight manage
sent_close = take_step manage (does ManagePoll.confirm_close) asked

can_close : manage.is_offered asked.state ≡ true
unfolding ManagePoll.act ManagePoll.step ManagePoll.init
can_close = (offers_requests-render "https://p" "/polls/p1/manage" none asked.state).1

close_sent : Reach manage (first manage first_screen) sent_close
close_sent =
    next
      (next
        (next here (
          others (first manage first_screen)
            (does (ManagePoll.loaded (ok (some (ManagePoll.bare poll))) (ok none))) refl))
        (others loaded (does (ManagePoll.close_open true)) refl))
      (begins asked (does ManagePoll.confirm_close) refl can_close)

close_pending : sent_close.pending ≡ 1
unfolding ManagePoll.act ManagePoll.step ManagePoll.init
close_pending = refl

pages-AtMostOne_example :
    AtMostOne login_requester sent_login
    × AtMostOne signup_requester (first signup_requester Signup.init)
    × AtMostOne
        (create_page "https://p" "/polls/p1/manage" none 0 9 (λ s. s))
        (first (create_page "https://p" "/polls/p1/manage" none 0 9 (λ s. s)) CreatePoll.init)
    × AtMostOne
        (board_page "https://p" "/polls/p1/manage" none 0 9 (λ s. s))
        (first (board_page "https://p" "/polls/p1/manage" none 0 9 (λ s. s)) Dashboard.init)
    × AtMostOne manage sent_close
    × AtMostOne
        (manage_page "https://p" "/polls/p1/manage" none 0 9 (λ s. s) deleting)
        (first (manage_page "https://p" "/polls/p1/manage" none 0 9 (λ s. s) deleting) first_screen)
pages-AtMostOne_example =
    pages-AtMostOne "https://p" "/polls/p1/manage" none 0 9 (λ s. s) login_sent here here here
      close_sent here

abbrev listed : Dashboard.State
listed = (Dashboard.step "https://p" (Dashboard.loaded (ok (some (poll ∷ [])))) Dashboard.init).0

-- a late answer of a closing does not bring the poll back
abbrev later : List Dashboard.Action
later = Dashboard.closed_poll (ok poll) ∷ Dashboard.ask_delete poll ∷ []

deleted-run_example :
    find_poll "p1"
      (run "https://p" later
        (Dashboard.step "https://p" (Dashboard.deleted poll (ok none)) listed).0).polls
    ≡ none
deleted-run_example = deleted-run "https://p" poll none listed later (tt, (tt, tt))
