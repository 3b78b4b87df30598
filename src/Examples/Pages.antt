-- ===== src/Examples/Pages.antt =====
-- The pages of one poll and the dashboard.
use hcl_assignment.Common.{◌≤◌, ◌<◌, true, false, Option, none, some, [], ◌∷◌, ◌≡◌, ◌↔◌, ◌⊎◌, refl}
use hcl_assignment.Services.Model.{Poll, PollResults, active, closed}
use hcl_assignment.Services.Api.{Result, ok, err, api_error, code_of}
use hcl_assignment.Realtime.{Hook, mount, step, opened, connected}
use hcl_assignment.Pages.Live.Follows.{Follows, Belongs}
use hcl_assignment.Pages.Live.{follow}
use hcl_assignment.Pages.PublicPoll.Coupled
use hcl_assignment.Pages.PublicPoll.Votes
use hcl_assignment.Pages.PublicPoll.Votes.{Ballot, first-votes}
use hcl_assignment.Pages.ManagePoll.Coupled as ManageCoupled
use hcl_assignment.Ui.{offers}
use hcl_assignment.Pages.PublicPoll
use hcl_assignment.Pages.PublicPoll.Voting.{run}
use hcl_assignment.Pages.PublicPoll.Offered.{is_vote, offers_vote-render, run-offers_no_vote}
use hcl_assignment.Pages.ManagePoll
use hcl_assignment.Pages.Dashboard
use hcl_assignment.Pages.Dashboard.Polls.{find_poll, deleted-find_poll}

abbrev poll : Poll
poll = record {
  id = "p1";
  creator_id = "u1";
  title = "Which one?";
  description = "";
  options = record { id = "a"; text = "Go" } ∷ record { id = "b"; text = "Rust" } ∷ [];
  share_code = "abc";
  status = active;
  created_at = "t";
  updated_at = "t";
  expires_at = none;
}

abbrev counted : PollResults
counted = record {
  type = "POLL_RESULTS_UPDATED";
  poll_id = "p1";
  counts = some (("a", 1) ∷ []);
  total_votes = some 1;
  timestamp = "t";
}

abbrev hook : Hook
hook = mount (some "p1") none

abbrev chosen : PublicPoll.Screen
chosen = record {
  page = record PublicPoll.init { poll = some poll; is_loading = false; selected_option = "a" };
  hook = hook;
}

offers-chosen : offers is_vote (PublicPoll.render (some "abc") chosen) ≡ true
unfolding PublicPoll.init
offers-chosen = offers_vote-render (some "abc") poll chosen refl

abbrev second_vote : Result (Option PollResults)
second_vote = err (api_error "You have already voted on this poll" "ALREADY_VOTED" 409)

run-offers_no_vote_example :
    offers is_vote (
      PublicPoll.render (some "abc") (record {
        page =
            run
              (PublicPoll.select "b" ∷ PublicPoll.vote ∷ [])
              (PublicPoll.step (PublicPoll.voted second_vote) chosen.page).0;
        hook = hook;
      }))
    ≡ false
unfolding code_of
run-offers_no_vote_example =
    run-offers_no_vote (some "abc") (PublicPoll.select "b" ∷ PublicPoll.vote ∷ []) second_vote
      chosen.page hook refl

-- The page loads its poll and hears that its first socket is open.
abbrev heard : PublicPoll.Screen
heard =
    let shown = PublicPoll.act (PublicPoll.loaded (ok (some poll)) (ok none)) Coupled.first in
    record shown { hook = step (opened 0) shown.hook }

heard_reached : Coupled.Reach Coupled.first heard
heard_reached =
    Coupled.next
      (Coupled.next Coupled.here
        (Coupled.acts Coupled.first (PublicPoll.loaded (ok (some poll)) (ok none))))
      (Coupled.hears _ (opened 0) tt)

heard_status : heard.hook.status ≡ connected
unfolding PublicPoll.act PublicPoll.step PublicPoll.init mount step follow
heard_status = refl

first-Belongs_example : Follows heard.hook heard.page.poll × Belongs heard.hook heard.page.poll
first-Belongs_example = Coupled.first-Belongs heard_reached

abbrev ready : Ballot
ready =
    Votes.take_step (PublicPoll.select "a")
      (Votes.take_step (PublicPoll.loaded (ok (some poll)) (ok none)) Votes.first)

abbrev cast : Ballot
cast = Votes.take_step PublicPoll.vote ready

cast_reached : Votes.Reach (some "abc") Votes.first cast
unfolding PublicPoll.step PublicPoll.init
cast_reached =
    Votes.next
      (Votes.next
        (Votes.next Votes.here
          (Votes.others Votes.first (PublicPoll.loaded (ok (some poll)) (ok none)) tt))
        (Votes.others _ (PublicPoll.select "a") tt))
      (Votes.clicks ready hook
        (offers_vote-render (some "abc") poll (record { page = ready.page; hook = hook }) refl))

cast_in_flight : cast.voting ≡ 1
unfolding PublicPoll.step PublicPoll.init
cast_in_flight = refl

first-votes_example :
    (cast.voting ≤ 1)
    × ((cast.page.is_voting ≡ true) ↔ (0 < cast.voting))
    × (cast.confirmed ≤ 1)
    × ((cast.confirmed ≡ 0) ⊎ (cast.page.has_voted ≡ true))
first-votes_example = first-votes (some "abc") cast_reached

abbrev managed_load : ManagePoll.Screen
managed_load =
    ManagePoll.act "https://p" (ManagePoll.loaded (ok (some (ManagePoll.bare poll))) (ok none))
      ManageCoupled.first

-- The page has loaded its poll, and asks for closing it.
abbrev managed : ManagePoll.Screen
managed = ManagePoll.act "https://p" (ManagePoll.close_open true) managed_load

abbrev listed : Dashboard.State
listed = record {
  polls = poll ∷ record poll { id = "p2" } ∷ [];
  is_loading = false;
  deleting_poll = some poll;
  is_deleting = true;
}

deleted-find_poll_example :
    let s' = (Dashboard.step "https://p" (Dashboard.deleted poll (ok none)) listed).0 in
    (find_poll "p1" s'.polls ≡ none) × (s'.deleting_poll ≡ none) × (s'.is_deleting ≡ false)
deleted-find_poll_example = deleted-find_poll "https://p" poll (ok none) listed "p1"

abbrev updated : Poll
updated = record poll { status = closed }
