-- ===== src/Pages/Results/Shown.antt =====
-- The two public pages and usePoll load a poll alike.
use hcl_assignment.Common.{Option, ◌≡◌, refl, false}
use hcl_assignment.Services.Model.{Poll, PollResults}
use hcl_assignment.Services.Api.{Result, ok, err}
use hcl_assignment.UsePoll
use hcl_assignment.Pages.PublicPoll
use hcl_assignment.Pages.Results.{Screen, loaded, act}

-- From the same poll, initial results and hook, the two public pages come by the same answers of the
-- server to the same poll, initial results and hook; and usePoll, from the same poll and results,
-- comes to the same poll and results. None of the three is loading any more.
pub loaded-PublicPoll :
    (poll : Result (Option Poll)) (results : Result (Option PollResults)) (s : Screen)
    (t : PublicPoll.Screen) (u : UsePoll.State)
    → s.page.poll ≡ t.page.poll
    → s.page.initial_results ≡ t.page.initial_results
    → s.hook ≡ t.hook
    → u.poll ≡ t.page.poll
    → u.results ≡ t.page.initial_results
    → let s' = act (loaded poll results) s in
      let t' = PublicPoll.act (PublicPoll.loaded poll results) t in
      let u' = UsePoll.fetch_settled poll results u in
      (s'.page.poll ≡ t'.page.poll)
      × (s'.page.initial_results ≡ t'.page.initial_results)
      × (s'.hook ≡ t'.hook)
      × (u'.poll ≡ t'.page.poll)
      × (u'.results ≡ t'.page.initial_results)
      × ((s'.page.is_loading ≡ false) × (t'.page.is_loading ≡ false) × (u'.is_loading ≡ false))
unfolding act PublicPoll.act PublicPoll.step UsePoll.fetch_settled
loaded-PublicPoll (ok poll) results s t u p i h q r =
    (refl, refl, cc, refl, refl, (refl, refl, refl))
loaded-PublicPoll (err e) results s t u p i h q r = (p, i, cc, q, r, (refl, refl, refl))
