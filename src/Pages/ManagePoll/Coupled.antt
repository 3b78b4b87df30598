-- ===== src/Pages/ManagePoll/Coupled.antt =====
-- The page with its hook, in any order of answers, clicks, messages and timeouts.
use hcl_assignment.Common.{String, none}
use hcl_assignment.Realtime.{Event, step, mount}
use hcl_assignment.Realtime.Unmounted.{IsLate}
use hcl_assignment.Pages.Live.Follows.{
  Follows, Belongs, mount-Follows, follow-Follows, late-Follows, Follows-Belongs,
}
use hcl_assignment.Pages.ManagePoll.{Screen, Action, init, act}

-- An action of the page, the answers of the server included, or an event of a socket or timer.
pub data Turn (origin : String) : Screen → Screen → Type 0 where
  acts : (s : Screen) (a : Action) → Turn origin s (act origin a s)
  hears : (s : Screen) (e : Event) → IsLate e → Turn origin s (record s { hook = step e s.hook })

pub data Reach (origin : String) (s : Screen) : Screen → Type 0 where
  here : Reach origin s s
  next : {t u : Screen} → Reach origin s t → Turn origin t u → Reach origin s u

-- The first render.
abbrev pub first : Screen
first = record { page = init; hook = mount none none }

act-Follows :
    (origin : String) (s : Screen) (a : Action)
    → Follows s.hook s.page.poll
    → Follows (act origin a s).hook (act origin a s).page.poll
unfolding act
act-Follows origin s a f = follow-Follows s.page.poll _ _ s.hook f

Turn-Follows :
    {origin : String} {s t : Screen}
    → Turn origin s t
    → Follows s.hook s.page.poll
    → Follows t.hook t.page.poll
Turn-Follows {origin} (acts s a) f = act-Follows origin s a f
Turn-Follows (hears s e l) f = late-Follows e s.hook s.page.poll l f

Reach-Follows :
    {origin : String} {s t : Screen}
    → Follows s.hook s.page.poll
    → Reach origin s t
    → Follows t.hook t.page.poll
Reach-Follows f here = f
Reach-Follows f (next r u) = Turn-Follows u (Reach-Follows f r)

first-Follows : Follows first.hook first.page.poll
unfolding init
first-Follows = mount-Follows

-- From the first render of the page that manages a poll, by its actions, the answers of the server and
-- the events of sockets and timers in any order: the hook keeps its invariant and is mounted for the
-- poll that the page holds, so that every open socket and every pending timer is for this poll.
pub Reach-Belongs :
    (origin : String) {s : Screen}
    → Reach origin first s
    → Follows s.hook s.page.poll × Belongs s.hook s.page.poll
Reach-Belongs origin {s} r =
    let f = Reach-Follows first-Follows r in (f, Follows-Belongs s.hook s.page.poll f)
