-- ===== src/Pages/PublicPoll/Coupled.antt =====
-- The page with its hook, in any order of answers, clicks, messages and timeouts.
use hcl_assignment.Common.{none}
use hcl_assignment.Realtime.{Event, step, mount}
use hcl_assignment.Realtime.Unmounted.{IsLate}
use hcl_assignment.Pages.Live.Follows.{
  Follows, Belongs, mount-Follows, follow-Follows, late-Follows, Follows-Belongs,
}
use hcl_assignment.Pages.PublicPoll.{Screen, Action, init, act}

-- An action of the page, the answers of the server included, or an event of a socket or timer.
pub data Turn : Screen → Screen → Type 0 where
  acts : (s : Screen) (a : Action) → Turn s (act a s)
  hears : (s : Screen) (e : Event) → IsLate e → Turn s (record s { hook = step e s.hook })

pub data Reach (s : Screen) : Screen → Type 0 where
  here : Reach s s
  next : {t u : Screen} → Reach s t → Turn t u → Reach s u

-- The first render.
abbrev pub first : Screen
first = record { page = init; hook = mount none none }

act-Follows :
    (s : Screen) (a : Action)
    → Follows s.hook s.page.poll
    → Follows (act a s).hook (act a s).page.poll
unfolding act
act-Follows s a f = follow-Follows s.page.poll _ _ s.hook f

Turn-Follows : {s t : Screen} → Turn s t → Follows s.hook s.page.poll → Follows t.hook t.page.poll
Turn-Follows (acts s a) f = act-Follows s a f
Turn-Follows (hears s e l) f = late-Follows e s.hook s.page.poll l f

Reach-Follows : {s t : Screen} → Follows s.hook s.page.poll → Reach s t → Follows t.hook t.page.poll
Reach-Follows f here = f
Reach-Follows f (next r u) = Turn-Follows u (Reach-Follows f r)

first-Follows : Follows first.hook first.page.poll
unfolding init
first-Follows = mount-Follows

-- From the first render of the voting page, by its actions, the answers of the server and the events
-- of sockets and timers in any order: the hook keeps its invariant and is mounted for the poll that
-- the page holds, and so every open socket and every pending timer is for this poll.
pub first-Belongs :
    {s : Screen} → Reach first s → Follows s.hook s.page.poll × Belongs s.hook s.page.poll
first-Belongs {s} r =
    let f = Reach-Follows first-Follows r in (f, Follows-Belongs s.hook s.page.poll f)
