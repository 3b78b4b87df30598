-- ===== src/Examples/Realtime.antt =====
-- Runs of the hook of useRealtimePoll.ts.
use hcl_assignment.Common.{
  ◌+◌, ◌*◌, ◌≤◌, String, Option, none, some, List, [], ◌∷◌, ◌≡◌, ◌⊎◌, refl, arith,
}
use hcl_assignment.Services.Model.{PollResults}
use hcl_assignment.Realtime.{
  Hook, Socket, Timer, Event, opened, message, closed, fired, changed, unmounted, connected,
  reconnecting, disconnected, step, mount, run,
}
use hcl_assignment.Realtime.Phases.{Inv, Live, Waiting, mount-Inv, run-mount-Inv}
use hcl_assignment.Realtime.Unmounted.{unmounted-run}
use hcl_assignment.Realtime.Results.{Brings, step-results}
use hcl_assignment.Realtime.Outage.{closed-retry}
use hcl_assignment.Realtime.Spec.{view, replay, signals, Shows}
use hcl_assignment.Realtime.Spec.Refines.{start, run-mount_refines}
use hcl_assignment.Realtime.Drain.{GivenUp, fail_on, fail_on_ends}

abbrev poll_id : Option String
poll_id = some "p1"

abbrev update : PollResults
update = record {
  type = "POLL_RESULTS_UPDATED";
  poll_id = "p1";
  counts = some (("a", 3) ∷ ("b", 1) ∷ []);
  total_votes = some 4;
  timestamp = "t";
}

-- one failed connection, the retry, and a message
abbrev events : List Event
events = closed 0 ∷ fired 1 ∷ opened 2 ∷ message 2 (some update) ∷ []

recovers :
    let s = run events (mount poll_id none) in
    (s.status ≡ connected) × (s.reconnect_attempts ≡ 0) × (s.results ≡ some update)
unfolding run mount
recovers = (refl, refl, refl)

-- eleven failures in a row
abbrev outage : List Event
outage =
    closed 0
    ∷ fired 1
    ∷ closed 2
    ∷ fired 3
    ∷ closed 4
    ∷ fired 5
    ∷ closed 6
    ∷ fired 7
    ∷ closed 8
    ∷ fired 9
    ∷ closed 10
    ∷ fired 11
    ∷ closed 12
    ∷ fired 13
    ∷ closed 14
    ∷ fired 15
    ∷ closed 16
    ∷ fired 17
    ∷ closed 18
    ∷ fired 19
    ∷ []

gives_up : (run (closed 20 ∷ []) (run outage (mount poll_id none))).status ≡ disconnected
unfolding run mount
gives_up = refl

-- the attempts stay counted for the next poll: its first lost connection is not retried
attempts_kept :
    let s = run (closed 20 ∷ changed (some "p2") ∷ []) (run outage (mount poll_id none)) in
    (s.status ≡ reconnecting)
    × (s.reconnect_attempts ≡ 10)
    × ((run (closed 21 ∷ []) s).status ≡ disconnected)
unfolding run mount
attempts_kept = (refl, refl, refl)

run-mount-Inv_example : Inv (run events (mount (some "p1") none))
run-mount-Inv_example = run-mount-Inv (some "p1") none events

abbrev mounted : Hook
mounted = mount (some "p1") none

unmounted-run_example :
    run (opened 0 ∷ closed 0 ∷ fired 1 ∷ []) (step unmounted mounted) ≡ step unmounted mounted
unmounted-run_example =
    unmounted-run (opened 0 ∷ closed 0 ∷ fired 1 ∷ []) mounted (mount-Inv (some "p1") none)
      (tt, (tt, (tt, tt)))

abbrev first_socket : Socket
first_socket = record { id = 0; poll_id = "p1" }

mounted-Live : Live mounted first_socket
unfolding mount
mounted-Live = ground arith

closed-retry_example :
    (t : Timer) × Waiting (step (closed 0) mounted) t
    × (t.delay ≡ 2000 * (mounted.reconnect_attempts + 1))
    × (t.delay ≤ 20000)
    × (t.poll_id ≡ "p1")
    × ((step (closed 0) mounted).reconnect_attempts ≡ mounted.reconnect_attempts + 1)
unfolding mount
closed-retry_example = closed-retry mounted first_socket mounted-Live (omega arith)

abbrev retrying : Hook
retrying = step (closed 0) mounted

abbrev first_timer : Timer
first_timer = record { id = 1; poll_id = "p1"; delay = 2000 }

retrying-Waiting : Waiting retrying first_timer
unfolding step mount
retrying-Waiting = ground arith

step-results_example :
    ((step (message 0 (some update)) mounted).results ≡ mounted.results)
    ⊎ ((r : PollResults) × ((step (message 0 (some update)) mounted).results ≡ some r)
        × Brings mounted (message 0 (some update)) r)
step-results_example = step-results (message 0 (some update)) mounted (mount-Inv (some "p1") none)

fail_on_ends_example : GivenUp (fail_on 21 mounted)
fail_on_ends_example = fail_on_ends mounted first_socket (mount-Inv (some "p1") none) mounted-Live

run-mount_refines_example :
    let s = run events (mount (some "p1") none) in
    (view s ≡ replay (signals events (mount (some "p1") none)) (start (some "p1")))
    × Shows (view s) s.status
run-mount_refines_example = run-mount_refines (some "p1") none events
