-- ===== src/Realtime/Outage.antt =====
-- What an outage does: the retries, their delays, and their end.
use hcl_assignment.Common.{
  ℕ, ◌+◌, ◌-◌, ◌*◌, ◌≤◌, ◌<◌, some, List, [], ◌∷◌, ◌≡◌, ◌⊎◌, inl, inr, refl, length, arith,
}
use hcl_assignment.Realtime.{
  Hook, find_socket, find_timer, Socket, Timer, Event, opened, message, errored, closed, fired,
  changed, unmounted, initial, step, reconnecting, disconnected, backoff,
}
use hcl_assignment.Realtime.Phases.{
  Inv, Phase, idle, live, waiting, Live, Waiting, socket_cases, timer_cases,
}

-- When the live socket closes with fewer than 10 attempts made, the hook waits for 2 seconds times the
-- number of the new attempt, at most 20 seconds, for the same poll, and shows that it is
-- reconnecting.
pub closed-retry :
    (s : Hook) (w : Socket)
    → Live s w
    → s.reconnect_attempts < 10
    → (t : Timer) × Waiting (step (closed w.id) s) t
      × (t.delay ≡ 2000 * (s.reconnect_attempts + 1))
      × (t.delay ≤ 20000)
      × (t.poll_id ≡ w.poll_id)
      × ((step (closed w.id) s).reconnect_attempts ≡ s.reconnect_attempts + 1)
unfolding step
closed-retry s w v more = (
  record { id = s.next_id; poll_id = w.poll_id; delay = backoff (s.reconnect_attempts + 1) },
  ground arith,
  ground arith,
  ground arith,
  refl,
  ground arith,
)

-- When the live socket closes with 10 attempts made, the hook gives up: it has no socket and no timer,
-- and shows that it is disconnected.
pub closed-gives_up :
    (s : Hook) (w : Socket)
    → Live s w
    → s.reconnect_attempts ≡ 10
    → ((step (closed w.id) s).status ≡ disconnected)
      × ((step (closed w.id) s).sockets ≡ [])
      × ((step (closed w.id) s).timers ≡ [])
unfolding step
closed-gives_up s w v over = (ground arith, ground arith, ground arith)

-- When the pending timer fires, the hook opens a socket of the same poll and shows that it is
-- reconnecting; the attempts stay counted.
pub fired-reconnects :
    (s : Hook) (t : Timer)
    → Waiting s t
    → (w : Socket) × Live (step (fired t.id) s) w
      × (w.poll_id ≡ t.poll_id)
      × ((step (fired t.id) s).status ≡ reconnecting)
      × ((step (fired t.id) s).reconnect_attempts ≡ s.reconnect_attempts)
unfolding step
fired-reconnects s t v =
    (record { id = s.next_id; poll_id = t.poll_id }, ground arith, refl, ground arith, ground arith)

-- The closings and firings that are still to come while nothing opens.
abbrev pub budget : Hook → ℕ
budget s = 2 * (10 - s.reconnect_attempts) + length s.sockets + 2 * length s.timers

abbrev pub IsFailure : Event → Type 0
IsFailure (closed id) = Unit
IsFailure (fired id) = Unit
IsFailure _ = ⊥

find_socket-id : (ws : List Socket) (id : ℕ) (w : Socket) → find_socket id ws ≡ some w → w.id ≡ id
find_socket-id [] id w h = cc
find_socket-id (x ∷ ws) id w h = ground (arith, find_socket-id ws id w)

find_timer-id : (ts : List Timer) (id : ℕ) (t : Timer) → find_timer id ts ≡ some t → t.id ≡ id
find_timer-id [] id t h = cc
find_timer-id (x ∷ ts) id t h = ground (arith, find_timer-id ts id t)

pub on_close-budget :
    (s : Hook) (w : Socket) → Inv s → Live s w → budget (step (closed w.id) s) < budget s
unfolding step
on_close-budget s w inv v = ground (arith, inv.capped)

pub on_timer-budget : (s : Hook) (t : Timer) → Waiting s t → budget (step (fired t.id) s) < budget s
unfolding step
on_timer-budget s t v = ground arith

pub budget-le : (s : Hook) → Inv s → Phase s → budget s ≤ 21
budget-le s inv (idle a b) = ground arith
budget-le s inv (live w v) = ground arith
budget-le s inv (waiting t v) = ground (arith, inv.capped)

closed-budget :
    (id : ℕ) (s : Hook)
    → Inv s
    → (step (closed id) s ≡ s) ⊎ (budget (step (closed id) s) < budget s)
closed-budget id s inv = elim (socket_cases s id inv.phase) [
  | inl absent ↦ inl (unfold step in rw absent)
  | inr (w, found, v) ↦ inr (rw (← find_socket-id s.sockets id w found) (on_close-budget s w inv v))
]

fired-budget :
    (id : ℕ) (s : Hook) → Inv s → (step (fired id) s ≡ s) ⊎ (budget (step (fired id) s) < budget s)
fired-budget id s inv = elim (timer_cases s id inv.phase) [
  | inl absent ↦ inl (unfold step in rw absent)
  | inr (t, found, v) ↦ inr (rw (← find_timer-id s.timers id t found) (on_timer-budget s t v))
]

-- Where the hook's invariant holds, each closing of a socket and each firing of a timer changes nothing
-- or lowers the budget, which is at most 21.
pub failure-budget :
    (e : Event) (s : Hook)
    → Inv s
    → IsFailure e
    → (budget s ≤ 21) × ((step e s ≡ s) ⊎ (budget (step e s) < budget s))
failure-budget (closed id) s inv f = (budget-le s inv inv.phase, closed-budget id s inv)
failure-budget (fired id) s inv f = (budget-le s inv inv.phase, fired-budget id s inv)
failure-budget (opened id) s inv f = absurd f
failure-budget (message id payload) s inv f = absurd f
failure-budget (errored id) s inv f = absurd f
failure-budget (changed p) s inv f = absurd f
failure-budget unmounted s inv f = absurd f
failure-budget (initial value) s inv f = absurd f
