-- ===== src/Realtime/Phases.antt =====
-- At any time the hook has one live socket, or one pending timer, or neither.
use hcl_assignment.Common.{
  ℕ, ◌+◌, ◌*◌, ◌≤◌, ◌<◌, String, true, Option, none, some, List, [], ◌∷◌, ◌≡◌, ◌≢◌, ◌⊎◌, refl, inl,
  inr, Bool-cases, truthy, ltb, eqb, arith,
}
use hcl_assignment.Services.Model.{PollResults}
use hcl_assignment.Realtime.{
  reconnecting, disconnected, Socket, Timer, Hook, Event, find_socket, find_timer, on_open,
  on_message, on_close, connect_to, backoff, opened, message, errored, closed, fired, changed,
  unmounted, initial, connect, cleanup, step, mount, run,
}

-- The socket `w` is the only one, it is the one in the ref, and it belongs to the current poll.
pub record Live (s : Hook) (w : Socket) : Type 0 where
  pub only : s.sockets ≡ w ∷ []
  pub no_timer : s.timers ≡ []
  pub on : s.mounted ≡ true
  pub ref : s.ws_ref ≡ some w
  pub here : s.poll_id ≡ some w.poll_id
  pub real : truthy w.poll_id ≡ true
  pub trying : s.status ≢ disconnected

-- The timer `t` is the only one, it is the one in the ref, and it will connect to the current poll
-- after 2 seconds for each attempt.
pub record Waiting (s : Hook) (t : Timer) : Type 0 where
  pub no_socket : s.sockets ≡ []
  pub only : s.timers ≡ t ∷ []
  pub on : s.mounted ≡ true
  pub ref : s.reconnect_timer ≡ some t.id
  pub here : s.poll_id ≡ some t.poll_id
  pub real : truthy t.poll_id ≡ true
  pub trying : s.status ≡ reconnecting
  pub linear : t.delay ≡ 2000 * s.reconnect_attempts
  pub counted : 0 < s.reconnect_attempts

pub data Phase (s : Hook) : Type 0 where
  idle : s.sockets ≡ [] → s.timers ≡ [] → Phase s
  live : (w : Socket) → Live s w → Phase s
  waiting : (t : Timer) → Waiting s t → Phase s

pub record Inv (s : Hook) : Type 0 where
  pub capped : s.reconnect_attempts ≤ 10
  pub phase : Phase s

pub cleanup-idle : (s : Hook) → Phase s → ((cleanup s).sockets ≡ []) × ((cleanup s).timers ≡ [])
unfolding cleanup
cleanup-idle s (idle a b) = ground arith
cleanup-idle s (live w v) = ground arith
cleanup-idle s (waiting t v) = ground arith

module _ (p : String) (s : Hook) (no_socket : s.sockets ≡ []) (no_timer : s.timers ≡ []) where
  connect_to-Phase : s.mounted ≡ true → s.poll_id ≡ some p → Phase (connect_to p s)
  unfolding connect_to
  connect_to-Phase on here = elim (Bool-cases (truthy p)) [
    | inl t ↦ live (record { id = s.next_id; poll_id = p }) (ground arith)
    | inr f ↦ idle (ground arith) (ground arith)
  ]

  on_close-Phase :
      s.mounted ≡ true
      → s.poll_id ≡ some p
      → truthy p ≡ true
      → s.reconnect_attempts ≤ 10
      → Phase (on_close p s)
  unfolding on_close
  on_close-Phase on here real cap = elim (Bool-cases (ltb s.reconnect_attempts 10)) [
    | inl more ↦
        waiting (record { id = s.next_id; poll_id = p; delay = backoff (s.reconnect_attempts + 1) })
          (ground arith)
    | inr over ↦ idle (ground arith) (ground arith)
  ]

connect-Phase :
    (p : Option String) (s : Hook)
    → s.sockets ≡ []
    → s.timers ≡ []
    → s.mounted ≡ true
    → s.poll_id ≡ p
    → Phase (connect p s)
unfolding connect
connect-Phase none s a b on here = idle a b
connect-Phase (some p) s a b on here = connect_to-Phase p s a b on here

connect-attempts :
    (p : Option String) (s : Hook) → (connect p s).reconnect_attempts ≡ s.reconnect_attempts
unfolding connect
connect-attempts none s = refl
connect-attempts (some p) s = ground arith

pub mount-Inv : (p : Option String) (value : Option PollResults) → Inv (mount p value)
unfolding mount
mount-Inv p value = record {
  capped = rw (connect-attempts p) (omega arith);
  phase = connect-Phase p _ refl refl refl refl;
}

pub socket_cases :
    (s : Hook) (id : ℕ)
    → Phase s
    → (find_socket id s.sockets ≡ none)
      ⊎ ((w : Socket) × (find_socket id s.sockets ≡ some w) × Live s w)
socket_cases s id (idle a b) = inl (ground arith)
socket_cases s id (waiting t v) = inl (ground arith)
socket_cases s id (live w v) = elim (Bool-cases (eqb w.id id)) [
  | inl same ↦ inr (w, ground arith, v)
  | inr other ↦ inl (ground arith)
]

pub timer_cases :
    (s : Hook) (id : ℕ)
    → Phase s
    → (find_timer id s.timers ≡ none)
      ⊎ ((t : Timer) × (find_timer id s.timers ≡ some t) × Waiting s t)
timer_cases s id (idle a b) = inl (ground arith)
timer_cases s id (live w v) = inl (ground arith)
timer_cases s id (waiting t v) = elim (Bool-cases (eqb t.id id)) [
  | inl same ↦ inr (t, ground arith, v)
  | inr other ↦ inl (ground arith)
]

on_open-Inv : (s : Hook) (w : Socket) → Live s w → Inv (on_open s)
unfolding on_open
on_open-Inv s w v = record { capped = ground arith; phase = live w (ground arith) }

on_message-Inv :
    (s : Hook) (w : Socket) (payload : Option PollResults)
    → Inv s
    → Live s w
    → Inv (on_message w.poll_id payload s)
unfolding on_message
on_message-Inv s w none inv v = inv
on_message-Inv s w (some m) inv v = record {
  capped = ground (arith, inv.capped);
  phase = live w (ground arith);
}

on_close-capped :
    (p : String) (s : Hook) → s.reconnect_attempts ≤ 10 → (on_close p s).reconnect_attempts ≤ 10
unfolding on_close
on_close-capped p s cap = ground arith

on_close-Inv :
    (p : String) (s : Hook)
    → s.sockets ≡ []
    → s.timers ≡ []
    → s.mounted ≡ true
    → s.poll_id ≡ some p
    → truthy p ≡ true
    → s.reconnect_attempts ≤ 10
    → Inv (on_close p s)
on_close-Inv p s a b on here real cap = record {
  capped = on_close-capped p s cap;
  phase = on_close-Phase p s a b on here real cap;
}

connect-Inv :
    (p : Option String) (s : Hook)
    → s.sockets ≡ []
    → s.timers ≡ []
    → s.mounted ≡ true
    → s.poll_id ≡ p
    → s.reconnect_attempts ≤ 10
    → Inv (connect p s)
connect-Inv p s a b on here cap = record {
  capped = rw (connect-attempts p) cap;
  phase = connect-Phase p s a b on here;
}

set_results-Phase : (s : Hook) (r : PollResults) → Phase s → Phase (record s { results = some r })
set_results-Phase s r (idle a b) = idle a b
set_results-Phase s r (live w v) = live w (ground arith)
set_results-Phase s r (waiting t v) = waiting t (ground arith)

cleanup-Inv : (s : Hook) → Inv s → Inv (cleanup s)
cleanup-Inv s inv =
    let (a, b) = cleanup-idle s inv.phase in
    record { capped = unfold cleanup in inv.capped; phase = idle a b }

pub step-Inv : (e : Event) (s : Hook) → Inv s → Inv (step e s)
unfolding step
step-Inv (opened id) s inv = elim (socket_cases s id inv.phase) [
  | inl absent ↦ rw absent inv
  | inr (w, found, v) ↦ rw found (on_open-Inv s w v)
]
step-Inv (message id payload) s inv = elim (socket_cases s id inv.phase) [
  | inl absent ↦ rw absent inv
  | inr (w, found, v) ↦ rw found (on_message-Inv s w payload inv v)
]
step-Inv (errored id) s inv = inv
step-Inv (closed id) s inv = elim (socket_cases s id inv.phase) [
  | inl absent ↦ rw absent inv
  | inr (w, found, v) ↦
      rw found (on_close-Inv w.poll_id _ (ground arith) v.no_timer v.on v.here v.real inv.capped)
]
step-Inv (fired id) s inv = elim (timer_cases s id inv.phase) [
  | inl absent ↦ rw absent inv
  | inr (t, found, v) ↦ rw found (
      unfold connect in
      connect-Inv (some t.poll_id) _ v.no_socket (ground arith) v.on v.here inv.capped)
]
step-Inv (changed p) s inv =
    let (a, b) = cleanup-idle s inv.phase in connect-Inv p _ a b refl refl inv.capped
step-Inv unmounted s inv = cleanup-Inv s inv
step-Inv (initial none) s inv = inv
step-Inv (initial (some r)) s inv = record {
  capped = inv.capped;
  phase = set_results-Phase s r inv.phase;
}

pub run-Inv : (events : List Event) (s : Hook) → Inv s → Inv (run events s)
unfolding run
run-Inv [] s inv = inv
run-Inv (e ∷ events) s inv = run-Inv events (step e s) (step-Inv e s inv)

-- From its mount on, by any events in any order, the hook has one live socket or one pending timer or
-- neither; a socket or timer is the one that the cleanup reaches and belongs to the current poll, a
-- timer waits for 2 seconds times the number of attempts, and there are at most 10 attempts.
pub run-mount-Inv :
    (p : Option String) (value : Option PollResults) (events : List Event)
    → Inv (run events (mount p value))
run-mount-Inv p value events = run-Inv events (mount p value) (mount-Inv p value)
