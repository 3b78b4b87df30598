-- ===== src/Realtime/Spec/Refines.antt =====
-- The hook keeps its promise: seen as a link, each event is a step of the promise or none.
use hcl_assignment.Common.{
  ℕ, true, ◌&&◌, String, Option, none, some, List, [], ◌∷◌, ◌++◌, ◌≡◌, ◌∙◌, refl, sym, ap, inl, inr,
  Bool-cases, ltb, truthy, if◌then◌else◌, arith, not, filter, eqb, ◌==◌,
}
use hcl_assignment.Services.Model.{PollResults}
use hcl_assignment.Realtime.{
  Hook, Socket, Timer, Event, opened, message, errored, closed, fired, changed, unmounted, initial,
  find_socket, find_timer, step, mount, run, connect, connect_to, cleanup, on_message,
}
use hcl_assignment.Realtime.Phases.{
  Inv, Live, Waiting, socket_cases, timer_cases, cleanup-idle, step-Inv, mount-Inv,
}
use hcl_assignment.Realtime.Spec.{
  off, trying, Link, Signal, is_poll, advance, replay, view, signal, signals, Shows,
}

-- An event is the steps of the promise that it signals, and the state shows its stage.
abbrev Keeps : Event → Hook → Type 0
Keeps e s =
    (view (step e s) ≡ replay (signal e s) (view s)) × Shows (view (step e s)) (step e s).status

connect_to-view :
    (p : String) (s : Hook)
    → s.sockets ≡ []
    → s.timers ≡ []
    → s.mounted ≡ true
    → s.poll_id ≡ some p
    → (view (connect_to p s) ≡ record {
      poll = some p;
      attempts = s.reconnect_attempts;
      stage = if truthy p then trying else off;
    })
      × Shows (view (connect_to p s)) (connect_to p s).status
unfolding connect_to
connect_to-view p s a b on here = elim (Bool-cases (ltb 0 s.reconnect_attempts)) [
  | inl more ↦ ground arith
  | inr first ↦ ground arith
]

connect-view :
    (p : Option String) (s : Hook)
    → s.sockets ≡ []
    → s.timers ≡ []
    → s.mounted ≡ true
    → s.poll_id ≡ p
    → (view (connect p s) ≡ record {
      poll = p;
      attempts = s.reconnect_attempts;
      stage = if is_poll p then trying else off;
    })
      × Shows (view (connect p s)) (connect p s).status
unfolding connect
connect-view none s a b on here = ground arith
connect-view (some p) s a b on here = connect_to-view p s a b on here

opened-Keeps :
    (id : ℕ) (s : Hook) (w : Socket)
    → Live s w
    → find_socket id s.sockets ≡ some w
    → Keeps (opened id) s
unfolding step replay
opened-Keeps id s w v found = rw found (ground arith)

closed-Keeps :
    (id : ℕ) (s : Hook) (w : Socket)
    → Live s w
    → find_socket id s.sockets ≡ some w
    → Keeps (closed id) s
unfolding step replay
closed-Keeps id s w v found = elim (Bool-cases (ltb s.reconnect_attempts 10)) [
  | inl more ↦ rw found (ground arith)
  | inr over ↦ rw found (ground arith)
]

module _ (s : Hook) (shows : Shows (view s) s.status) where
  on_message-Keeps :
      (w : Socket) (payload : Option PollResults)
      → (view (on_message w.poll_id payload s) ≡ view s)
        × Shows (view (on_message w.poll_id payload s)) (on_message w.poll_id payload s).status
  unfolding on_message
  on_message-Keeps w none = (refl, shows)
  on_message-Keeps w (some m) =
      elim (Bool-cases
        (s.mounted && (m.type == "POLL_RESULTS_UPDATED" && m.poll_id == w.poll_id))) [
          | inl fits ↦ rw fits (refl, shows)
          | inr other ↦ rw other (refl, shows)
        ]

fired-Keeps :
    (id : ℕ) (s : Hook) (t : Timer)
    → Waiting s t
    → find_timer id s.timers ≡ some t
    → Keeps (fired id) s
unfolding step replay
fired-Keeps id s t v found =
    let rest : Hook = record s { timers = filter (λ u. not (eqb u.id t.id)) s.timers } in
    let (same, shows) = connect_to-view t.poll_id rest v.no_socket (ground arith) v.on v.here in
    rw found (same ∙ ground arith, shows)

module _ (s : Hook) (inv : Inv s) (shows : Shows (view s) s.status) where
  changed-Keeps : (p : Option String) → Keeps (changed p) s
  unfolding step replay
  changed-Keeps p =
      let (a, b) = cleanup-idle s inv.phase in
      let (same, shown) =
        connect-view p (record (cleanup s) { mounted = true; poll_id = p }) a b refl refl in
      (same ∙ unfold cleanup in refl, shown)

  unmounted-Keeps : Keeps unmounted s
  unfolding step replay
  unmounted-Keeps = let (a, b) = cleanup-idle s inv.phase in unfold cleanup in ground arith

  message-Keeps : (id : ℕ) (payload : Option PollResults) → Keeps (message id payload) s
  unfolding step replay
  message-Keeps id payload = elim (socket_cases s id inv.phase) [
    | inl absent ↦ rw absent (refl, shows)
    | inr (w, found, v) ↦ rw found (on_message-Keeps s shows w payload)
  ]

  step-Keeps : (e : Event) → Keeps e s
  step-Keeps (opened id) = elim (socket_cases s id inv.phase) [
    | inl absent ↦ unfold step replay in rw absent (refl, shows)
    | inr (w, found, v) ↦ opened-Keeps id s w v found
  ]
  step-Keeps (message id payload) = message-Keeps id payload
  step-Keeps (errored id) = unfold step replay in (refl, shows)
  step-Keeps (closed id) = elim (socket_cases s id inv.phase) [
    | inl absent ↦ unfold step replay in rw absent (refl, shows)
    | inr (w, found, v) ↦ closed-Keeps id s w v found
  ]
  step-Keeps (fired id) = elim (timer_cases s id inv.phase) [
    | inl absent ↦ unfold step replay in rw absent (refl, shows)
    | inr (t, found, v) ↦ fired-Keeps id s t v found
  ]
  step-Keeps (changed p) = changed-Keeps p
  step-Keeps unmounted = unmounted-Keeps
  step-Keeps (initial none) = unfold step replay in (refl, shows)
  step-Keeps (initial (some r)) = unfold step replay in (refl, shows)

replay-append : (xs ys : List Signal) (l : Link) → replay (xs ++ ys) l ≡ replay ys (replay xs l)
unfolding replay
replay-append [] ys l = refl
replay-append (x ∷ xs) ys l = replay-append xs ys (advance x l)

run-Keeps :
    (events : List Event) (s : Hook)
    → Inv s
    → Shows (view s) s.status
    → (view (run events s) ≡ replay (signals events s) (view s))
      × Shows (view (run events s)) (run events s).status
unfolding run replay signals
run-Keeps [] s inv shows = (refl, shows)
run-Keeps (e ∷ events) s inv shows =
    let (same, shown) = step-Keeps s inv shows e in
    let (rest, last) = run-Keeps events (step e s) (step-Inv e s inv) shown in
    (
      rest
          ∙ ap (replay (signals events (step e s))) same
          ∙ sym (replay-append (signal e s) (signals events (step e s)) (view s)),
      last,
    )

-- The promise of a fresh hook for a poll.
abbrev pub start : Option String → Link
start p = record { poll = p; attempts = 0; stage = if is_poll p then trying else off }

mount-view :
    (p : Option String) (value : Option PollResults)
    → (view (mount p value) ≡ start p) × Shows (view (mount p value)) (mount p value).status
unfolding mount
mount-view p value = connect-view p _ refl refl refl refl

-- The hook keeps its promise. From its mount, by any events in any order, it stands for the link that
-- the events' signals lead to from a fresh one: an answer resets the attempts and goes online, a drop
-- leads to a retry or, after ten, to giving up, and a change of the poll starts again without
-- resetting the attempts. While the link is not off, the status shown is that of its stage.
pub run-mount_refines :
    (p : Option String) (value : Option PollResults) (events : List Event)
    → let s = run events (mount p value) in
      (view s ≡ replay (signals events (mount p value)) (start p)) × Shows (view s) s.status
run-mount_refines p value events =
    let (fresh, shows) = mount-view p value in
    let (same, shown) = run-Keeps events (mount p value) (mount-Inv p value) shows in
    (same ∙ ap (replay (signals events (mount p value))) fresh, shown)
