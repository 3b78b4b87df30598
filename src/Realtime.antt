-- ===== src/Realtime.antt =====
-- hooks/useRealtimePoll.ts: the WebSocket of a poll, its reconnections and the live results.
pub mod Phases
pub mod Unmounted
pub mod Results
pub mod Outage
pub mod Drain
pub mod Owner
pub mod Spec
pub mod Strict
use hcl_assignment.Common.{
  ℕ, ◌+◌, ◌*◌, min, String, Bool, true, false, not, ◌&&◌, ◌||◌, Option, none, some, List, [], ◌∷◌,
  ◌++◌, ltb, eqb, ◌==◌, truthy, filter, if◌then◌else◌,
}
use hcl_assignment.Services.Model.{PollResults}
use hcl_assignment.Utils.Constants.{ws_reconnect_delay_ms, ws_max_reconnect_attempts}

pub data WsStatus : Type 0 where
  connecting connected reconnecting disconnected : WsStatus

-- A WebSocket with the handlers of one `connect`, which close over its `pollId`.
pub record Socket : Type 0 where
  pub id : ℕ
  pub poll_id : String

-- A pending `setTimeout(connect, delay)`.
pub record Timer : Type 0 where
  pub id : ℕ
  pub poll_id : String
  pub delay : ℕ

-- The states and refs of the hook, with the `pollId` of its last effect; then the browser's side:
-- the sockets that can still deliver events, the pending timers, and the next identity.
pub record Hook : Type 0 where
  pub results : Option PollResults
  pub status : WsStatus
  pub ws_ref : Option Socket
  pub reconnect_attempts : ℕ
  pub reconnect_timer : Option ℕ
  pub mounted : Bool
  pub poll_id : Option String
  pub sockets : List Socket
  pub timers : List Timer
  pub next_id : ℕ

-- The state before the first effect; `initial ?? null`.
unfoldable pub create : Option PollResults → Hook
create initial = record {
  results = initial;
  status = connecting;
  ws_ref = none;
  reconnect_attempts = 0;
  reconnect_timer = none;
  mounted = true;
  poll_id = none;
  sockets = [];
  timers = [];
  next_id = 0;
}

-- `connect` of the closure over this `pollId`
connect_to : String → Hook → Hook
connect_to poll_id s =
    let ws : Socket = record { id = s.next_id; poll_id = poll_id } in
    if not (truthy poll_id) || not s.mounted then s else record s {
      status = if ltb 0 s.reconnect_attempts then reconnecting else connecting;
      ws_ref = some ws;
      sockets = s.sockets ++ ws ∷ [];
      next_id = s.next_id + 1;
    }

connect : Option String → Hook → Hook
unfolding connect_to
connect none s = s
connect (some poll_id) s = connect_to poll_id s

on_open : Hook → Hook
on_open s = if s.mounted then record s { reconnect_attempts = 0; status = connected } else s

-- The data that a message parses to; `none` if parsing or reading it throws, which is only logged.
on_message : String → Option PollResults → Hook → Hook
on_message poll_id none s = s
on_message poll_id (some message) s =
    if s.mounted && (message.type == "POLL_RESULTS_UPDATED" && message.poll_id == poll_id)
    then record s { results = some message }
    else s

-- `Math.min(WS_RECONNECT_DELAY_MS * attempts, 30000)`
abbrev pub backoff : ℕ → ℕ
backoff attempts = min (ws_reconnect_delay_ms * attempts) 30000

on_close : String → Hook → Hook
on_close poll_id s =
    let attempts = s.reconnect_attempts + 1 in
    let timer : Timer = record { id = s.next_id; poll_id = poll_id; delay = backoff attempts } in
    if not s.mounted
    then s
    else if ltb s.reconnect_attempts ws_max_reconnect_attempts
    then record s {
      reconnect_attempts = attempts;
      status = reconnecting;
      reconnect_timer = some s.next_id;
      timers = s.timers ++ timer ∷ [];
      next_id = s.next_id + 1;
    }
    else record s { status = disconnected }

-- `clearTimeout`
abbrev clear_timeout : Option ℕ → List Timer → List Timer
clear_timeout none timers = timers
clear_timeout (some id) timers = filter (λ t. not (eqb t.id id)) timers

-- `ws.onclose = null; ws.close()`: the socket's other events stop with `close`.
abbrev close_socket : Option Socket → List Socket → List Socket
close_socket none sockets = sockets
close_socket (some ws) sockets = filter (λ w. not (eqb w.id ws.id)) sockets

-- The cleanup of the effect.
pub cleanup : Hook → Hook
cleanup s = record s {
  mounted = false;
  timers = clear_timeout s.reconnect_timer s.timers;
  sockets = close_socket s.ws_ref s.sockets;
}

-- The body of the effect.
effect : Option String → Hook → Hook
unfolding connect
effect poll_id s = connect poll_id (record s { mounted = true; poll_id = poll_id })

-- The second effect: `if (initial) setResults(initial)`.
sync_initial : Option PollResults → Hook → Hook
sync_initial none s = s
sync_initial (some initial) s = record s { results = some initial }

-- What can happen to the hook: an event of the socket or the timer with an identity, a run of the
-- effect for a `pollId` after the cleanup of the last, an unmount, and a change of `initial`.
pub data Event : Type 0 where
  opened : ℕ → Event
  message : ℕ → Option PollResults → Event
  errored : ℕ → Event
  closed : ℕ → Event
  fired : ℕ → Event
  changed : Option String → Event
  unmounted : Event
  initial : Option PollResults → Event

abbrev find_socket : ℕ → List Socket → Option Socket
find_socket id [] = none
find_socket id (w ∷ rest) = if eqb w.id id then some w else find_socket id rest

abbrev find_timer : ℕ → List Timer → Option Timer
find_timer id [] = none
find_timer id (t ∷ rest) = if eqb t.id id then some t else find_timer id rest

-- A socket that cannot deliver events, or a timer that is not pending, changes nothing.
abbrev on_socket : Option Socket → (Socket → Hook → Hook) → Hook → Hook
on_socket none handler s = s
on_socket (some w) handler s = handler w s

on_timer : Option Timer → Hook → Hook
unfolding connect
on_timer none s = s
on_timer (some t) s =
    connect_to t.poll_id (record s { timers = filter (λ u. not (eqb u.id t.id)) s.timers })

unfoldable pub step : Event → Hook → Hook
unfolding on_open on_message on_close on_timer cleanup effect sync_initial
step (opened id) s = on_socket (find_socket id s.sockets) (λ w. on_open) s
step (message id payload) s =
    on_socket (find_socket id s.sockets) (λ w. on_message w.poll_id payload) s
step (errored id) s = s
step (closed id) s =
    on_socket (find_socket id s.sockets)
      (λ w s.
        on_close w.poll_id (record s { sockets = filter (λ v. not (eqb v.id w.id)) s.sockets }))
      s
step (fired id) s = on_timer (find_timer id s.timers) s
step (changed poll_id) s = effect poll_id (cleanup s)
step unmounted s = cleanup s
step (initial value) s = sync_initial value s

-- Mounting, and then a run of events in any order.
unfoldable pub mount : Option String → Option PollResults → Hook
unfolding create effect
mount poll_id value = effect poll_id (create value)

unfoldable pub run : List Event → Hook → Hook
unfolding step
run [] s = s
run (e ∷ events) s = run events (step e s)
