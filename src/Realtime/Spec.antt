-- ===== src/Realtime/Spec.antt =====
-- What the hook promises: a connection that is tried, retried and given up, without sockets, timers
-- and identities.
pub mod Refines
use hcl_assignment.Common.{
  ℕ, ◌+◌, Bool, true, false, ◌&&◌, String, Option, none, some, List, [], ◌∷◌, ◌++◌, ◌≡◌, ltb,
  truthy, is_some, if◌then◌else◌,
}
use hcl_assignment.Realtime.{
  Hook, Socket, Timer, WsStatus, connecting, connected, reconnecting, disconnected, Event, opened,
  message, errored, closed, fired, changed, unmounted, initial, find_socket, find_timer, step,
}

pub data Stage : Type 0 where
  off trying online waiting given_up : Stage

pub record Link : Type 0 where
  pub poll : Option String
  pub attempts : ℕ
  pub stage : Stage

pub data Signal : Type 0 where
  answers drops retries leaves : Signal
  follows : Option String → Signal

abbrev pub is_poll : Option String → Bool
is_poll none = false
is_poll (some p) = truthy p

-- A connection that fails is tried again up to ten times.
abbrev pub dropped : Link → Link
dropped l =
    if ltb l.attempts 10
    then record l { attempts = l.attempts + 1; stage = waiting }
    else record l { stage = given_up }

abbrev pub advance : Signal → Link → Link
advance answers l = record l { attempts = 0; stage = online }
advance drops l = dropped l
advance retries l = record l { stage = trying }
advance (follows p) l = record l { poll = p; stage = if is_poll p then trying else off }
advance leaves l = record l { poll = none; stage = off }

unfoldable pub replay : List Signal → Link → Link
replay [] l = l
replay (m ∷ signals) l = replay signals (advance m l)

abbrev pub stage_of : List Socket → List Timer → Bool → WsStatus → Stage
stage_of (w ∷ sockets) timers following connected = online
stage_of (w ∷ sockets) timers following connecting = trying
stage_of (w ∷ sockets) timers following reconnecting = trying
stage_of (w ∷ sockets) timers following disconnected = trying
stage_of [] (t ∷ timers) following status = waiting
stage_of [] [] true status = given_up
stage_of [] [] false status = off

-- The promise that a state of the hook stands for.
abbrev pub view : Hook → Link
view s = record {
  poll = if s.mounted then s.poll_id else none;
  attempts = s.reconnect_attempts;
  stage = stage_of s.sockets s.timers (s.mounted && is_poll s.poll_id) s.status;
}

-- What an event means to the connection: nothing, if its socket or timer is not there any more.
abbrev pub signal : Event → Hook → List Signal
signal (opened id) s = if is_some (find_socket id s.sockets) then answers ∷ [] else []
signal (message id payload) s = []
signal (errored id) s = []
signal (closed id) s = if is_some (find_socket id s.sockets) then drops ∷ [] else []
signal (fired id) s = if is_some (find_timer id s.timers) then retries ∷ [] else []
signal (changed p) s = follows p ∷ []
signal unmounted s = leaves ∷ []
signal (initial value) s = []

unfoldable pub signals : List Event → Hook → List Signal
signals [] s = []
signals (e ∷ events) s = signal e s ++ signals events (step e s)

-- The status that a stage shows; of a connection that is off, it says nothing.
abbrev pub Shows : Link → WsStatus → Type 0
Shows l status = elim l.stage [
  | off ↦ Unit
  | trying ↦ status ≡ (if ltb 0 l.attempts then reconnecting else connecting)
  | online ↦ status ≡ connected
  | waiting ↦ status ≡ reconnecting
  | given_up ↦ status ≡ disconnected
]
