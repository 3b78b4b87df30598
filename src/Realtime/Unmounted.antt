-- ===== src/Realtime/Unmounted.antt =====
-- What events do after an unmount.
use hcl_assignment.Common.{List, [], ◌∷◌, ◌≡◌, refl, All, arith}
use hcl_assignment.Realtime.{
  Hook, Event, opened, message, errored, closed, fired, changed, unmounted, initial, cleanup, step,
  run,
}
use hcl_assignment.Realtime.Phases.{Inv, cleanup-idle}

-- The events that a socket or a timer sends.
abbrev pub IsLate : Event → Type 0
IsLate (changed p) = ⊥
IsLate unmounted = ⊥
IsLate (initial value) = ⊥
IsLate _ = Unit

idle-step : (e : Event) (s : Hook) → s.sockets ≡ [] → s.timers ≡ [] → IsLate e → step e s ≡ s
unfolding step
idle-step (opened id) s a b late = ground arith
idle-step (message id payload) s a b late = ground arith
idle-step (errored id) s a b late = refl
idle-step (closed id) s a b late = ground arith
idle-step (fired id) s a b late = ground arith
idle-step (changed p) s a b late = absurd late
idle-step unmounted s a b late = absurd late
idle-step (initial value) s a b late = absurd late

idle-run :
    (events : List Event) (s : Hook)
    → s.sockets ≡ []
    → s.timers ≡ []
    → All IsLate events
    → run events s ≡ s
unfolding run
idle-run [] s a b late = refl
idle-run (e ∷ events) s a b late = rw (idle-step e s a b late.0) (idle-run events s a b late.1)

-- After an unmount no events of sockets and timers, in any number and order, change anything: no state
-- is set, no connection is opened and no timer is started.
pub unmounted-run :
    (events : List Event) (s : Hook)
    → Inv s
    → All IsLate events
    → run events (step unmounted s) ≡ step unmounted s
unmounted-run events s inv late =
    let (a, b) = cleanup-idle s inv.phase in unfold step in idle-run events (cleanup s) a b late
