-- ===== src/Realtime/Drain.antt =====
-- How an outage that does not end is given up.
use hcl_assignment.Common.{
  ℕ, zero, suc, ◌≤◌, Option, none, some, List, [], ◌∷◌, ◌≡◌, refl, sym, arith,
}
use native.Mathlib.Decide.{dec_lt}
use mathlib.Core.Path.{subst}
use hcl_assignment.Realtime.{Hook, Socket, Timer, Event, closed, fired, step, disconnected}
use hcl_assignment.Realtime.Phases.{Inv, Live, Waiting, step-Inv}
use hcl_assignment.Realtime.Outage.{
  budget, on_close-budget, on_timer-budget, budget-le, closed-retry, closed-gives_up,
  fired-reconnects,
}

-- The next failure: a socket closes, or a timer fires.
abbrev next_of : List Socket → List Timer → Option Event
next_of (w ∷ sockets) timers = some (closed w.id)
next_of [] (t ∷ timers) = some (fired t.id)
next_of [] [] = none

-- A number of failures in a row; fewer, if nothing is left to fail.
pub fail_on : ℕ → Hook → Hook
fail_on zero s = s
fail_on (suc n) s = elim (next_of s.sockets s.timers) [ none ↦ s | some e ↦ fail_on n (step e s) ]

-- The hook shows that it is disconnected, and has nothing that could still change that.
pub record GivenUp (s : Hook) : Type 0 where
  pub shown : s.status ≡ disconnected
  pub no_socket : s.sockets ≡ []
  pub no_timer : s.timers ≡ []

data Trying (s : Hook) : Type 0 where
  live : (w : Socket) → Live s w → Trying s
  waiting : (t : Timer) → Waiting s t → Trying s
  over : GivenUp s → Trying s

closed-Trying : (s : Hook) (w : Socket) → Inv s → Live s w → Trying (step (closed w.id) s)
closed-Trying s w inv v = elim (dec_lt s.reconnect_attempts 10) [
  | yes more ↦ let (t, waits, d, b, same, n) = closed-retry s w v more in waiting t waits
  | no full ↦
      let (a, b, c) = closed-gives_up s w v (omega (arith, inv.capped)) in
      over (record { shown = a; no_socket = b; no_timer = c })
]

fired-Trying : (s : Hook) (t : Timer) → Waiting s t → Trying (step (fired t.id) s)
fired-Trying s t v = let (w, lives, same, b, n) = fired-reconnects s t v in live w lives

fail_on-next :
    (n : ℕ) (s : Hook) (e : Event)
    → next_of s.sockets s.timers ≡ some e
    → fail_on (suc n) s ≡ fail_on n (step e s)
unfolding fail_on
fail_on-next n s e h = rw (h, fail_on) refl

fail_on-last : (n : ℕ) (s : Hook) → next_of s.sockets s.timers ≡ none → fail_on (suc n) s ≡ s
unfolding fail_on
fail_on-last n s h = rw (h, fail_on) refl

next_of-Live : (s : Hook) (w : Socket) → Live s w → next_of s.sockets s.timers ≡ some (closed w.id)
next_of-Live s w v = rw (v.only) refl

next_of-Waiting :
    (s : Hook) (t : Timer) → Waiting s t → next_of s.sockets s.timers ≡ some (fired t.id)
next_of-Waiting s t v = rw (v.no_socket, v.only) refl

next_of-GivenUp : (s : Hook) → GivenUp s → next_of s.sockets s.timers ≡ none
next_of-GivenUp s g = rw (g.no_socket, g.no_timer) refl

fail_on-GivenUp : (n : ℕ) (s : Hook) → Inv s → Trying s → budget s ≤ n → GivenUp (fail_on n s)
unfolding fail_on
fail_on-GivenUp zero s inv (live w v) le = absurd (ground (arith, v.only))
fail_on-GivenUp zero s inv (waiting t v) le = absurd (ground (arith, v.only))
fail_on-GivenUp zero s inv (over g) le = g
fail_on-GivenUp (suc n) s inv (live w v) le =
    subst GivenUp (sym (fail_on-next n s (closed w.id) (next_of-Live s w v))) (
      fail_on-GivenUp n (step (closed w.id) s) (step-Inv (closed w.id) s inv)
        (closed-Trying s w inv v) (omega (arith, on_close-budget s w inv v)))
fail_on-GivenUp (suc n) s inv (waiting t v) le =
    subst GivenUp (sym (fail_on-next n s (fired t.id) (next_of-Waiting s t v))) (
      fail_on-GivenUp n (step (fired t.id) s) (step-Inv (fired t.id) s inv) (fired-Trying s t v)
        (omega (arith, on_timer-budget s t v)))
fail_on-GivenUp (suc n) s inv (over g) le =
    subst GivenUp (sym (fail_on-last n s (next_of-GivenUp s g))) g

-- Where the hook's invariant holds and a socket of a poll is live, an outage is given up: after at most
-- 21 failures, closings and failed retries one after the other, the hook shows that it is
-- disconnected, with no socket and no timer left.
pub fail_on_ends : (s : Hook) (w : Socket) → Inv s → Live s w → GivenUp (fail_on 21 s)
fail_on_ends s w inv v = fail_on-GivenUp 21 s inv (live w v) (budget-le s inv inv.phase)
