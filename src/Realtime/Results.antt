-- ===== src/Realtime/Results.antt =====
-- Where the live results come from.
use hcl_assignment.Common.{
  ℕ, String, Option, none, some, ◌≡◌, ◌⊎◌, inl, inr, refl, ◌&&◌, ◌==◌, eq_iff, Bool-cases, arith,
}
use hcl_assignment.Services.Model.{PollResults}
use hcl_assignment.Realtime.{
  Hook, Socket, Event, opened, message, errored, closed, fired, changed, unmounted, initial,
  on_message, connect, step,
}
use hcl_assignment.Realtime.Phases.{Inv, Live, socket_cases}

-- The event brings these results: as the initial ones, or in a message of the right type that is about
-- the poll of the current effect.
abbrev pub Brings : Hook → Event → PollResults → Type 0
Brings s (initial value) r = value ≡ some r
Brings s (message id payload) r =
    (payload ≡ some r) × (r.type ≡ "POLL_RESULTS_UPDATED") × (s.poll_id ≡ some r.poll_id)
Brings s _ r = ⊥

connect-results : (p : Option String) (s : Hook) → (connect p s).results ≡ s.results
unfolding connect
connect-results none s = refl
connect-results (some p) s = ground arith

on_message-results :
    (s : Hook) (w : Socket) (id : ℕ) (payload : Option PollResults)
    → Live s w
    → ((on_message w.poll_id payload s).results ≡ s.results)
      ⊎ ((r : PollResults) × ((on_message w.poll_id payload s).results ≡ some r)
          × Brings s (message id payload) r)
unfolding on_message
on_message-results s w id none v = inl refl
on_message-results s w id (some m) v =
    elim (Bool-cases (m.type == "POLL_RESULTS_UPDATED" && m.poll_id == w.poll_id)) [
      | inl fits ↦ inr (
        m,
        ground arith,
        (
          refl,
          (eq_iff m.type "POLL_RESULTS_UPDATED").0 (ground arith),
          ground (arith, eq_iff m.poll_id w.poll_id),
        ),
      )
      | inr other ↦ inl (ground arith)
    ]

-- Where the hook's invariant holds, an event leaves the results as they are or sets those that it
-- brings: a new initial value, or a message about the current poll of type POLL_RESULTS_UPDATED.
pub step-results :
    (e : Event) (s : Hook)
    → Inv s
    → ((step e s).results ≡ s.results)
      ⊎ ((r : PollResults) × ((step e s).results ≡ some r) × Brings s e r)
unfolding step
step-results (opened id) s inv = inl (ground arith)
step-results (message id payload) s inv = elim (socket_cases s id inv.phase) [
  | inl absent ↦ inl (rw absent)
  | inr (w, found, v) ↦ rw found (on_message-results s w id payload v)
]
step-results (errored id) s inv = inl refl
step-results (closed id) s inv = inl (ground arith)
step-results (fired id) s inv = inl (ground arith)
step-results (changed p) s inv = inl (connect-results p _)
step-results unmounted s inv = inl refl
step-results (initial none) s inv = inl refl
step-results (initial (some r)) s inv = inr (r, refl, refl)
