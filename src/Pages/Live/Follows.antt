-- ===== src/Pages/Live/Follows.antt =====
-- The hook of a page belongs to the poll that the page shows.
use hcl_assignment.Common.{
  String, true, Option, none, some, ◌≡◌, ◌∙◌, sym, ap, refl, inl, inr, Bool-cases, All, eq_iff,
}
use hcl_assignment.Services.Model.{Poll, PollResults}
use hcl_assignment.Realtime.{Hook, Event, changed, initial, step, mount}
use hcl_assignment.Realtime.Owner.{Owner, late-Owner, changed-Owner, mount-Owner}
use hcl_assignment.Realtime.Unmounted.{IsLate}
use hcl_assignment.Realtime.Phases
use hcl_assignment.Realtime.Phases.{Phase, idle, live, waiting}
use hcl_assignment.Pages.Live.{id_of, same_id, run_initial, follow}

run_initial-Owner :
    (set : Option (Option PollResults)) (h : Hook) (p : Option String)
    → Owner h p
    → Owner (run_initial set h) p
unfolding run_initial step
run_initial-Owner none h p o = o
run_initial-Owner (some none) h p o = o
run_initial-Owner (some (some r)) h p o = o

same_id-eq : (a b : Option String) → same_id a b ≡ true → a ≡ b
same_id-eq none none h = refl
same_id-eq none (some b) h = cc
same_id-eq (some a) none h = cc
same_id-eq (some a) (some b) h = ap some ((eq_iff a b).0 h)

follow-Owner :
    (old new : Option String) (set : Option (Option PollResults)) (h : Hook)
    → Owner h old
    → Owner (follow old new set h) new
unfolding follow
follow-Owner old new set h o = elim (Bool-cases (same_id old new)) [
  | inl same ↦ rw same (run_initial-Owner set h new (o.0 ∙ same_id-eq old new same, o.1))
  | inr other ↦ rw other (run_initial-Owner set _ new (changed-Owner new h))
]

run_initial-Inv :
    (set : Option (Option PollResults)) (h : Hook) → Phases.Inv h → Phases.Inv (run_initial set h)
unfolding run_initial
run_initial-Inv none h inv = inv
run_initial-Inv (some value) h inv = Phases.step-Inv (initial value) h inv

follow-Inv :
    (old new : Option String) (set : Option (Option PollResults)) (h : Hook)
    → Phases.Inv h
    → Phases.Inv (follow old new set h)
unfolding follow
follow-Inv old new set h inv = elim (Bool-cases (same_id old new)) [
  | inl same ↦ rw same (run_initial-Inv set h inv)
  | inr other ↦ rw other (run_initial-Inv set _ (Phases.step-Inv (changed new) h inv))
]

-- The hook is mounted for the poll that is shown and keeps its invariant.
pub record Follows (h : Hook) (poll : Option Poll) : Type 0 where
  pub inv : Phases.Inv h
  pub same : h.poll_id ≡ id_of poll
  pub on : h.mounted ≡ true

pub mount-Follows : Follows (mount none none) none
mount-Follows = record {
  inv = Phases.mount-Inv none none;
  same = (mount-Owner none none).0;
  on = (mount-Owner none none).1;
}

pub follow-Follows :
    (old new : Option Poll) (set : Option (Option PollResults)) (h : Hook)
    → Follows h old
    → Follows (follow (id_of old) (id_of new) set h) new
follow-Follows old new set h f =
    let (same, on) = follow-Owner (id_of old) (id_of new) set h (f.same, f.on) in
    record { inv = follow-Inv (id_of old) (id_of new) set h f.inv; same = same; on = on }

pub late-Follows :
    (e : Event) (h : Hook) (poll : Option Poll)
    → IsLate e
    → Follows h poll
    → Follows (step e h) poll
late-Follows e h poll l f =
    let (same, on) = late-Owner e h (id_of poll) l (f.same, f.on) in
    record { inv = Phases.step-Inv e h f.inv; same = same; on = on }

-- Every socket that can deliver events, and every pending timer, is for this poll.
pub record Belongs (h : Hook) (poll : Option Poll) : Type 0 where
  pub sockets : All (λ w. id_of poll ≡ some w.poll_id) h.sockets
  pub timers : All (λ t. id_of poll ≡ some t.poll_id) h.timers

Phase-Belongs : (h : Hook) (poll : Option Poll) → h.poll_id ≡ id_of poll → Phase h → Belongs h poll
Phase-Belongs h poll e (idle a b) = record { sockets = rw a tt; timers = rw b tt }
Phase-Belongs h poll e (live w v) = record {
  sockets = rw (v.only) (sym e ∙ v.here, tt);
  timers = rw (v.no_timer) tt;
}
Phase-Belongs h poll e (waiting t v) = record {
  sockets = rw (v.no_socket) tt;
  timers = rw (v.only) (sym e ∙ v.here, tt);
}

pub Follows-Belongs : (h : Hook) (poll : Option Poll) → Follows h poll → Belongs h poll
Follows-Belongs h poll f = Phase-Belongs h poll f.same f.inv.phase
