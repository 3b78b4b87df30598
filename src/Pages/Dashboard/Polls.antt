-- ===== src/Pages/Dashboard/Polls.antt =====
-- What deleting and closing do to the list of polls.
use hcl_assignment.Common.{
  ◌≤◌, String, Bool, true, false, not, ◌&&◌, Option, none, some, List, [], ◌∷◌, map, filter, ◌≡◌,
  refl, ◌==◌, eq_iff, is_some, if◌then◌else◌, arith,
}
use hcl_assignment.Services.Model.{Poll, closed}
use hcl_assignment.Services.Api.{Result, ok, err}
use hcl_assignment.Pages.Dashboard.{State, replace, active_polls_count, deleted, closed_poll, step}

-- The first poll with an identity.
pub find_poll : String → List Poll → Option Poll
find_poll id [] = none
find_poll id (p ∷ rest) = if p.id == id then some p else find_poll id rest

pub find_poll-filter :
    (id j : String) (polls : List Poll)
    → find_poll j (filter (λ p. not (p.id == id)) polls)
      ≡ (if id == j then none else find_poll j polls)
unfolding find_poll
find_poll-filter id j [] = ground arith
find_poll-filter id j (p ∷ rest) =
    ground (arith, find_poll-filter id j rest, eq_iff p.id id, eq_iff p.id j, eq_iff id j)

pub find_poll-replace :
    (updated : Poll) (j : String) (polls : List Poll)
    → find_poll j (map (replace updated) polls) ≡ (
        if updated.id == j
        then (if is_some (find_poll j polls) then some updated else none)
        else find_poll j polls)
unfolding find_poll replace
find_poll-replace updated j [] = ground arith
find_poll-replace updated j (p ∷ rest) = ground (
  arith,
  find_poll-replace updated j rest,
  eq_iff p.id updated.id,
  eq_iff p.id j,
  eq_iff updated.id j,
)

ids-replace :
    (updated : Poll) (polls : List Poll)
    → map (λ p. p.id) (map (replace updated) polls) ≡ map (λ p. p.id) polls
unfolding replace
ids-replace updated [] = refl
ids-replace updated (p ∷ rest) = ground (arith, ids-replace updated rest, eq_iff p.id updated.id)

active_polls_count-replace :
    (updated : Poll) (polls : List Poll)
    → updated.status ≡ closed
    → active_polls_count (map (replace updated) polls) ≤ active_polls_count polls
unfolding active_polls_count replace
active_polls_count-replace updated [] h = omega arith
active_polls_count-replace updated (p ∷ rest) h =
    ground (arith, active_polls_count-replace updated rest h)

abbrev pub is_ok : {T : Type 0} → Result T → Bool
is_ok (ok value) = true
is_ok (err e) = false

-- When the deletion of a poll succeeds, exactly the polls with its identity leave the list and no
-- poll is chosen for deletion; when it fails, both stay as they were. In either case the page is no
-- longer busy.
pub deleted-find_poll :
    (origin : String) (p : Poll) (answer : Result (Option Unit)) (s : State) (j : String)
    → let s' = (step origin (deleted p answer) s).0 in
      let gone = is_ok answer in
      (find_poll j s'.polls ≡ (if gone && p.id == j then none else find_poll j s.polls))
      × (s'.deleting_poll ≡ (if gone then none else s.deleting_poll))
      × (s'.is_deleting ≡ false)
unfolding step
deleted-find_poll origin p (ok a) s j = (find_poll-filter p.id j s.polls, refl, refl)
deleted-find_poll origin p (err e) s j = (refl, refl, refl)

-- When the server has closed a poll, its answer takes the place of the poll with that identity, the
-- others stay, the identities keep their order, and the number of active polls does not grow.
pub closed_poll-find_poll :
    (origin : String) (updated : Poll) (s : State) (j : String)
    → updated.status ≡ closed
    → let polls = (step origin (closed_poll (ok updated)) s).0.polls in
      (find_poll j polls ≡ (
        if updated.id == j
        then (if is_some (find_poll j s.polls) then some updated else none)
        else find_poll j s.polls))
      × (map (λ p. p.id) polls ≡ map (λ p. p.id) s.polls)
      × (active_polls_count polls ≤ active_polls_count s.polls)
unfolding step
closed_poll-find_poll origin updated s j h = (
  find_poll-replace updated j s.polls,
  ids-replace updated s.polls,
  active_polls_count-replace updated s.polls h,
)
