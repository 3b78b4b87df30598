-- ===== src/Pages/PublicPoll/Votes.antt =====
-- Votes in flight, and acceptances that the page was told of.
use hcl_assignment.Common.{
  ℕ, suc, ◌+◌, ◌-◌, ◌≤◌, ◌<◌, String, Bool, true, false, Option, none, some, List, [], ◌∷◌, ◌≡◌,
  ◌↔◌, ◌⊎◌, Bool-cases, inl, inr, Option-cases, if◌then◌else◌, arith,
}
use hcl_assignment.Services.Model.{Poll, PollResults}
use hcl_assignment.Services.Api.{Result, ok, err}
use hcl_assignment.Effects.{Effect, call, cast_vote}
use hcl_assignment.Realtime.{Hook}
use hcl_assignment.Ui.{offers}
use hcl_assignment.Pages.PublicPoll.{
  State, init, Action, loaded, select, vote, voted, step, vote_for, vote_failed, render,
}
use hcl_assignment.Pages.PublicPoll.Offered.{is_vote, offers-no_poll, offers_vote-render}

-- The calls of `vote` among the effects of an action.
abbrev pub votes : List Effect → ℕ
votes [] = 0
votes (call (cast_vote id option) ∷ effects) = suc (votes effects)
votes (_ ∷ effects) = votes effects

-- The page, its votes that are not answered, and the answers it got that accept a vote. A vote that the
-- server stores, but whose answer is lost, is none of these.
pub record Ballot : Type 0 where
  pub page : State
  pub voting : ℕ
  pub confirmed : ℕ

abbrev pub take_step : Action → Ballot → Ballot
take_step a b =
    let (page, effects) = step a b.page in
    record b { page = page; voting = b.voting + votes effects }

abbrev pub answered : Result (Option PollResults) → Ballot → Ballot
answered (ok result) b = record b { voting = b.voting - 1; confirmed = b.confirmed + 1 }
answered (err e) b = record b { voting = b.voting - 1 }

abbrev pub IsOther : Action → Type 0
IsOther vote = ⊥
IsOther (voted answer) = ⊥
IsOther _ = Unit

-- What can happen: a click on the button that submits a vote, which the page offers beside some state
-- of its hook; the answer of a vote in flight; the answer of the load, or a selection.
pub data Turn (code : Option String) : Ballot → Ballot → Type 0 where
  clicks :
      (b : Ballot) (h : Hook)
      → offers is_vote (render code (record { page = b.page; hook = h })) ≡ true
      → Turn code b (take_step vote b)
  answers :
      (b : Ballot) (answer : Result (Option PollResults))
      → 0 < b.voting
      → Turn code b (take_step (voted answer) (answered answer b))
  others : (b : Ballot) (a : Action) → IsOther a → Turn code b (take_step a b)

pub data Reach (code : Option String) (b : Ballot) : Ballot → Type 0 where
  here : Reach code b b
  next : {c d : Ballot} → Reach code b c → Turn code c d → Reach code b d

abbrev flag : Bool → ℕ
flag b = if b then 1 else 0

record Inv (b : Ballot) : Type 0 where
  busy : b.voting ≡ flag b.page.is_voting
  fresh : b.page.has_voted ≡ false → b.confirmed ≡ 0
  single : b.confirmed ≤ 1
  before : b.page.is_voting ≡ true → b.page.has_voted ≡ false

offers-open :
    (code : Option String) (s : State) (h : Hook)
    → offers is_vote (render code (record { page = s; hook = h })) ≡ true
    → (s.has_voted ≡ false) × (s.is_voting ≡ false)
offers-open code s h o = elim (Option-cases s.poll) [
  | inl e ↦ absurd (ground (arith, offers-no_poll code (record { page = s; hook = h }) e))
  | inr (p, e) ↦ ground (arith, offers_vote-render code p (record { page = s; hook = h }) e)
]

vote_for-Inv :
    (p : Option Poll) (b : Ballot)
    → Inv b
    → b.page.has_voted ≡ false
    → b.page.is_voting ≡ false
    → Inv
        (record b { page = (vote_for p b.page).0; voting = b.voting + votes (vote_for p b.page).1 })
unfolding vote_for
vote_for-Inv none b inv h i = ground (arith, inv.busy, inv.fresh h, inv.single)
vote_for-Inv (some p) b inv h i = ground (arith, inv.busy, inv.fresh h, inv.single)

clicks-Inv :
    (b : Ballot)
    → Inv b
    → b.page.has_voted ≡ false
    → b.page.is_voting ≡ false
    → Inv (take_step vote b)
unfolding step
clicks-Inv b inv h i = vote_for-Inv b.page.poll b inv h i

answers-Inv :
    (b : Ballot) (answer : Result (Option PollResults))
    → 0 < b.voting
    → Inv b
    → Inv (take_step (voted answer) (answered answer b))
unfolding step vote_failed
answers-Inv b (ok result) pos inv = ground (arith, inv.busy, inv.before, inv.fresh, inv.single)
answers-Inv b (err e) pos inv = ground (arith, inv.busy, inv.before, inv.fresh, inv.single)

others-Inv : (b : Ballot) (a : Action) → IsOther a → Inv b → Inv (take_step a b)
unfolding step
others-Inv b (loaded (ok poll) results) o inv =
    ground (arith, inv.busy, inv.before, inv.fresh, inv.single)
others-Inv b (loaded (err e) results) o inv =
    ground (arith, inv.busy, inv.before, inv.fresh, inv.single)
others-Inv b (select id) o inv = ground (arith, inv.busy, inv.before, inv.fresh, inv.single)
others-Inv b vote o inv = absurd o
others-Inv b (voted answer) o inv = absurd o

Turn-Inv : {code : Option String} {b c : Ballot} → Turn code b c → Inv b → Inv c
Turn-Inv {code} (clicks b h o) inv =
    let (fresh, idle) = offers-open code b.page h o in clicks-Inv b inv fresh idle
Turn-Inv (answers b answer pos) inv = answers-Inv b answer pos inv
Turn-Inv (others b a o) inv = others-Inv b a o inv

abbrev pub first : Ballot
first = record { page = init; voting = 0; confirmed = 0 }

first-Inv : Inv first
unfolding init
first-Inv = ground arith

Reach-Inv : {code : Option String} {b c : Ballot} → Inv b → Reach code b c → Inv c
Reach-Inv inv here = inv
Reach-Inv inv (next r t) = Turn-Inv t (Reach-Inv inv r)

flag_le : (b : Bool) → flag b ≤ 1
flag_le b = ground arith

-- From the first render of the voting page, whatever the user does with what it offers and whenever
-- the answers come: at most one vote is in flight, the page is busy exactly while one is; and the
-- page has got no answer that accepts a vote, or one, and then it records the vote as cast.
pub first-votes :
    (code : Option String) {b : Ballot}
    → Reach code first b
    → (b.voting ≤ 1)
      × ((b.page.is_voting ≡ true) ↔ (0 < b.voting))
      × (b.confirmed ≤ 1)
      × ((b.confirmed ≡ 0) ⊎ (b.page.has_voted ≡ true))
first-votes code {b} r =
    let inv = Reach-Inv first-Inv r in
    let recorded : (b.confirmed ≡ 0) ⊎ (b.page.has_voted ≡ true) =
      elim (Bool-cases b.page.has_voted) [ inl h ↦ inr h | inr h ↦ inl (inv.fresh h) ] in
    (
      omega (arith, inv.busy, flag_le b.page.is_voting),
      ground (arith, inv.busy),
      inv.single,
      recorded,
    )
