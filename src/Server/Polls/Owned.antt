-- ===== src/Server/Polls/Owned.antt =====
-- Who can change a poll, and how.
use hcl_assignment.Common.{
  ℕ, String, Option, none, some, List, [], ◌∷◌, ◌≡◌, ◌⊎◌, inl, inr, eqb, Bool-cases, arith,
  if◌then◌else◌,
}
use hcl_assignment.Server.Model.{Poll, Ids, find_poll}
use hcl_assignment.Server.Votes.{Collection, Hashes, Db}
use hcl_assignment.Server.Polls.Calls.{
  Kept, Op, run_op, Does, nothing, adds, changes, drops, run_op-Does,
}
use hcl_assignment.Server.Polls.{change, drop_poll}

pub find_poll-change :
    (q id : ℕ) (f : Poll → Poll) (polls : List Poll)
    → ((p : Poll) → (f p).id ≡ p.id)
    → find_poll q (change id f polls) ≡ (
        if eqb q id
        then elim (find_poll q polls) [ none ↦ none | some p ↦ some (f p) ]
        else find_poll q polls)
find_poll-change q id f [] same = ground arith
find_poll-change q id f (p ∷ polls) same =
    ground (arith, same p, find_poll-change q id f polls same)

pub find_poll-drop :
    (q id : ℕ) (polls : List Poll)
    → find_poll q (drop_poll id polls) ≡ (if eqb q id then none else find_poll q polls)
find_poll-drop q id [] = ground arith
find_poll-drop q id (p ∷ polls) = ground (arith, find_poll-drop q id polls)

module _ (ids : Ids) (mongo : Collection) (redis : Hashes) where
  -- The poll is as it was; or the user is its creator, and it is gone, or kept but for its texts and a
  -- closing.
  abbrev pub Respects : String → Poll → Option Poll → Type 0
  Respects user p after =
      (after ≡ some p)
      ⊎ ((ids.hex p.creator_id ≡ user)
          × ((after ≡ none) ⊎ ((p' : Poll) × (after ≡ some p') × Kept p p')))

  Does-Respects :
      (user : String) (p : Poll) {polls after : List Poll}
      → Does ids mongo redis user polls after
      → find_poll p.id polls ≡ some p
      → Respects user p (find_poll p.id after)
  Does-Respects user p nothing there = inl there
  Does-Respects user p (adds q (new, other)) there = inl (ground (arith, there, new))
  Does-Respects user p {polls} (changes o f keeps own found) there =
      elim (Bool-cases (eqb p.id o.id)) [
        | inl same ↦ inr (
          ground (arith),
          inr (
            f p,
            ground (arith, find_poll-change p.id o.id f polls (λ r. (keeps r).id)),
            keeps p,
          ),
        )
        | inr other ↦ inl (ground (arith, find_poll-change p.id o.id f polls (λ r. (keeps r).id)))
      ]
  Does-Respects user p {polls} (drops o own found) there = elim (Bool-cases (eqb p.id o.id)) [
    | inl same ↦ inr (ground (arith), inl (ground (arith, find_poll-drop p.id o.id polls)))
    | inr other ↦ inl (ground (arith, find_poll-drop p.id o.id polls))
  ]

  -- Whatever the databases do: a call of the poll service by a user leaves a poll as it was, or the user
  -- is the poll's creator, and the poll is gone or kept, with its options and its share code, and with
  -- its status, or closed. So nobody changes another's poll, and no closed poll is opened again.
  pub run_op-Respects :
      (user : String) (op : Op ids mongo redis) (db : Db ids mongo redis) (p : Poll)
      → find_poll p.id db.polls ≡ some p
      → Respects user p (find_poll p.id (run_op ids mongo redis user op db).polls)
  run_op-Respects user op db p there =
      Does-Respects user p (run_op-Does ids mongo redis user op db) there
