-- ===== src/Server/Sharing/Lasts.antt =====
-- A share link lasts: only its creator can take a poll away from it.
use hcl_assignment.Common.{
  ℕ, String, Bool, false, Option, none, some, List, [], ◌∷◌, ◌≡◌, ◌≢◌, refl, inl, inr, ap, sym, ◌∙◌,
  subst, All, eqb, eq_iff, Bool-cases, arith,
}
use hcl_assignment.Services.Api
use hcl_assignment.Services.Api.{receive}
use hcl_assignment.Services.Model.{PollResults}
use hcl_assignment.Pages.PublicPoll
use hcl_assignment.Server.Model.{Poll, Ids, ok, find_poll, find_shared}
use hcl_assignment.Server.Votes.{Collection, Hashes, Db}
use hcl_assignment.Server.Polls.{change, drop_poll, CreatePollInput, kept_poll, create}
use hcl_assignment.Server.Polls.Created.{create-ok}
use hcl_assignment.Server.Polls.Calls.{Op, run_op, Does, nothing, adds, changes, drops, run_op-Does}
use hcl_assignment.Server.Polls.Owned.{find_poll-change, find_poll-drop}
use hcl_assignment.Server.Sharing.{get_public, get_by_share_code, answer_public, public_data}

find_shared-change :
    (code : String) (id : ℕ) (f : Poll → Poll) (polls : List Poll) (p : Poll)
    → ((r : Poll) → (f r).share_code ≡ r.share_code)
    → eqb p.id id ≡ false
    → find_shared code polls ≡ some p
    → find_shared code (change id f polls) ≡ some p
find_shared-change code id f [] p same other h = cc
find_shared-change code id f (q ∷ polls) p same other h =
    ground (arith, same q, find_shared-change code id f polls p same other)

find_shared-drop :
    (code : String) (id : ℕ) (polls : List Poll) (p : Poll)
    → eqb p.id id ≡ false
    → find_shared code polls ≡ some p
    → find_shared code (drop_poll id polls) ≡ some p
find_shared-drop code id [] p other h = cc
find_shared-drop code id (q ∷ polls) p other h =
    ground (arith, find_shared-drop code id polls p other)

-- The poll is found by its id and by the share code.
abbrev IsShared : String → Poll → List Poll → Type 0
IsShared code p polls = (find_poll p.id polls ≡ some p) × (find_shared code polls ≡ some p)

module _ (ids : Ids) (mongo : Collection) (redis : Hashes) where
  -- The calls of users, one after another.
  unfoldable pub run_calls :
      List (String × Op ids mongo redis) → Db ids mongo redis → Db ids mongo redis
  run_calls [] db = db
  run_calls ((user, op) ∷ rest) db = run_calls rest (run_op ids mongo redis user op db)

  -- No call is of the poll's creator.
  abbrev pub ByOthers : Poll → List (String × Op ids mongo redis) → Type 0
  ByOthers p calls = All (λ c. c.0 ≢ ids.hex p.creator_id) calls

  same_poll :
      (id : ℕ) (polls : List Poll) (o p : Poll)
      → find_poll id polls ≡ some o
      → find_poll id polls ≡ some p
      → o ≡ p
  same_poll id polls o p h k = cc

  apart :
      (user : String) (polls : List Poll) (o p : Poll)
      → ids.hex o.creator_id ≡ user
      → user ≢ ids.hex p.creator_id
      → find_poll o.id polls ≡ some o
      → find_poll p.id polls ≡ some p
      → eqb p.id o.id ≡ false
  apart user polls o p own foreign found there = elim (Bool-cases (eqb p.id o.id)) [
    | inr other ↦ other
    | inl same ↦
        let e : p.id ≡ o.id = ground (arith, same) in
        let found' : find_poll p.id polls ≡ some o =
          subst (λ id. find_poll id polls ≡ some o) (sym e) found in
        absurd (
          foreign
            (sym own ∙ ap (λ r. ids.hex r.creator_id) (same_poll p.id polls o p found' there)))
  ]

  Does-IsShared :
      (user code : String) (p : Poll) {polls after : List Poll}
      → Does ids mongo redis user polls after
      → user ≢ ids.hex p.creator_id
      → IsShared code p polls
      → IsShared code p after
  Does-IsShared user code p nothing foreign there = there
  Does-IsShared user code p (adds q (new, free)) foreign (by_id, by_code) =
      (ground (arith, new, by_id), ground (arith, free, by_code, eq_iff q.share_code code))
  Does-IsShared user code p {polls} (changes o f keeps own found) foreign (by_id, by_code) =
      let other = apart user polls o p own foreign found by_id in
      (
        ground (arith, other, by_id, find_poll-change p.id o.id f polls (λ r. (keeps r).id)),
        find_shared-change code o.id f polls p (λ r. (keeps r).share_code) other by_code,
      )
  Does-IsShared user code p {polls} (drops o own found) foreign (by_id, by_code) =
      let other = apart user polls o p own foreign found by_id in
      (
        ground (arith, other, by_id, find_poll-drop p.id o.id polls),
        find_shared-drop code o.id polls p other by_code,
      )

  run_calls-IsShared :
      (code : String) (p : Poll) (calls : List (String × Op ids mongo redis))
      (db : Db ids mongo redis)
      → ByOthers p calls
      → IsShared code p db.polls
      → IsShared code p (run_calls calls db).polls
  unfolding run_calls
  run_calls-IsShared code p [] db others there = there
  run_calls-IsShared code p ((user, op) ∷ rest) db (foreign, others) there =
      run_calls-IsShared code p rest (run_op ids mongo redis user op db) others
        (Does-IsShared user code p (run_op-Does ids mongo redis user op db) foreign there)

  get_public-IsShared :
      (code : String) (p : Poll) (db : Db ids mongo redis)
      → IsShared code p db.polls
      → receive (get_public ids mongo redis false code db) ≡ Api.ok (some (public_data ids p))
  unfolding get_public get_by_share_code answer_public receive
  get_public-IsShared code p db (by_id, by_code) = rw by_code refl

  created-IsShared :
      (fails : Bool) (id : ℕ) (code now : String) (input : CreatePollInput) (p : Poll)
      (db : Db ids mongo redis)
      → (create ids mongo redis fails id code now input db).0 ≡ ok p
      → IsShared code
          (kept_poll ids mongo redis p)
          (create ids mongo redis fails id code now input db).1.polls
  created-IsShared fails id code now input p db h =
      let (coded, stored) = create-ok ids mongo redis fails id code now input p db h in
      rw stored (ground arith, ground (arith, coded, eq_iff p.share_code code))

  -- The link of a poll lasts. Once a poll is created, whatever other users do with polls of their own
  -- or try with this one, and whatever fails while they do: the public page of its share code, if the
  -- database is up, shows the poll as the database kept it at its creation, without an error, and is loaded.
  pub get_public-create :
      (fails : Bool) (id : ℕ) (code now : String) (input : CreatePollInput) (p : Poll)
      (db : Db ids mongo redis) (calls : List (String × Op ids mongo redis))
      (results : Api.Result (Option PollResults))
      → (create ids mongo redis fails id code now input db).0 ≡ ok p
      → ByOthers p calls
      → let later = run_calls calls (create ids mongo redis fails id code now input db).1 in
        let shown =
          PublicPoll.load_settled
            (receive (get_public ids mongo redis false code later))
            results
            PublicPoll.init in
        (shown.poll ≡ some (public_data ids (kept_poll ids mongo redis p)))
        × (shown.load_error ≡ none)
        × (shown.is_loading ≡ false)
  unfolding PublicPoll.load_settled PublicPoll.init
  get_public-create fails id code now input p db calls results h others =
      let shared =
        run_calls-IsShared code (kept_poll ids mongo redis p) calls
          (create ids mongo redis fails id code now input db).1 others
          (created-IsShared fails id code now input p db h) in
      rw
        (get_public-IsShared code (kept_poll ids mongo redis p)
          (run_calls calls (create ids mongo redis fails id code now input db).1) shared)
        (refl, refl, refl)
