-- ===== src/Server/Polls.antt =====
-- services/poll_service.go, with the poll repository; controllers/poll_controller.go, and the results of
-- routes/routes.go.
pub mod Created
pub mod Calls
pub mod Owned
pub mod Public
use hcl_assignment.Common.{
  ℕ, ◌+◌, String, Bool, true, false, not, ◌&&◌, ◌||◌, Option, none, some, List, [], ◌∷◌, length,
  filter, ltb, eqb, ◌==◌, get_or, is_some, if◌then◌else◌,
}
use hcl_assignment.Services.Model.{PollOption, PollResults, Status, active, closed}
use hcl_assignment.Services.Api.{Outcome}
use hcl_assignment.Server.Model.{
  Poll, Ids, Error, Result, ok, err, ◌>>=◌, unless, poll_not_found, unauthorized, other_error,
  too_few_options, too_many_options, duplicate_option, find_poll, find_shared, find_by_id,
  or_not_found, respond_success, respond_not_found, respond_forbidden, respond_internal_error,
}
use hcl_assignment.Server.Votes.{Collection, Hashes, Db, Faults, get_results}

-- validateOptions: between 2 and 10 options, no two with one text. The error, if there is one.
abbrev pub has_text : String → List PollOption → Bool
has_text text [] = false
has_text text (opt ∷ rest) = opt.text == text || has_text text rest

distinct : List PollOption → Bool
distinct [] = true
distinct (opt ∷ rest) = not (has_text opt.text rest) && distinct rest

unfoldable pub validate_options : List PollOption → Option Error
unfolding distinct
validate_options options =
    if ltb (length options) 2
    then some too_few_options
    else if ltb 10 (length options)
    then some too_many_options
    else if distinct options
    then none
    else some duplicate_option

-- A change of the poll with an id.
abbrev pub change : ℕ → (Poll → Poll) → List Poll → List Poll
change id f [] = []
change id f (p ∷ rest) = (if eqb p.id id then f p else p) ∷ change id f rest

abbrev pub drop_poll : ℕ → List Poll → List Poll
drop_poll id polls = filter (λ p. not (eqb p.id id)) polls

pub record CreatePollInput : Type 0 where
  pub title : String
  pub description : String
  pub options : List PollOption
  pub creator_id : String

-- The fields that are given.
pub record UpdatePollInput : Type 0 where
  pub title : Option String
  pub description : Option String

abbrev pub updated : UpdatePollInput → Poll → Poll
updated input p = record p {
  title = get_or input.title p.title;
  description = get_or input.description p.description;
}

abbrev pub closed_poll : Poll → Poll
closed_poll p = record p { status = closed }

-- The answers of `Update`, `Close` and `Delete` of the controller, and of `Results`.
answer_error : {A : Type 0} → String → String → Error → Outcome A
answer_error forbidden failed poll_not_found = respond_not_found "Poll not found"
answer_error forbidden failed unauthorized = respond_forbidden forbidden
answer_error forbidden failed e = respond_internal_error failed

unfoldable pub answer_changed : String → String → Result (Option Poll) → Outcome (Option Poll)
unfolding answer_error
answer_changed forbidden failed (ok p) = respond_success 200 p
answer_changed forbidden failed (err e) = answer_error forbidden failed e

unfoldable pub answer_deleted : Result Unit → Outcome String
unfolding answer_error
answer_deleted (ok done) = respond_success 200 "Poll deleted"
answer_deleted (err e) =
    answer_error "You don't have permission to delete this poll" "Failed to delete poll" e

unfoldable pub answer_results : Result PollResults → Outcome PollResults
answer_results (ok event) = respond_success 200 event
answer_results (err poll_not_found) = respond_not_found "Poll not found"
answer_results (err _) = respond_internal_error "Failed to load results"

module _ (ids : Ids) (mongo : Collection) (redis : Hashes) where
  -- The poll of an id, for its creator.
  check_owner : String → Poll → Result Poll
  check_owner user p = if ids.hex p.creator_id == user then ok p else err unauthorized

  unfoldable pub owned : Bool → String → String → Db ids mongo redis → Result Poll
  unfolding check_owner
  owned fails id user db = do
    found ← find_by_id ids fails id db.polls
    p ← or_not_found found
    check_owner user p

  -- `Create` of the repository: the unique indexes refuse an id or a share code that is taken.
  is_taken : Poll → List Poll → Bool
  is_taken p polls = is_some (find_poll p.id polls) || is_some (find_shared p.share_code polls)

  -- The poll as the database keeps it.
  abbrev pub kept_poll : Poll → Poll
  kept_poll p = record p { created_at = ids.bson_time p.created_at }

  store_poll : Bool → Poll → Db ids mongo redis → Result Poll × Db ids mongo redis
  unfolding is_taken
  store_poll fails p db =
      if fails || is_taken p db.polls
      then (err other_error, db)
      else (ok p, record db { polls = kept_poll p ∷ db.polls })

  abbrev poll_of : ℕ → ℕ → String → String → CreatePollInput → Poll
  poll_of id creator share_code now input = record {
    id = id;
    creator_id = creator;
    title = input.title;
    description = input.description;
    options = input.options;
    share_code = share_code;
    status = active;
    created_at = now;
  }

  -- `Create`, with the id and the share code that are made for the poll.
  unfoldable pub create :
      Bool
      → ℕ
      → String
      → String
      → CreatePollInput
      → Db ids mongo redis
      → Result Poll × Db ids mongo redis
  unfolding store_poll
  create fails id share_code now input db = elim (validate_options input.options) [
    | some e ↦ (err e, db)
    | none ↦ elim (ids.from_hex input.creator_id) [
      | none ↦ (err other_error, db)
      | some creator ↦ store_poll fails (poll_of id creator share_code now input) db
    ]
  ]

  -- An update of the collection, and the poll that is read after it.
  write :
      (Poll → Poll) → Faults → Poll → Db ids mongo redis → Result (Option Poll) × Db ids mongo redis
  write f faults p db =
      let polls = change p.id f db.polls in
      if faults.create
      then (err other_error, db)
      else (unless faults.read (find_poll p.id polls), record db { polls = polls })

  -- `Update` and `Close`
  unfoldable pub change_owned :
      (Poll → Poll)
      → Faults
      → String
      → String
      → Db ids mongo redis
      → Result (Option Poll) × Db ids mongo redis
  unfolding write
  change_owned f faults id user db = elim (owned faults.find id user db) [
    | err e ↦ (err e, db)
    | ok p ↦ write f faults p db
  ]

  abbrev pub update :
      UpdatePollInput
      → Faults
      → String
      → String
      → Db ids mongo redis
      → Result (Option Poll) × Db ids mongo redis
  update input = change_owned (updated input)

  abbrev pub close :
      Faults → String → String → Db ids mongo redis → Result (Option Poll) × Db ids mongo redis
  close = change_owned closed_poll

  -- The votes of a poll, then the poll; a failure with the votes is only logged.
  remove : Faults → Poll → Db ids mongo redis → Result Unit × Db ids mongo redis
  remove faults p db =
      let votes = if faults.check then db.votes else mongo.delete_poll p.id db.votes in
      if faults.create
      then (err other_error, record db { votes = votes })
      else (ok tt, record db { votes = votes; polls = drop_poll p.id db.polls })

  -- `Delete`
  unfoldable pub delete :
      Faults → String → String → Db ids mongo redis → Result Unit × Db ids mongo redis
  unfolding remove
  delete faults id user db = elim (owned faults.find id user db) [
    | err e ↦ (err e, db)
    | ok p ↦ remove faults p db
  ]

  unfoldable pub results : Faults → String → String → Db ids mongo redis → Outcome PollResults
  unfolding answer_results
  results faults now id db = answer_results (get_results ids mongo redis faults now id db)

  -- publicResults: the share code is passed on as the id.
  unfoldable pub public_results :
      Faults → String → String → Db ids mongo redis → Outcome PollResults
  unfolding results
  public_results faults now share_code db = results faults now share_code db
