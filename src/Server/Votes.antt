-- ===== src/Server/Votes.antt =====
-- services/vote_service.go, with the vote repository and the counters in Redis.
pub mod Counted
pub mod Recorded
pub mod Flights
use hcl_assignment.Common.{
  ℕ, ◌+◌, ◌<◌, String, Bool, true, false, not, ◌&&◌, ◌||◌, Option, none, some, List, [], ◌∷◌, ◌≡◌,
  map, ltb, eqb, ◌==◌, ◌⧺◌, truthy, if◌then◌else◌,
}
pub use hcl_assignment.Server.Stores.{Collection, Hashes, Faults, has}
use hcl_assignment.Services.Model.{PollOption, PollResults, is_active}
use hcl_assignment.Server.Model.{
  Poll, Vote, Ids, Result, ok, err, ◌>>=◌, unless, poll_closed, option_not_found, already_voted,
  invalid_voter_token, other_error, find_by_id, or_not_found,
}

pub record CastVoteInput : Type 0 where
  pub poll_id : String
  pub option_id : String
  pub voter_token : String

abbrev pub has_option : String → List PollOption → Bool
has_option id [] = false
has_option id (opt ∷ rest) = opt.id == id || has_option id rest

-- A map of Go, as a list of pairs.
abbrev pub Counts : Type 0
Counts = List (String × ℕ)

pub put : String → ℕ → Counts → Counts
put k n [] = (k, n) ∷ []
put k n ((j, m) ∷ rest) = if j == k then (k, n) ∷ rest else (j, m) ∷ put k n rest

pub sum : Counts → ℕ
sum [] = 0
sum ((k, n) ∷ rest) = n + sum rest

-- the map with 0, or with a number, at each option
zeros : List PollOption → Counts → Counts
unfolding put
zeros [] counts = counts
zeros (opt ∷ rest) counts = zeros rest (put opt.id 0 counts)

read_fields : (String → ℕ) → List String → Counts → Counts
unfolding put
read_fields get [] counts = counts
read_fields get (f ∷ fields) counts = read_fields get fields (put f (get f) counts)

tallies : (String → ℕ) → List PollOption → Counts → Counts
unfolding put
tallies tally [] counts = counts
tallies tally (opt ∷ rest) counts = tallies tally rest (put opt.id (tally opt.id) counts)

abbrev pub redis_key : String → String
redis_key poll_id = "poll:" ⧺ poll_id

module _ (ids : Ids) (mongo : Collection) (redis : Hashes) where
  pub record Db : Type 0 where
    pub polls : List Poll
    pub votes : mongo.State
    pub counters : redis.State

  check_option : CastVoteInput → Poll → Result Poll
  check_option input p = if has_option input.option_id p.options then ok p else err option_not_found

  check_status : Poll → Result Poll
  check_status p = if is_active p.status then ok p else err poll_closed

  -- HasVoted
  check_token : Faults → CastVoteInput → Db → Poll → Result Poll
  check_token faults input db p =
      if faults.check
      then err other_error
      else if ltb 0 (mongo.count p.id input.voter_token db.votes)
      then err already_voted
      else ok p

  -- `Cast` up to its first write: the poll of the vote.
  unfoldable pub check : Faults → CastVoteInput → Db → Result Poll
  unfolding check_status check_option check_token find_by_id
  check faults input db =
      if truthy input.voter_token
      then (do
        found ← find_by_id ids faults.find input.poll_id db.polls
        p ← or_not_found found
        p ← check_status p
        p ← check_option input p
        check_token faults input db p)
      else err invalid_voter_token

  abbrev pub vote_of : CastVoteInput → Poll → Vote
  vote_of input p = record {
    poll_id = p.id;
    option_id = input.option_id;
    voter_token = input.voter_token;
  }

  -- `Create` of the vote repository.
  unfoldable pub persist : Faults → Vote → Db → Result Db
  persist faults v db = if faults.create then err other_error else elim (mongo.insert v db.votes) [
    | none ↦ err other_error
    | some votes ↦ ok (record db { votes = votes })
  ]

  -- The counter of the option; a failure is only logged.
  unfoldable pub count_vote : Faults → CastVoteInput → Db → Db
  count_vote faults input db =
      if faults.incr
      then db
      else record db { counters = redis.incr (redis_key input.poll_id) input.option_id db.counters }

  -- getRedisCountsForPoll
  unfoldable pub redis_counts : String → List PollOption → redis.State → Counts
  unfolding zeros read_fields
  redis_counts poll_id options counters =
      let key = redis_key poll_id in
      read_fields (λ f. redis.get key f counters) (redis.fields key counters) (zeros options [])

  -- getMongoCountsForPoll
  unfoldable pub mongo_counts : ℕ → List PollOption → mongo.State → Counts
  unfolding tallies
  mongo_counts poll_id options votes = tallies (λ o. mongo.tally poll_id o votes) options []

  -- The counts from Redis, or else from MongoDB, or else none.
  unfoldable pub counts_of : Faults → String → Poll → Db → Counts
  counts_of faults poll_id p db =
      if faults.read
      then (if faults.count then [] else mongo_counts p.id p.options db.votes)
      else redis_counts poll_id p.options db.counters

  pub event_of : String → String → Counts → PollResults
  event_of now poll_id counts = record {
    type = "POLL_RESULTS_UPDATED";
    poll_id = poll_id;
    counts = some counts;
    total_votes = some (sum counts);
    timestamp = now;
  }

  -- `Cast`: its event, which is published too, and the databases after it.
  unfoldable pub cast : Faults → String → CastVoteInput → Db → Result PollResults × Db
  unfolding count_vote counts_of event_of
  cast faults now input db = elim (check faults input db) [
    | err e ↦ (err e, db)
    | ok p ↦ elim (persist faults (vote_of input p) db) [
      | err e ↦ (err e, db)
      | ok stored ↦
          let counted = count_vote faults input stored in
          (ok (event_of now input.poll_id (counts_of faults input.poll_id p counted)), counted)
    ]
  ]

  results_of : Faults → String → String → Db → Poll → Result PollResults
  unfolding counts_of event_of
  results_of faults now poll_id db p =
      if faults.read && faults.count
      then err other_error
      else ok (event_of now poll_id (counts_of faults poll_id p db))

  -- `GetResults`
  unfoldable pub get_results : Faults → String → String → Db → Result PollResults
  unfolding results_of find_by_id
  get_results faults now poll_id db = do
    found ← find_by_id ids faults.find poll_id db.polls
    p ← or_not_found found
    results_of faults now poll_id db p
