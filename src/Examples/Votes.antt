-- ===== src/Examples/Votes.antt =====
-- Votes cast on databases in memory.
use hcl_assignment.Common.{
  ℕ, ◌+◌, ◌≤◌, String, true, false, some, [], ◌∷◌, ◌≡◌, ◌⊎◌, refl, get_or, arith,
}
use hcl_assignment.Services.Model.{PollResults, active}
use hcl_assignment.Pages.PublicPoll
use hcl_assignment.Server.Model.{Poll, ok}
use hcl_assignment.Server.Votes.{Db, CastVoteInput, check, cast, persist, vote_of, count_vote}
use hcl_assignment.Server.Votes.Counted.{calm, lookup, cast-counts}
use hcl_assignment.Server.Votes.Recorded.{Recorded}
use hcl_assignment.Server.Votes.Flights.{
  Flight, Server, checks, stores, drops, Reach, here, next, Reach-counted,
}
use hcl_assignment.Services.Api.{receive, api_error, get_header}
use hcl_assignment.Server.Text.{trim_space}
use hcl_assignment.Server.Casting.{CastVoteRequest, handle, trimmed, answer}
use hcl_assignment.Server.Casting.Marks.{answered, vote_route-marks}
use hcl_assignment.Server.Casting.Anonymous.{vote_route-vote}
use hcl_assignment.Server.Route.{vote_route}
use hcl_assignment.Server.Accounts.{authorize}
use hcl_assignment.Services.Storage.{Storage}
use hcl_assignment.Services.Poll.{vote}
use hcl_assignment.Services.Api
use hcl_assignment.Examples.Accounts.{ada_token}
use hcl_assignment.Examples.Databases.{
  votes_in_memory, hashes_in_memory, two_ids, count_votes, tally_votes,
}

abbrev poll : Poll
poll = record {
  id = 1;
  creator_id = 7;
  title = "Which one?";
  description = "";
  options = record { id = "a"; text = "Go" } ∷ record { id = "b"; text = "Rust" } ∷ [];
  share_code = "abc";
  status = active;
  created_at = "t";
}

abbrev Memory : Type 0
Memory = Db two_ids votes_in_memory hashes_in_memory

abbrev db : Memory
db = record { polls = poll ∷ []; votes = []; counters = [] }

abbrev input : CastVoteInput
input = record { poll_id = "p1"; option_id = "a"; voter_token = "0011223344" }

passes : check two_ids votes_in_memory hashes_in_memory calm input db ≡ ok poll
unfolding check
passes = refl

cast-counts_example :
    let result = cast two_ids votes_in_memory hashes_in_memory calm "t" input db in
    (event : PollResults) × (result.0 ≡ ok event)
    × (event.poll_id ≡ "p1")
    × (lookup "b" (get_or event.counts []) ≡ some (0 + 0))
    × (count_votes 1 "0011223344" result.1.votes ≡ 1)
cast-counts_example =
    cast-counts two_ids votes_in_memory hashes_in_memory "t" input db poll "b" passes refl

abbrev request : CastVoteRequest
request = record { option_id = "a"; voter_token = " 0011223344 " }

-- the second vote with a token is answered as one
voted_twice :
    let first = handle two_ids votes_in_memory hashes_in_memory calm "t" "p1" (some request) db in
    let second =
      handle two_ids votes_in_memory hashes_in_memory calm "t" "p1" (some request) first.1 in
    ((answered first.0 PublicPoll.init).has_voted ≡ true)
    × ((answered second.0 PublicPoll.init).has_voted ≡ true)
    × (second.1.votes ≡ first.1.votes)
unfolding handle cast check persist count_vote trim_space answer receive PublicPoll.vote_settled
    PublicPoll.init
voted_twice = (refl, refl, refl)

vote_route-marks_example :
    let (outcome, db') =
      vote_route two_ids votes_in_memory hashes_in_memory ada_token 100
        (some "Bearer jwt")
        calm
        "t"
        "p1"
        (some request)
        db in
    let s' = answered outcome PublicPoll.init in
    (s'.is_voting ≡ false)
    × ((s'.has_voted ≡ PublicPoll.init.has_voted)
        ⊎ ((s'.has_voted ≡ true)
            × Recorded two_ids votes_in_memory hashes_in_memory "p1"
                (trimmed request).voter_token
                db'.votes))
vote_route-marks_example =
    vote_route-marks two_ids votes_in_memory hashes_in_memory ada_token 100 (some "Bearer jwt") calm
      "t" "p1" (some request) db PublicPoll.init

-- With a good token the vote passes the route.
passed_on :
    vote_route two_ids votes_in_memory hashes_in_memory ada_token 100
      (some "Bearer jwt")
      calm
      "t"
      "p1"
      (some request)
      db
    ≡ handle two_ids votes_in_memory hashes_in_memory calm "t" "p1" (some request) db
unfolding vote_route authorize
passed_on = refl

abbrev items : Storage
items = ("pulsepoll_auth_token", "jwt") ∷ ("pulsepoll_voter_token", "0011223344") ∷ []

vote_route-vote_example :
    let header = get_header "Authorization" (vote "/api" [] items "p1" "a").0.headers in
    let (outcome, db') =
      vote_route two_ids votes_in_memory hashes_in_memory ada_token 100 header calm "t" "p1"
        (some request)
        db in
    (receive outcome ≡ Api.err (api_error "Authorization header required" "UNAUTHORIZED" 401))
    × (db' ≡ db)
    × ((answered outcome PublicPoll.init).is_voting ≡ false)
    × ((answered outcome PublicPoll.init).has_voted ≡ PublicPoll.init.has_voted)
vote_route-vote_example =
    vote_route-vote two_ids votes_in_memory hashes_in_memory "/api" [] items "p1" "a" ada_token 100
      calm "t" "p1" (some request) db PublicPoll.init

-- Two calls with one token pass the checks; the second is refused by the index.
abbrev waits : Flight
waits = record { input = input; poll = poll; is_stored = false }

abbrev MemoryServer : Type 0
MemoryServer = Server two_ids votes_in_memory hashes_in_memory

abbrev start : MemoryServer
start = record { db = db; flights = []; lost = 0 }

abbrev both : MemoryServer
both = record start { flights = waits ∷ waits ∷ [] }

abbrev stored_db : Memory
stored_db = record db { votes = vote_of two_ids votes_in_memory hashes_in_memory input poll ∷ [] }

abbrev one_stored : MemoryServer
one_stored = record {
  db = stored_db;
  flights = record waits { is_stored = true } ∷ waits ∷ [];
  lost = 0;
}

abbrev dropped : MemoryServer
dropped = record one_stored { flights = record waits { is_stored = true } ∷ [] }

dropped_reached : Reach two_ids votes_in_memory hashes_in_memory 1 "p1" "a" start dropped
unfolding persist check
dropped_reached =
    next
      (next (next (next here (checks calm input poll refl)) (checks calm input poll refl))
        (stores calm [] waits (waits ∷ []) stored_db refl refl refl))
      (drops calm (record waits { is_stored = true } ∷ []) waits [] _ refl refl refl)

Reach-counted_example :
    ((n : ℕ) (token : String) → count_votes n token dropped.db.votes ≤ 1)
    × (0 + 1 + 0 ≡ tally_votes 1 "a" dropped.db.votes)
Reach-counted_example =
    Reach-counted two_ids votes_in_memory hashes_in_memory 1 "p1" "a" refl dropped_reached refl
      (λ n token. omega arith) refl
