-- ===== src/Server/Votes/Counted.antt =====
-- The counts of an event, and what a vote adds to them.
use hcl_assignment.Common.{
  ℕ, ◌+◌, String, Bool, true, false, Option, none, some, List, [], ◌∷◌, ◌≡◌, refl, ◌==◌, ◌∙◌, ap,
  get_or, eq_iff, eq_refl, Bool-cases, Option-cases, inl, inr, truthy, if◌then◌else◌, arith,
}
use hcl_assignment.Services.Model.{PollOption, PollResults, is_active}
use hcl_assignment.Server.Model.{
  Poll, Vote, Ids, ok, ◌>>=◌, chain_ok, or_not_found, find_by_id, find_poll,
}
use hcl_assignment.Server.Votes.{
  Collection, Hashes, Faults, CastVoteInput, Counts, has, has_option, put, zeros, read_fields,
  redis_key, redis_counts, Db, check, check_status, check_option, check_token, vote_of, persist,
  cast, count_vote, counts_of, event_of,
}

pub lookup : String → Counts → Option ℕ
lookup k [] = none
lookup k ((j, n) ∷ rest) = if j == k then some n else lookup k rest

lookup-put :
    (k j : String) (n : ℕ) (counts : Counts)
    → lookup k (put j n counts) ≡ (if j == k then some n else lookup k counts)
unfolding lookup put
lookup-put k j n [] = refl
lookup-put k j n ((i, m) ∷ rest) =
    ground (arith, eq_iff i j, eq_iff j k, eq_iff i k, lookup-put k j n rest)

lookup-zeros :
    (k : String) (options : List PollOption) (counts : Counts)
    → lookup k (zeros options counts) ≡ (if has_option k options then some 0 else lookup k counts)
unfolding zeros
lookup-zeros k [] counts = refl
lookup-zeros k (opt ∷ rest) counts =
    ground (arith, lookup-zeros k rest (put opt.id 0 counts), lookup-put k opt.id 0 counts)

lookup-read_fields :
    (get : String → ℕ) (k : String) (fields : List String) (counts : Counts)
    → lookup k (read_fields get fields counts)
      ≡ (if has k fields then some (get k) else lookup k counts)
unfolding read_fields
lookup-read_fields get k [] counts = refl
lookup-read_fields get k (f ∷ fields) counts = ground (
  arith,
  lookup-read_fields get k fields (put f (get f) counts),
  lookup-put k f (get f) counts,
  eq_iff f k,
)

abbrev pub calm : Faults
calm = record {
  find = false;
  check = false;
  create = false;
  incr = false;
  read = false;
  count = false;
}

module _ (ids : Ids) (mongo : Collection) (redis : Hashes) where
  redis_counts-lookup :
      (path o : String) (options : List PollOption) (s : redis.State)
      → has_option o options ≡ true
      → lookup o (redis_counts ids mongo redis path options s)
        ≡ some (redis.get (redis_key path) o s)
  unfolding redis_counts
  redis_counts-lookup path o options s known = ground (
    arith,
    lookup-read_fields (λ f. redis.get (redis_key path) f s) o (redis.fields (redis_key path) s)
        (zeros options []),
    lookup-zeros o options [],
    redis.get_absent (redis_key path) o s,
  )

  find_poll-id : (n : ℕ) (polls : List Poll) (p : Poll) → find_poll n polls ≡ some p → p.id ≡ n
  find_poll-id n [] p h = cc
  find_poll-id n (q ∷ polls) p h = ground (arith, find_poll-id n polls p)

  found-fresh :
      (faults : Faults) (input : CastVoteInput) (db : Db ids mongo redis) (q p : Poll)
      → (check_status ids mongo redis q >>= λ q. check_option ids mongo redis input q >>= λ q.
          check_token ids mongo redis faults input db q)
        ≡ ok p
      → (q ≡ p)
        × (mongo.count q.id input.voter_token db.votes ≡ 0)
        × (has_option input.option_id q.options ≡ true)
        × (is_active q.status ≡ true)
  unfolding check_status check_option check_token
  found-fresh faults input db q p h = ground arith

  pub find_by_id-ok :
      (fails : Bool) (id : String) (polls : List Poll) (p : Poll)
      → find_by_id ids fails id polls ≡ ok (some p)
      → ids.from_hex id ≡ some p.id
  unfolding find_by_id
  find_by_id-ok fails id polls p h = elim (Option-cases (ids.from_hex id)) [
    | inl e ↦ absurd (ground (arith, e))
    | inr (n, e) ↦ ground (arith, e, find_poll-id n polls p)
  ]

  -- A vote that passes the checks has no vote with its token yet.
  pub check-fresh :
      (faults : Faults) (input : CastVoteInput) (db : Db ids mongo redis) (p : Poll)
      → check ids mongo redis faults input db ≡ ok p
      → (mongo.count p.id input.voter_token db.votes ≡ 0)
        × (ids.from_hex input.poll_id ≡ some p.id)
        × (has_option input.option_id p.options ≡ true)
        × (is_active p.status ≡ true)
  unfolding check
  check-fresh faults input db p h = elim (Bool-cases (truthy input.voter_token)) [
    | inl given ↦
        let (found, looked, rest) =
          chain_ok (find_by_id ids faults.find input.poll_id db.polls) _ (rw given at h) in
        let (q, held, passed) = chain_ok (or_not_found found) _ rest in
        let (same, fresh, known, live) = found-fresh faults input db q p passed in
        ground (arith, find_by_id-ok faults.find input.poll_id db.polls p)
    | inr blank ↦ absurd (ground (arith, blank))
  ]

  -- `cast` where the checks pass and the vote is stored.
  pub cast-stored :
      (faults : Faults) (now : String) (input : CastVoteInput) (db stored : Db ids mongo redis)
      (p : Poll)
      → check ids mongo redis faults input db ≡ ok p
      → persist ids mongo redis faults (vote_of ids mongo redis input p) db ≡ ok stored
      → let counted = count_vote ids mongo redis faults input stored in
        cast ids mongo redis faults now input db ≡ (
          ok (
              event_of ids mongo redis now input.poll_id
                (counts_of ids mongo redis faults input.poll_id p counted)),
          counted,
        )
  unfolding cast
  cast-stored faults now input db stored p passed kept = rw (passed, cast) (rw kept refl)

  persist-some :
      (v : Vote) (db : Db ids mongo redis) (votes : mongo.State)
      → mongo.insert v db.votes ≡ some votes
      → persist ids mongo redis calm v db ≡ ok (record db { votes = votes })
  unfolding persist
  persist-some v db votes e = rw e refl

  -- Where the databases do not fail, a vote that passes the checks is stored, and its event is about the
  -- poll and says, for each option of the poll, what its counter was before, and one more for the
  -- option that was voted for.
  pub cast-counts :
      (now : String) (input : CastVoteInput) (db : Db ids mongo redis) (p : Poll) (o : String)
      → check ids mongo redis calm input db ≡ ok p
      → has_option o p.options ≡ true
      → let result = cast ids mongo redis calm now input db in
        (event : PollResults) × (result.0 ≡ ok event)
        × (event.poll_id ≡ input.poll_id)
        × (lookup o (get_or event.counts [])
            ≡ some (
                redis.get (redis_key input.poll_id) o db.counters
                + (if input.option_id == o then 1 else 0)))
        × (mongo.count p.id input.voter_token result.1.votes ≡ 1)
  unfolding count_vote counts_of event_of
  cast-counts now input db p o passed known =
      let (fresh, same, offered, live) = check-fresh calm input db p passed in
      let v = vote_of ids mongo redis input p in
      let (votes, stored) = mongo.insert_accepted v db.votes fresh in
      let kept = persist-some v db votes stored in
      let done = cast-stored calm now input db (record db { votes = votes }) p passed kept in
      let key = redis_key input.poll_id in
      (
        event_of ids mongo redis now input.poll_id (
            redis_counts ids mongo redis input.poll_id p.options
              (redis.incr key input.option_id db.counters)),
        ap (λ r. r.0) done,
        refl,
        redis_counts-lookup input.poll_id o p.options _ known
            ∙ ap some
                (ground (arith, redis.get-incr key input.option_id key o db.counters, eq_refl key)),
        ap (λ r. mongo.count p.id input.voter_token r.1.votes) done
            ∙ ground (
              arith,
              mongo.insert_counted v db.votes votes p.id input.voter_token stored,
              fresh,
              eq_refl input.voter_token,
            ),
      )
