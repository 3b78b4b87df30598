-- ===== src/Server/Votes/Flights.antt =====
-- Votes that are cast at once: the handlers run in any order between their calls of the databases.
use text.Mathlib.TextLemmas.{append_cancel_left}
use hcl_assignment.Common.{
  ℕ, ◌+◌, ◌≤◌, String, Bool, true, false, not, ◌&&◌, ◌||◌, some, List, [], ◌∷◌, ◌++◌, ◌≡◌, sym, ap,
  inl, inr, Option-cases, All, All-append, All-middle, eqb, ◌==◌, eq_iff, subst, arith,
  if◌then◌else◌,
}
use native.Mathlib.Decide.{dec_lt}
use hcl_assignment.Server.Model.{Poll, Vote, Ids, Error, ok, err}
use hcl_assignment.Server.Votes.{
  Collection, Hashes, Db, Faults, CastVoteInput, check, vote_of, persist, count_vote, redis_key,
}
use hcl_assignment.Server.Votes.Counted.{check-fresh}

-- A call of `Cast` that has passed the checks; then, one that has stored its vote.
pub record Flight : Type 0 where
  pub input : CastVoteInput
  pub poll : Poll
  pub is_stored : Bool

module _ (ids : Ids) (mongo : Collection) (redis : Hashes) where
  -- `lost` counts the votes of one option whose counter was not incremented: a failure of Redis is only
  -- logged, and an address that spells the poll's id in another way names another key.
  pub record Server : Type 0 where
    pub db : Db ids mongo redis
    pub flights : List Flight
    pub lost : ℕ

  module _ (n : ℕ) (name o : String) where
    abbrev pub is_for : Flight → Bool
    is_for f = eqb f.poll.id n && f.input.option_id == o

    -- The votes for the option that are stored and not yet counted.
    abbrev pub waiting : List Flight → ℕ
    waiting [] = 0
    waiting (f ∷ rest) = (if f.is_stored && is_for f then 1 else 0) + waiting rest

    abbrev pub loses : Faults → Flight → Bool
    loses faults f = is_for f && (faults.incr || not (f.input.poll_id == name))

    -- What can happen between two calls of the databases.
    pub data Turn (s : Server) : Server → Type 0 where
      checks :
          (faults : Faults) (input : CastVoteInput) (p : Poll)
          → check ids mongo redis faults input s.db ≡ ok p
          → Turn s (record s {
            flights = record { input = input; poll = p; is_stored = false } ∷ s.flights;
          })
      stores :
          (faults : Faults) (before : List Flight) (f : Flight) (after : List Flight)
          (db : Db ids mongo redis)
          → s.flights ≡ before ++ f ∷ after
          → f.is_stored ≡ false
          → persist ids mongo redis faults (vote_of ids mongo redis f.input f.poll) s.db ≡ ok db
          → Turn s (record s { db = db; flights = before ++ record f { is_stored = true } ∷ after })
      drops :
          (faults : Faults) (before : List Flight) (f : Flight) (after : List Flight) (e : Error)
          → s.flights ≡ before ++ f ∷ after
          → f.is_stored ≡ false
          → persist ids mongo redis faults (vote_of ids mongo redis f.input f.poll) s.db ≡ err e
          → Turn s (record s { flights = before ++ after })
      counts :
          (faults : Faults) (before : List Flight) (f : Flight) (after : List Flight)
          → s.flights ≡ before ++ f ∷ after
          → f.is_stored ≡ true
          → Turn s (record {
            db = count_vote ids mongo redis faults f.input s.db;
            flights = before ++ after;
            lost = s.lost + (if loses faults f then 1 else 0);
          })

    pub data Reach (s : Server) : Server → Type 0 where
      here : Reach s s
      next : {t u : Server} → Reach s t → Turn t u → Reach s u

    -- A flight has read the poll that its address names.
    abbrev pub Reads : Flight → Type 0
    Reads f = ids.from_hex f.input.poll_id ≡ some f.poll.id

    -- One vote for a poll and a token, and the counter of the option short by those that wait and those
    -- that were lost.
    pub record Inv (s : Server) : Type 0 where
      pub once : (poll : ℕ) (token : String) → mongo.count poll token s.db.votes ≤ 1
      pub read : All Reads s.flights
      pub counted :
          redis.get (redis_key name) o s.db.counters + waiting s.flights + s.lost
          ≡ mongo.tally n o s.db.votes

    waiting-append : (xs ys : List Flight) → waiting (xs ++ ys) ≡ waiting xs + waiting ys
    waiting-append [] ys = omega arith
    waiting-append (x ∷ xs) ys = omega (arith, waiting-append xs ys)

    key_inj : (a b : String) → redis_key a ≡ redis_key b → a ≡ b
    key_inj a b h = append_cancel_left "poll:" a b h

    key_eq : (a b : String) → (redis_key a == redis_key b) ≡ (a == b)
    key_eq a b = ground (arith, eq_iff (redis_key a) (redis_key b), eq_iff a b, key_inj a b)

    module _ (spelled : ids.from_hex name ≡ some n) where
      checks-Inv :
          (faults : Faults) (input : CastVoteInput) (p : Poll) (s : Server)
          → check ids mongo redis faults input s.db ≡ ok p
          → Inv s
          → Inv (record s {
            flights = record { input = input; poll = p; is_stored = false } ∷ s.flights;
          })
      checks-Inv faults input p s passed inv =
          let (fresh, read, known, live) = check-fresh ids mongo redis faults input s.db p passed in
          record { once = inv.once; read = (read, inv.read); counted = omega (arith, inv.counted) }

      persist-inserts :
          (faults : Faults) (v : Vote) (db db' : Db ids mongo redis)
          → persist ids mongo redis faults v db ≡ ok db'
          → (votes : mongo.State) × (mongo.insert v db.votes ≡ some votes)
            × (db' ≡ record db { votes = votes })
      unfolding persist
      persist-inserts faults v db db' h = elim (Option-cases (mongo.insert v db.votes)) [
        | inl refused ↦ absurd (ground (arith, refused))
        | inr (votes, e) ↦ (votes, e, ground (arith, e))
      ]

      -- A second vote with a token is refused by the index, even where both passed the checks.
      insert-once :
          (v : Vote) (s t : mongo.State) (poll : ℕ) (token : String)
          → mongo.insert v s ≡ some t
          → mongo.count poll token s ≤ 1
          → mongo.count poll token t ≤ 1
      insert-once v s t poll token e le = elim (dec_lt 0 (mongo.count v.poll_id v.voter_token s)) [
        | yes there ↦ absurd (ground (arith, e, mongo.insert_refused v s there))
        | no fresh ↦
            ground (arith, mongo.insert_counted v s t poll token e, eq_iff v.voter_token token)
      ]

      stores-Inv :
          (faults : Faults) (before : List Flight) (f : Flight) (after : List Flight)
          (db : Db ids mongo redis) (s : Server)
          → s.flights ≡ before ++ f ∷ after
          → f.is_stored ≡ false
          → persist ids mongo redis faults (vote_of ids mongo redis f.input f.poll) s.db ≡ ok db
          → Inv s
          → Inv (record s { db = db; flights = before ++ record f { is_stored = true } ∷ after })
      stores-Inv faults before f after db s e waits kept inv =
          let (left, own, right) = All-middle Reads before f after (subst (All Reads) e inv.read) in
          let v = vote_of ids mongo redis f.input f.poll in
          let (votes, inserted, same) = persist-inserts faults v s.db db kept in
          rw same (record {
            once = λ poll token.
                insert-once v s.db.votes votes poll token inserted (inv.once poll token);
            read = All-append Reads before _ left (own, right);
            counted = ground (
              arith,
              inv.counted,
              ap waiting e,
              waiting-append before (f ∷ after),
              waiting-append before (record f { is_stored = true } ∷ after),
              mongo.insert_tallied v s.db.votes votes n o inserted,
              waits,
            );
          })

      counts-Inv :
          (faults : Faults) (before : List Flight) (f : Flight) (after : List Flight) (s : Server)
          → s.flights ≡ before ++ f ∷ after
          → f.is_stored ≡ true
          → Inv s
          → Inv (record {
            db = count_vote ids mongo redis faults f.input s.db;
            flights = before ++ after;
            lost = s.lost + (if loses faults f then 1 else 0);
          })
      unfolding count_vote
      counts-Inv faults before f after s e stored inv =
          let (left, own, right) = All-middle Reads before f after (subst (All Reads) e inv.read) in
          record {
            once = λ poll token. ground (arith, inv.once poll token);
            read = All-append Reads before after left right;
            counted = ground (
              arith,
              inv.counted,
              ap waiting e,
              waiting-append before (f ∷ after),
              waiting-append before after,
              redis.get-incr (redis_key f.input.poll_id) f.input.option_id (redis_key name) o
                  s.db.counters,
              key_eq f.input.poll_id name,
              eq_iff f.input.poll_id name,
              eq_iff f.input.option_id o,
              spelled,
              own,
            );
          }

      drops-Inv :
          (before : List Flight) (f : Flight) (after : List Flight) (s : Server)
          → s.flights ≡ before ++ f ∷ after
          → f.is_stored ≡ false
          → Inv s
          → Inv (record s { flights = before ++ after })
      drops-Inv before f after s e waits inv =
          let (left, own, right) = All-middle Reads before f after (subst (All Reads) e inv.read) in
          record {
            once = inv.once;
            read = All-append Reads before after left right;
            counted = ground (
              arith,
              inv.counted,
              ap waiting e,
              waiting-append before (f ∷ after),
              waiting-append before after,
            );
          }

      Turn-Inv : {s t : Server} → Turn s t → Inv s → Inv t
      Turn-Inv {s} (checks faults input p passed) inv = checks-Inv faults input p s passed inv
      Turn-Inv {s} (stores faults before f after db e waits kept) inv =
          stores-Inv faults before f after db s e waits kept inv
      Turn-Inv {s} (drops faults before f after e at waits refused) inv =
          drops-Inv before f after s at waits inv
      Turn-Inv {s} (counts faults before f after e stored) inv =
          counts-Inv faults before f after s e stored inv

      Reach-Inv : {s t : Server} → Inv s → Reach s t → Inv t
      Reach-Inv inv here = inv
      Reach-Inv inv (next r t) = Turn-Inv t (Reach-Inv inv r)

      -- From a state with no call under way, at most one vote for a poll and a token, and the option's
      -- counter equal to its votes: however the calls of `Cast` interleave, and whatever fails, there is
      -- at most one vote for a poll and a token; and the counter, with the votes that are stored and not
      -- yet counted, and those whose increment failed or went to another spelling of the poll's id, is
      -- the number of the option's votes.
      pub Reach-counted :
          {s t : Server}
          → Reach s t
          → s.flights ≡ []
          → ((poll : ℕ) (token : String) → mongo.count poll token s.db.votes ≤ 1)
          → redis.get (redis_key name) o s.db.counters + s.lost ≡ mongo.tally n o s.db.votes
          → ((poll : ℕ) (token : String) → mongo.count poll token t.db.votes ≤ 1)
            × (redis.get (redis_key name) o t.db.counters + waiting t.flights + t.lost
                ≡ mongo.tally n o t.db.votes)
      Reach-counted {s} r none_under_way once even =
          let inv : Inv s = record {
            once = once;
            read = subst (All Reads) (sym none_under_way) tt;
            counted = omega (arith, even, ap waiting none_under_way);
          } in
          let kept = Reach-Inv inv r in (kept.once, kept.counted)
