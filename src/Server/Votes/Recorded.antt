-- ===== src/Server/Votes/Recorded.antt =====
-- A vote that was accepted, or refused as a second one, is in the collection.
use hcl_assignment.Common.{
  ℕ, ◌<◌, String, Bool, true, false, some, List, ◌≡◌, refl, ap, ◌∙◌, inl, inr, eq_refl, Bool-cases,
  Option-cases, truthy, arith,
}
use hcl_assignment.Services.Model.{PollResults}
use hcl_assignment.Server.Model.{
  Poll, Vote, Ids, Error, Result, ok, err, ◌>>=◌, chain_err, Result-cases, already_voted,
  other_error, find_by_id, or_not_found,
}
use hcl_assignment.Server.Votes.{
  Collection, Hashes, Db, Faults, CastVoteInput, check, check_status, check_option, check_token,
  vote_of, persist, cast, count_vote,
}
use hcl_assignment.Server.Votes.Counted.{find_by_id-ok, check-fresh, cast-stored}

-- The result, and whether it says that the vote is there.
abbrev pub says_voted : Result PollResults → Bool
says_voted (ok event) = true
says_voted (err already_voted) = true
says_voted (err e) = false

module _ (ids : Ids) (mongo : Collection) (redis : Hashes) where
  -- The poll of the id has a vote with the token.
  abbrev pub Recorded : String → String → mongo.State → Type 0
  Recorded id token votes = (n : ℕ) × (ids.from_hex id ≡ some n) × (0 < mongo.count n token votes)

  found-voted :
      (faults : Faults) (input : CastVoteInput) (db : Db ids mongo redis) (q : Poll)
      → (check_status ids mongo redis q >>= λ q. check_option ids mongo redis input q >>= λ q.
          check_token ids mongo redis faults input db q)
        ≡ err already_voted
      → 0 < mongo.count q.id input.voter_token db.votes
  unfolding check_status check_option check_token
  found-voted faults input db q h = ground arith

  not_found-voted :
      (fails : Bool) (id : String) (polls : List Poll)
      → find_by_id ids fails id polls ≡ err already_voted
      → ⊥
  unfolding find_by_id
  not_found-voted fails id polls h = ground arith

  check-voted :
      (faults : Faults) (input : CastVoteInput) (db : Db ids mongo redis)
      → check ids mongo redis faults input db ≡ err already_voted
      → Recorded input.poll_id input.voter_token db.votes
  unfolding check
  check-voted faults input db h = elim (Bool-cases (truthy input.voter_token)) [
    | inr blank ↦ absurd (ground (arith, blank))
    | inl given ↦
        elim (chain_err (find_by_id ids faults.find input.poll_id db.polls) _ (rw given at h)) [
          | inl none_found ↦ absurd (not_found-voted _ _ _ none_found)
          | inr (found, looked, rest) ↦ elim (chain_err (or_not_found found) _ rest) [
            | inl no_poll ↦ absurd (ground (arith, no_poll))
            | inr (q, held, passed) ↦ (
              q.id,
              find_by_id-ok ids mongo redis faults.find input.poll_id db.polls q
                  (ground (arith, looked, held)),
              found-voted faults input db q passed,
            )
          ]
        ]
  ]

  persist-counted :
      (faults : Faults) (v : Vote) (db stored : Db ids mongo redis)
      → persist ids mongo redis faults v db ≡ ok stored
      → 0 < mongo.count v.poll_id v.voter_token stored.votes
  unfolding persist
  persist-counted faults v db stored h = elim (Option-cases (mongo.insert v db.votes)) [
    | inl refused ↦ absurd (ground (arith, refused))
    | inr (votes, e) ↦ ground (
      arith,
      e,
      mongo.insert_counted v db.votes votes v.poll_id v.voter_token e,
      eq_refl v.voter_token,
    )
  ]

  -- The error of a call that is not made for want of a poll, or of a vote that is not stored.
  cast-checked :
      (faults : Faults) (now : String) (input : CastVoteInput) (db : Db ids mongo redis) (e : Error)
      → check ids mongo redis faults input db ≡ err e
      → cast ids mongo redis faults now input db ≡ (err e, db)
  unfolding cast
  cast-checked faults now input db e h = rw (h, cast) refl

  cast-refused :
      (faults : Faults) (now : String) (input : CastVoteInput) (db : Db ids mongo redis) (p : Poll)
      (e : Error)
      → check ids mongo redis faults input db ≡ ok p
      → persist ids mongo redis faults (vote_of ids mongo redis input p) db ≡ err e
      → cast ids mongo redis faults now input db ≡ (err e, db)
  unfolding cast
  cast-refused faults now input db p e h refused = rw (h, cast) (rw refused refl)

  persist-err :
      (faults : Faults) (v : Vote) (db : Db ids mongo redis) (e : Error)
      → persist ids mongo redis faults v db ≡ err e
      → e ≡ other_error
  unfolding persist
  persist-err faults v db e h = ground arith

  count_vote-votes :
      (faults : Faults) (input : CastVoteInput) (db : Db ids mongo redis)
      → (count_vote ids mongo redis faults input db).votes ≡ db.votes
  unfolding count_vote
  count_vote-votes faults input db = ground arith

  says_voted-err : (e : Error) → says_voted (err e) ≡ true → e ≡ already_voted
  says_voted-err already_voted h = refl
  says_voted-err e h = cc

  pub cast-Recorded :
      (faults : Faults) (now : String) (input : CastVoteInput) (db : Db ids mongo redis)
      → let (result, db') = cast ids mongo redis faults now input db in
        says_voted result ≡ true → Recorded input.poll_id input.voter_token db'.votes
  cast-Recorded faults now input db voted =
      elim (Result-cases (check ids mongo redis faults input db)) [
        | inr (e, failed) ↦
            let done = cast-checked faults now input db e failed in
            let same = says_voted-err e (rw done at voted) in
            rw done (check-voted faults input db (failed ∙ ap err same))
        | inl (p, passed) ↦
            elim (Result-cases
              (persist ids mongo redis faults (vote_of ids mongo redis input p) db)) [
                | inr (e, refused) ↦
                    let done = cast-refused faults now input db p e passed refused in
                    let same = says_voted-err e (rw done at voted) in
                    absurd (ground (arith, persist-err faults _ db e refused, same))
                | inl (stored, kept) ↦
                    let done =
                      cast-stored ids mongo redis faults now input db stored p passed kept in
                    let (fresh, read, known, live) =
                      check-fresh ids mongo redis faults input db p passed in
                    let there =
                      persist-counted faults (vote_of ids mongo redis input p) db stored kept in
                    rw done (p.id, read, rw (count_vote-votes faults input stored) there)
              ]
      ]
