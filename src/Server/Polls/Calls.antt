-- ===== src/Server/Polls/Calls.antt =====
-- The calls of the poll service, and what each does to the polls.
use hcl_assignment.Common.{
  ℕ, String, Bool, some, List, ◌∷◌, ◌≡◌, ◌⊎◌, refl, inl, inr, eq_iff, Bool-cases, arith,
}
use hcl_assignment.Services.Model.{closed}
use hcl_assignment.Server.Model.{
  Poll, Ids, ok, chain_ok, Result-cases, find_poll, find_by_id, or_not_found,
}
use hcl_assignment.Server.Votes.{Collection, Hashes, Db, Faults}
use hcl_assignment.Server.Votes.Counted.{find_by_id-ok}
use hcl_assignment.Server.Polls.Created.{IsFree, create-cases}
use hcl_assignment.Server.Polls.{
  change, drop_poll, CreatePollInput, kept_poll, UpdatePollInput, updated, closed_poll, check_owner,
  owned, create, write, change_owned, update, close, remove, delete,
}

-- What an operation of the creator may make of a poll.
pub record Kept (p p' : Poll) : Type 0 where
  pub id : p'.id ≡ p.id
  pub creator : p'.creator_id ≡ p.creator_id
  pub options : p'.options ≡ p.options
  pub share_code : p'.share_code ≡ p.share_code
  pub status : (p'.status ≡ p.status) ⊎ (p'.status ≡ closed)

updated-Kept : (input : UpdatePollInput) (p : Poll) → Kept p (updated input p)
updated-Kept input p = record {
  id = refl;
  creator = refl;
  options = refl;
  share_code = refl;
  status = inl refl;
}

closed_poll-Kept : (p : Poll) → Kept p (closed_poll p)
closed_poll-Kept p = record {
  id = refl;
  creator = refl;
  options = refl;
  share_code = refl;
  status = inr refl;
}

module _ (ids : Ids) (mongo : Collection) (redis : Hashes) where
  -- A call of the poll service, with what the databases do.
  pub data Op : Type 0 where
    creates : Bool → ℕ → String → String → CreatePollInput → Op
    updates : UpdatePollInput → Faults → String → Op
    closes : Faults → String → Op
    deletes : Faults → String → Op

  -- The call of a user; `Create` of the controller takes the user for the creator.
  unfoldable pub run_op : String → Op → Db ids mongo redis → Db ids mongo redis
  run_op user (creates fails id share_code now input) db =
      (create ids mongo redis fails id share_code now (record input { creator_id = user }) db).1
  run_op user (updates input faults id) db = (update ids mongo redis input faults id user db).1
  run_op user (closes faults id) db = (close ids mongo redis faults id user db).1
  run_op user (deletes faults id) db = (delete ids mongo redis faults id user db).1

  find_by_id-found :
      (fails : Bool) (id : String) (polls : List Poll) (p : Poll)
      → find_by_id ids fails id polls ≡ ok (some p)
      → find_poll p.id polls ≡ some p
  unfolding find_by_id
  find_by_id-found fails id polls p h =
      ground (arith, find_by_id-ok ids mongo redis fails id polls p h)

  owned-ok :
      (fails : Bool) (id user : String) (db : Db ids mongo redis) (p : Poll)
      → owned ids mongo redis fails id user db ≡ ok p
      → (ids.hex p.creator_id ≡ user) × (find_poll p.id db.polls ≡ some p)
  unfolding owned check_owner
  owned-ok fails id user db p h =
      let (found, looked, rest) = chain_ok (find_by_id ids fails id db.polls) _ h in
      let (q, held, passed) = chain_ok (or_not_found found) _ rest in
      ground
        (arith, passed, eq_iff (ids.hex q.creator_id) user, find_by_id-found fails id db.polls q)

  -- What a call of a user does to the polls.
  pub data Does (user : String) (polls : List Poll) : List Poll → Type 0 where
    nothing : Does user polls polls
    adds : (q : Poll) → IsFree ids mongo redis q polls → Does user polls (q ∷ polls)
    changes :
        (o : Poll) (f : Poll → Poll)
        → ((r : Poll) → Kept r (f r))
        → ids.hex o.creator_id ≡ user
        → find_poll o.id polls ≡ some o
        → Does user polls (change o.id f polls)
    drops :
        (o : Poll)
        → ids.hex o.creator_id ≡ user
        → find_poll o.id polls ≡ some o
        → Does user polls (drop_poll o.id polls)

  module _ (user : String) (db : Db ids mongo redis) where
    write-Does :
        (f : Poll → Poll) (faults : Faults) (o : Poll)
        → Does user db.polls (change o.id f db.polls)
        → Does user db.polls (write ids mongo redis f faults o db).1.polls
    unfolding write
    write-Does f faults o changed = elim (Bool-cases faults.create) [
      | inl fails ↦ rw fails nothing
      | inr works ↦ rw works changed
    ]

    remove-Does :
        (faults : Faults) (o : Poll)
        → Does user db.polls (drop_poll o.id db.polls)
        → Does user db.polls (remove ids mongo redis faults o db).1.polls
    unfolding remove
    remove-Does faults o dropped = elim (Bool-cases faults.create) [
      | inl fails ↦ rw fails nothing
      | inr works ↦ rw works dropped
    ]

    change_owned-Does :
        (f : Poll → Poll) (faults : Faults) (id : String)
        → ((r : Poll) → Kept r (f r))
        → Does user db.polls (change_owned ids mongo redis f faults id user db).1.polls
    unfolding change_owned
    change_owned-Does f faults id keeps =
        elim (Result-cases (owned ids mongo redis faults.find id user db)) [
          | inr (e, refused) ↦ rw (refused, change_owned) nothing
          | inl (o, allowed) ↦
              let (own, found) = owned-ok faults.find id user db o allowed in
              rw (allowed, change_owned) (write-Does f faults o (changes o f keeps own found))
        ]

    delete-Does :
        (faults : Faults) (id : String)
        → Does user db.polls (delete ids mongo redis faults id user db).1.polls
    unfolding delete
    delete-Does faults id = elim (Result-cases (owned ids mongo redis faults.find id user db)) [
      | inr (e, refused) ↦ rw (refused, delete) nothing
      | inl (o, allowed) ↦
          let (own, found) = owned-ok faults.find id user db o allowed in
          rw (allowed, delete) (remove-Does faults o (drops o own found))
    ]

    create-Does :
        (fails : Bool) (id : ℕ) (share_code now : String) (input : CreatePollInput)
        → Does user db.polls (create ids mongo redis fails id share_code now input db).1.polls
    create-Does fails id share_code now input =
        elim (create-cases ids mongo redis fails id share_code now input db) [
          | inl same ↦ rw same nothing
          | inr (q, free, stored) ↦ rw stored (adds (kept_poll ids mongo redis q) free)
        ]

  pub run_op-Does :
      (user : String) (op : Op) (db : Db ids mongo redis)
      → Does user db.polls (run_op user op db).polls
  unfolding run_op
  run_op-Does user (creates fails id share_code now input) db =
      create-Does user db fails id share_code now _
  run_op-Does user (updates input faults id) db =
      change_owned-Does user db (updated input) faults id (updated-Kept input)
  run_op-Does user (closes faults id) db =
      change_owned-Does user db closed_poll faults id closed_poll-Kept
  run_op-Does user (deletes faults id) db = delete-Does user db faults id
