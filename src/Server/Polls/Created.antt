-- ===== src/Server/Polls/Created.antt =====
-- What a creation does to the polls.
use hcl_assignment.Common.{
  ℕ, String, Bool, false, none, List, ◌∷◌, ◌≡◌, ◌⊎◌, refl, inl, inr, ◌||◌, ap, sym, ◌∙◌, Bool-cases,
  Option-cases, arith,
}
use hcl_assignment.Server.Model.{Poll, Ids, ok, find_poll, find_shared}
use hcl_assignment.Server.Votes.{Collection, Hashes, Db}
use hcl_assignment.Server.Polls.{
  CreatePollInput, create, kept_poll, poll_of, store_poll, is_taken, validate_options,
}

module _ (ids : Ids) (mongo : Collection) (redis : Hashes) where
  -- A creation changes nothing, or it adds a poll whose id and share code are new.
  abbrev pub IsFree : Poll → List Poll → Type 0
  IsFree q polls = (find_poll q.id polls ≡ none) × (find_shared q.share_code polls ≡ none)

  abbrev pub Adds : Db ids mongo redis → Db ids mongo redis → Type 0
  Adds db db' =
      (db' ≡ db)
      ⊎ ((q : Poll) × IsFree q db.polls
          × (db' ≡ record db { polls = kept_poll ids mongo redis q ∷ db.polls }))

  is_taken-IsFree :
      (q : Poll) (polls : List Poll) → is_taken ids mongo redis q polls ≡ false → IsFree q polls
  unfolding is_taken
  is_taken-IsFree q polls h = (ground (arith, h), ground (arith, h))

  store_poll-cases :
      (fails : Bool) (q : Poll) (db : Db ids mongo redis)
      → Adds db (store_poll ids mongo redis fails q db).1
  unfolding store_poll
  store_poll-cases fails q db = elim (Bool-cases (fails || is_taken ids mongo redis q db.polls)) [
    | inl refused ↦ inl (rw refused refl)
    | inr free ↦ inr (q, is_taken-IsFree q db.polls (ground (arith, free)), rw free refl)
  ]

  pub create-cases :
      (fails : Bool) (id : ℕ) (share_code now : String) (input : CreatePollInput)
      (db : Db ids mongo redis)
      → Adds db (create ids mongo redis fails id share_code now input db).1
  unfolding create
  create-cases fails id share_code now input db =
      elim (Option-cases (validate_options input.options)) [
        | inr (e, refused) ↦ inl (rw (refused, create) refl)
        | inl valid ↦ elim (Option-cases (ids.from_hex input.creator_id)) [
          | inl unread ↦ inl (rw (valid, unread, create) refl)
          | inr (creator, read) ↦ rw (valid, read, create) (store_poll-cases fails _ db)
        ]
      ]

  store_poll-ok :
      (fails : Bool) (q p : Poll) (db : Db ids mongo redis)
      → (store_poll ids mongo redis fails q db).0 ≡ ok p
      → (q ≡ p)
        × ((store_poll ids mongo redis fails q db).1.polls ≡ kept_poll ids mongo redis q ∷ db.polls)
  unfolding store_poll
  store_poll-ok fails q p db h = elim (Bool-cases (fails || is_taken ids mongo redis q db.polls)) [
    | inl refused ↦ absurd (ground (arith, refused, h))
    | inr free ↦ (ground (arith, free, h), rw free refl)
  ]

  -- A creation that succeeds adds its poll, with the share code that was made for it.
  pub create-ok :
      (fails : Bool) (id : ℕ) (share_code now : String) (input : CreatePollInput) (p : Poll)
      (db : Db ids mongo redis)
      → (create ids mongo redis fails id share_code now input db).0 ≡ ok p
      → (p.share_code ≡ share_code)
        × ((create ids mongo redis fails id share_code now input db).1.polls
            ≡ kept_poll ids mongo redis p ∷ db.polls)
  unfolding create
  create-ok fails id share_code now input p db h =
      elim (Option-cases (validate_options input.options)) [
        | inr (e, refused) ↦ absurd (ground (arith, refused, h))
        | inl valid ↦ elim (Option-cases (ids.from_hex input.creator_id)) [
          | inl unread ↦ absurd (ground (arith, valid, unread, h))
          | inr (creator, read) ↦
              let q = poll_of ids mongo redis id creator share_code now input in
              let (same, stored) = store_poll-ok fails q p db (ground (arith, valid, read, h)) in
              (
                ap (λ r. r.share_code) (sym same),
                rw (valid, read, create)
                    (stored ∙ ap (λ r. kept_poll ids mongo redis r ∷ db.polls) same),
              )
        ]
      ]
