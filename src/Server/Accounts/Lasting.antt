-- ===== src/Server/Accounts/Lasting.antt =====
-- An account lasts: what a sign-up stored is found later.
use hcl_assignment.Common.{
  ℕ, ◌<◌, String, true, false, Option, none, some, List, [], ◌∷◌, ◌≡◌, refl, sym, ap, ◌∙◌, inl, inr,
  eq_iff, eq_refl, subst, arith,
}
use hcl_assignment.Server.Model.{Ids, ok, err, chain_ok, Result-cases, unless, other_error}
use hcl_assignment.Server.Text.{len}
use hcl_assignment.Server.Accounts.{
  Account, Users, Passwords, Tokens, UserFaults, SignupInput, AuthResult, Fresh, or_error,
  claims_of, generate_jwt, check_taken, insert_account, account_of, new_account, with_token, signup,
  check_password, login,
}

or_error-ok : {A : Type 0} (m : Option A) {a : A} → or_error m ≡ ok a → m ≡ some a
or_error-ok m h = ground arith

module _ (ids : Ids) (users : Users) (passwords : Passwords) (tokens : Tokens) where
  -- A sign-up of anyone.
  pub record Call : Type 0 where
    pub faults : UserFaults
    pub fresh : Fresh
    pub input : SignupInput
    pub seen : users.State

  unfoldable pub run_signups : List Call → users.State → users.State
  run_signups [] s = s
  run_signups (c ∷ rest) s =
      run_signups rest (signup ids users passwords tokens c.faults c.fresh c.input c.seen s).1

  -- The account as the database keeps it.
  abbrev pub kept_account : Account → Account
  kept_account a = record a { created_at = users.bson_time a.created_at }

  -- The account is found by its email and by its id.
  abbrev pub IsFound : Account → users.State → Type 0
  IsFound a s =
      (users.by_email a.email s ≡ some (kept_account a))
      × (users.by_id a.id s ≡ some (kept_account a))

  insert_account-ok :
      (faults : UserFaults) (a : Account) (s t : users.State)
      → insert_account ids users passwords tokens faults a s ≡ ok t
      → users.insert a s ≡ some t
  unfolding insert_account
  insert_account-ok faults a s t h = ground arith

  insert-IsFound :
      (a b : Account) (s t : users.State) → users.insert b s ≡ some t → IsFound a s → IsFound a t
  insert-IsFound a b s t h (by_email, by_id) = (
    ground (
      arith,
      by_email,
      users.insert_new b s t h,
      users.by_email-insert b s t a.email h,
      eq_iff b.email a.email,
    ),
    ground (arith, by_id, users.insert_new b s t h, users.by_id-insert b s t a.id h),
  )

  signup-IsFound :
      (c : Call) (a : Account) (s : users.State)
      → IsFound a s
      → IsFound a (signup ids users passwords tokens c.faults c.fresh c.input c.seen s).1
  unfolding signup
  signup-IsFound c a s found =
      elim (Result-cases (new_account ids users passwords tokens c.faults c.fresh c.input c.seen)) [
        | inr (e, refused) ↦ rw (refused, signup) found
        | inl (b, made) ↦
            elim (Result-cases (insert_account ids users passwords tokens c.faults b s)) [
              | inr (e, refused) ↦ rw (made, refused, signup) found
              | inl (t, kept) ↦
                  rw (made, kept, signup)
                    (insert-IsFound a b s t (insert_account-ok c.faults b s t kept) found)
            ]
      ]

  pub run_signups-IsFound :
      (calls : List Call) (a : Account) (s : users.State)
      → IsFound a s
      → IsFound a (run_signups calls s)
  unfolding run_signups
  run_signups-IsFound [] a s found = found
  run_signups-IsFound (c ∷ rest) a s found =
      run_signups-IsFound rest a
        (signup ids users passwords tokens c.faults c.fresh c.input c.seen s).1
        (signup-IsFound c a s found)

  new_account-ok :
      (faults : UserFaults) (fresh : Fresh) (input : SignupInput) (seen : users.State) (a : Account)
      → new_account ids users passwords tokens faults fresh input seen ≡ ok a
      → (hash : String) × (a ≡ account_of ids users passwords tokens fresh input hash)
        × (passwords.compare hash input.password ≡ true)
  unfolding new_account
  new_account-ok faults fresh input seen a h =
      let (existing, looked, rest) =
        chain_ok (unless faults.find (users.by_email input.email seen)) _ h in
      let (free, was_free, rest) =
        chain_ok (check_taken ids users passwords tokens existing) _ rest in
      let (hash, hashed, made) =
        chain_ok (or_error (passwords.generate fresh.salt input.password)) _ rest in
      (hash, cc, passwords.compare-generate fresh.salt input.password hash (or_error-ok _ hashed))

  with_token-ok :
      (now : ℕ) (a : Account) (result : AuthResult)
      → with_token ids users passwords tokens now a ≡ ok result
      → (result.user ≡ a)
        × (tokens.signed_string (claims_of tokens now (ids.hex a.id) a.email) ≡ some result.token)
  unfolding with_token
  with_token-ok now a result h =
      let (token, signed, made) = chain_ok (generate_jwt tokens now (ids.hex a.id) a.email) _ h in
      (cc, ground (arith, or_error-ok _ signed, made))

  inserted-IsFound : (a : Account) (s t : users.State) → users.insert a s ≡ some t → IsFound a t
  inserted-IsFound a s t h = (
    ground (arith, users.by_email-insert a s t a.email h, eq_refl a.email),
    ground (arith, users.by_id-insert a s t a.id h),
  )

  -- What a sign-up that succeeds leaves: an account of its input, found by email and id, whose hash is
  -- that of the password; and a token for it.
  pub record Opened (fresh : Fresh) (input : SignupInput) (result : AuthResult) (t : users.State)
      : Type 0 where
    pub id : result.user.id ≡ fresh.id
    pub email : result.user.email ≡ input.email
    pub name : result.user.name ≡ input.name
    pub found : IsFound result.user t
    pub compared : passwords.compare result.user.password_hash input.password ≡ true
    pub signed :
        tokens.signed_string (claims_of tokens fresh.now (ids.hex fresh.id) input.email)
        ≡ some result.token

  opened :
      (fresh : Fresh) (input : SignupInput) (hash : String) (a : Account) (result : AuthResult)
      (s t : users.State)
      → a ≡ account_of ids users passwords tokens fresh input hash
      → passwords.compare hash input.password ≡ true
      → users.insert a s ≡ some t
      → with_token ids users passwords tokens fresh.now a ≡ ok result
      → Opened fresh input result t
  unfolding account_of
  opened fresh input hash a result s t made compared kept done =
      let (same, signed) = with_token-ok fresh.now a result done in
      let whole = same ∙ made in
      record {
        id = ap (λ u. u.id) whole;
        email = ap (λ u. u.email) whole;
        name = ap (λ u. u.name) whole;
        found = subst (λ u. IsFound u t) (sym same) (inserted-IsFound a s t kept);
        compared =
            subst (λ u. passwords.compare u.password_hash input.password ≡ true) (sym whole)
              compared;
        signed =
            subst
              (λ u.
                tokens.signed_string (claims_of tokens fresh.now (ids.hex u.id) u.email)
                ≡ some result.token)
              made signed;
      }

  pub signup-Opened :
      (faults : UserFaults) (fresh : Fresh) (input : SignupInput) (seen s : users.State)
      (result : AuthResult)
      → (signup ids users passwords tokens faults fresh input seen s).0 ≡ ok result
      → Opened fresh input result (signup ids users passwords tokens faults fresh input seen s).1
  unfolding signup
  signup-Opened faults fresh input seen s result h =
      elim (Result-cases (new_account ids users passwords tokens faults fresh input seen)) [
        | inr (e, refused) ↦ absurd (ground (arith, refused, h))
        | inl (a, made) ↦
            elim (Result-cases (insert_account ids users passwords tokens faults a s)) [
              | inr (e, refused) ↦ absurd (ground (arith, made, refused, h))
              | inl (t, kept) ↦
                  let (hash, whole, compared) = new_account-ok faults fresh input seen a made in
                  let done : with_token ids users passwords tokens fresh.now a ≡ ok result =
                    ground (arith, made, kept, h) in
                  rw (made, kept, signup)
                    (opened fresh input hash a result s t whole compared
                      (insert_account-ok faults a s t kept) done)
            ]
      ]

  login-found :
      (faults : UserFaults) (now : ℕ) (password token : String) (a : Account) (s : users.State)
      → faults.find ≡ false
      → users.by_email a.email s ≡ some a
      → passwords.compare a.password_hash password ≡ true
      → tokens.signed_string (claims_of tokens now (ids.hex a.id) a.email) ≡ some token
      → login ids users passwords tokens faults now a.email password s
        ≡ ok (record { user = a; token = token })
  unfolding login check_password with_token
  login-found faults now password token a s calm found compared signed =
      rw (calm, found, compared, signed) refl

  -- An account can be signed in to: once a sign-up has succeeded, whatever it saw and whoever signs up
  -- after it, a login with its email and its password succeeds with the same account, its time of creation
  -- as the database keeps it, if the database is up and a token can be signed.
  pub signup-login :
      (faults later : UserFaults) (fresh : Fresh) (input : SignupInput) (seen s : users.State)
      (result : AuthResult) (calls : List Call) (now : ℕ) (token : String)
      → (signup ids users passwords tokens faults fresh input seen s).0 ≡ ok result
      → later.find ≡ false
      → tokens.signed_string (claims_of tokens now (ids.hex fresh.id) input.email) ≡ some token
      → login ids users passwords tokens later now input.email input.password
          (run_signups calls (signup ids users passwords tokens faults fresh input seen s).1)
        ≡ ok (record { user = kept_account result.user; token = token })
  signup-login faults later fresh input seen s result calls now token h calm signed =
      let left = signup-Opened faults fresh input seen s result h in
      let t = run_signups calls (signup ids users passwords tokens faults fresh input seen s).1 in
      let (found, by_id) =
        run_signups-IsFound calls result.user
          (signup ids users passwords tokens faults fresh input seen s).1 left.found in
      subst
        (λ email.
          login ids users passwords tokens later now email input.password t
          ≡ ok (record { user = kept_account result.user; token = token }))
        left.email
        (login-found later now input.password token (kept_account result.user) t calm found
          left.compared (rw (left.id, left.email) signed))

  new_account_long :
      (faults : UserFaults) (fresh : Fresh) (input : SignupInput) (seen : users.State)
      → faults.find ≡ false
      → users.by_email input.email seen ≡ none
      → 72 < len input.password
      → new_account ids users passwords tokens faults fresh input seen ≡ err other_error
  unfolding new_account check_taken
  new_account_long faults fresh input seen calm free long =
      rw (calm, free, passwords.generate_long fresh.salt input.password long) refl

  -- A password of more than 72 bytes, which the validator allows up to 128, is refused by bcrypt: the
  -- sign-up fails with an error of the server, and no account is stored.
  pub signup_long :
      (faults : UserFaults) (fresh : Fresh) (input : SignupInput) (seen s : users.State)
      → faults.find ≡ false
      → users.by_email input.email seen ≡ none
      → 72 < len input.password
      → signup ids users passwords tokens faults fresh input seen s ≡ (err other_error, s)
  unfolding signup
  signup_long faults fresh input seen s calm free long =
      rw (new_account_long faults fresh input seen calm free long, signup) refl
