-- ===== src/Server/Accounts/Restored.antt =====
-- The session of an account: the browser keeps the token of a sign-up, and AuthContext restores the user
-- by it from the server.
use text.Mathlib.TextLemmas.{nil-append, cons-append}
use hcl_assignment.Common.{to_lower}
use hcl_assignment.Common.{
  ℕ, ◌+◌, ◌*◌, String, Bool, true, false, none, some, ◌≡◌, refl, inl, inr, Bool-cases, truthy, ltb,
  ◌⧺◌, arith, if◌then◌else◌, List,
}
use hcl_assignment.Services.Model.{User, AuthResponse}
use hcl_assignment.Services.Storage.{Storage}
use hcl_assignment.Services.Api.{Outcome, Request, get_header, receive, build}
use hcl_assignment.Services.Api
use hcl_assignment.Services.Auth.{me_request, store_token, is_logged_in}
use hcl_assignment.Services.Auth.Session.{store_token-me_request, logout-me_request}
use hcl_assignment.AuthContext.{AuthState, start, me_settled, sign_in_settled}
use hcl_assignment.Server.Model.{Ids, ok, respond_unauthorized, respond_success}
use hcl_assignment.Server.Accounts.{
  Account, Users, Passwords, Tokens, Claims, UserFaults, SignupInput, AuthResult, Fresh, claims_of,
  auth_required, authorize, pass_claims, pass_parts, split_first, to_response, signup,
  answer_signup, me, answer_me, get_user_by_id, or_unknown, auth_response,
}
use hcl_assignment.Server.Accounts.Lasting.{
  Call, kept_account, run_signups, run_signups-IsFound, signup-Opened,
}

split-bearer : (token : String) → split_first ("Bearer " ⧺ token) ≡ some ("Bearer", token)
unfolding split_first
split-bearer token =
    rw
      (
        cons-append, cons-append, cons-append, cons-append, cons-append, cons-append, cons-append,
        nil-append,
      )
      refl

truthy-bearer : (token : String) → truthy ("Bearer " ⧺ token) ≡ true
truthy-bearer token = rw cons-append refl

auth_required-bearer :
    {T : Type 0} (tokens : Tokens) (now : ℕ) (token : String) (handler : String → Outcome T)
    → auth_required tokens now (some ("Bearer " ⧺ token)) handler
      ≡ pass_claims tokens (tokens.parse_with_claims now token) respond_unauthorized handler
unfolding auth_required authorize pass_parts to_lower
auth_required-bearer tokens now token handler = rw (split-bearer token, truthy-bearer token) refl

module _ (ids : Ids) (users : Users) (passwords : Passwords) (tokens : Tokens) where
  get_user_by_id-found :
      (faults : UserFaults) (a : Account) (s : users.State)
      → faults.find ≡ false
      → ids.from_hex (ids.hex a.id) ≡ some a.id
      → users.by_id a.id s ≡ some a
      → get_user_by_id ids users passwords tokens faults (ids.hex a.id) s ≡ ok a
  unfolding get_user_by_id or_unknown
  get_user_by_id-found faults a s calm readable found = rw (readable, calm, found) refl

  -- The answer of `Me`: the user while the token is good, and a refusal after that.
  abbrev me_answer : Bool → Account → Outcome User
  me_answer is_good a =
      if is_good
      then respond_success 200 (to_response ids users passwords tokens a)
      else respond_unauthorized "Invalid or expired token"

  me-signed :
      (faults : UserFaults) (now : ℕ) (claims : Claims) (token : String) (a : Account)
      (s : users.State)
      → faults.find ≡ false
      → ids.from_hex (ids.hex a.id) ≡ some a.id
      → users.by_id a.id s ≡ some a
      → claims.user_id ≡ ids.hex a.id
      → tokens.signed_string claims ≡ some token
      → me ids users passwords tokens faults now (some ("Bearer " ⧺ token)) s
        ≡ me_answer (ltb now claims.expires_at) a
  unfolding me answer_me pass_claims
  me-signed faults now claims token a s calm readable found own signed =
      elim (Bool-cases (ltb now claims.expires_at)) [
        | inl good ↦
            let read = tokens.parse-signed now claims token signed (ground arith) in
            rw
              (
                auth_required-bearer tokens now token,
                read,
                good,
                own,
                get_user_by_id-found faults a s calm readable found,
              )
              refl
        | inr late ↦
            let refused = tokens.parse_expired now claims token signed (ground arith) in
            rw (auth_required-bearer tokens now token, refused, late) refl
      ]

  -- After the answer to a sign-up, the browser has a session: the user and the token.
  answered-session :
      (result : AuthResult) (s : AuthState)
      → let session =
          (sign_in_settled (receive (answer_signup ids users passwords tokens (ok result))) s).0 in
        (session.user ≡ some (to_response ids users passwords tokens result.user))
        × (session.storage
            ≡ (store_token
                (Api.ok (some (auth_response ids users passwords tokens result)))
                s.storage).1)
  unfolding sign_in_settled receive answer_signup store_token
  answered-session result s = (refl, refl)

  -- The user and the storage of a session that is restored.
  abbrev pub reload : String → UserFaults → ℕ → users.State → AuthState → AuthState
  reload api_url faults now accounts session =
      let (fresh, asks) = start session.storage in
      if asks
      then me_settled
          (receive (
            me ids users passwords tokens faults now
              (get_header "Authorization" (me_request api_url session.storage).headers) accounts))
          fresh
      else fresh

  reload-signed :
      (api_url : String) (faults : UserFaults) (now : ℕ) (claims : Claims) (answer : AuthResponse)
      (a : Account) (accounts : users.State) (items : Storage) (session : AuthState)
      → session.storage ≡ (store_token (Api.ok (some answer)) items).1
      → faults.find ≡ false
      → ids.from_hex (ids.hex a.id) ≡ some a.id
      → users.by_id a.id accounts ≡ some a
      → claims.user_id ≡ ids.hex a.id
      → tokens.signed_string claims ≡ some answer.token
      → let restored = reload api_url faults now accounts session in
        (restored.is_loading ≡ false)
        × (restored.user ≡ (
            if ltb now claims.expires_at
            then some (to_response ids users passwords tokens a)
            else none))
        × (is_logged_in restored.storage ≡ ltb now claims.expires_at)
  unfolding start me_settled receive
  reload-signed api_url faults now claims answer a accounts items session e calm readable found own
        signed =
      let (logged, header) =
        store_token-me_request api_url answer items
          (tokens.signed_written claims answer.token signed) in
      let answered =
        me-signed faults now claims answer.token a accounts calm readable found own signed in
      elim (Bool-cases (ltb now claims.expires_at)) [
        | inl good ↦ rw (e, logged, header, answered, good) (refl, refl, logged)
        | inr late ↦
            rw (e, logged, header, answered, late)
              (
                refl,
                refl,
                (logout-me_request api_url (store_token (Api.ok (some answer)) items).1).0,
              )
      ]

  -- From a sign-up to a reload: after a sign-up that succeeds, the browser shows its user. When the page
  -- is loaded again, whoever has signed up in between, the token that the browser kept goes to the
  -- server, which answers with that user for seven days and refuses it after that. So the user, the
  -- time of creation as the database keeps it, is restored within the seven days; later there is no user, and no token is kept. The loading ends.
  -- The database is up at the reload, and the text of the account's id is read back.
  pub signup-restored :
      (faults later : UserFaults) (fresh : Fresh) (input : SignupInput) (seen s : users.State)
      (result : AuthResult) (calls : List (Call ids users passwords tokens)) (now : ℕ)
      (api_url : String) (before : AuthState)
      → (signup ids users passwords tokens faults fresh input seen s).0 ≡ ok result
      → ids.from_hex (ids.hex fresh.id) ≡ some fresh.id
      → later.find ≡ false
      → let (answer, accounts) = signup ids users passwords tokens faults fresh input seen s in
        let session =
          (sign_in_settled (receive (answer_signup ids users passwords tokens answer)) before).0 in
        let restored =
          reload api_url later now
            (run_signups ids users passwords tokens calls accounts)
            session in
        let is_good = ltb now (fresh.now + 24 * 3600 * 7) in
        (session.user ≡ some (to_response ids users passwords tokens result.user))
        × (restored.is_loading ≡ false)
        × (restored.user ≡ (
            if is_good
            then some (
                to_response ids users passwords tokens
                  (kept_account ids users passwords tokens result.user))
            else none))
        × (is_logged_in restored.storage ≡ is_good)
  signup-restored faults later fresh input seen s result calls now api_url before h readable calm =
      let left = signup-Opened ids users passwords tokens faults fresh input seen s result h in
      let accounts = (signup ids users passwords tokens faults fresh input seen s).1 in
      let (found, by_id) =
        run_signups-IsFound ids users passwords tokens calls result.user accounts left.found in
      let (user, storage) = answered-session result before in
      let session =
        (sign_in_settled (receive (answer_signup ids users passwords tokens (ok result)))
          before).0 in
      let restored =
        reload-signed api_url later now (claims_of tokens fresh.now (ids.hex fresh.id) input.email)
          (auth_response ids users passwords tokens result)
          (kept_account ids users passwords tokens result.user)
          (run_signups ids users passwords tokens calls accounts) before.storage session storage
          calm (rw left.id readable) by_id (rw left.id refl) left.signed in
      rw (h, user) (refl, restored.0, restored.1, restored.2)
