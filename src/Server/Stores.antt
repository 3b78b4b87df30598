-- ===== src/Server/Stores.antt =====
-- What the server assumes of its databases: the votes in MongoDB and the counters in Redis.
use hcl_assignment.Common.{
  ℕ, ◌+◌, ◌<◌, String, Bool, false, ◌&&◌, ◌||◌, Option, none, some, List, [], ◌∷◌, ◌≡◌, eqb, ◌==◌,
  if◌then◌else◌,
}
use hcl_assignment.Server.Model.{Vote}

-- The collection of votes in MongoDB: how many votes of a poll have a token, how many are for an
-- option, and an insertion, which the unique index on the poll and the token refuses.
pub record Collection : Type 1 where
  pub State : Type 0
  pub count : ℕ → String → State → ℕ
  pub tally : ℕ → String → State → ℕ
  pub insert : Vote → State → Option State
  pub delete_poll : ℕ → State → State
  pub insert_refused :
      (v : Vote) (s : State) → 0 < count v.poll_id v.voter_token s → insert v s ≡ none
  pub insert_accepted :
      (v : Vote) (s : State)
      → count v.poll_id v.voter_token s ≡ 0
      → (t : State) × (insert v s ≡ some t)
  pub insert_counted :
      (v : Vote) (s t : State) (poll : ℕ) (token : String)
      → insert v s ≡ some t
      → count poll token t
        ≡ count poll token s + (if eqb v.poll_id poll && v.voter_token == token then 1 else 0)
  pub insert_tallied :
      (v : Vote) (s t : State) (poll : ℕ) (option : String)
      → insert v s ≡ some t
      → tally poll option t
        ≡ tally poll option s + (if eqb v.poll_id poll && v.option_id == option then 1 else 0)

abbrev pub has : String → List String → Bool
has x [] = false
has x (y ∷ rest) = y == x || has x rest

-- The hashes in Redis: the number in a field of a key, the fields of a key, and HINCRBY by 1.
pub record Hashes : Type 1 where
  pub State : Type 0
  pub get : String → String → State → ℕ
  pub fields : String → State → List String
  pub incr : String → String → State → State
  pub get_absent :
      (key field : String) (s : State) → has field (fields key s) ≡ false → get key field s ≡ 0
  pub get-incr :
      (key field k f : String) (s : State)
      → get k f (incr key field s) ≡ get k f s + (if key == k && field == f then 1 else 0)

-- Which calls of the databases fail.
pub record Faults : Type 0 where
  pub find : Bool
  pub check : Bool
  pub create : Bool
  pub incr : Bool
  pub read : Bool
  pub count : Bool
