-- ===== src/Examples/Databases.antt =====
-- Databases in memory, and a wire that keeps events: instances of what the server assumes.
use hcl_assignment.Common.{
  ℕ, ◌+◌, ◌<◌, String, Bool, true, false, ◌&&◌, Option, none, some, List, [], ◌∷◌, ◌++◌, ◌≡◌, refl,
  ltb, eqb, filter, not, ◌==◌, if◌then◌else◌, arith,
}
use hcl_assignment.Services.Model.{PollResults}
use hcl_assignment.Server.Model.{Vote, Ids}
use hcl_assignment.Server.Votes.{Collection, Hashes, has}
use hcl_assignment.Server.Feed.{Wire}

abbrev pub count_votes : ℕ → String → List Vote → ℕ
count_votes poll token [] = 0
count_votes poll token (v ∷ rest) =
    (if eqb v.poll_id poll && v.voter_token == token then 1 else 0) + count_votes poll token rest

abbrev pub tally_votes : ℕ → String → List Vote → ℕ
tally_votes poll option [] = 0
tally_votes poll option (v ∷ rest) =
    (if eqb v.poll_id poll && v.option_id == option then 1 else 0) + tally_votes poll option rest

abbrev pub insert_vote : Vote → List Vote → Option (List Vote)
insert_vote v s = if ltb 0 (count_votes v.poll_id v.voter_token s) then none else some (v ∷ s)

pub insert_refused :
    (v : Vote) (s : List Vote) → 0 < count_votes v.poll_id v.voter_token s → insert_vote v s ≡ none
insert_refused v s h = ground arith

pub insert_accepted :
    (v : Vote) (s : List Vote)
    → count_votes v.poll_id v.voter_token s ≡ 0
    → (t : List Vote) × (insert_vote v s ≡ some t)
insert_accepted v s h = (v ∷ s, ground arith)

pub insert_counted :
    (v : Vote) (s t : List Vote) (poll : ℕ) (token : String)
    → insert_vote v s ≡ some t
    → count_votes poll token t
      ≡ count_votes poll token s + (if eqb v.poll_id poll && v.voter_token == token then 1 else 0)
insert_counted v s t poll token h = ground arith

pub insert_tallied :
    (v : Vote) (s t : List Vote) (poll : ℕ) (option : String)
    → insert_vote v s ≡ some t
    → tally_votes poll option t
      ≡ tally_votes poll option s + (if eqb v.poll_id poll && v.option_id == option then 1 else 0)
insert_tallied v s t poll option h = ground arith

abbrev pub votes_in_memory : Collection
votes_in_memory = record {
  State = List Vote;
  count = count_votes;
  tally = tally_votes;
  insert = insert_vote;
  delete_poll = λ poll s. filter (λ v. not (eqb v.poll_id poll)) s;
  insert_refused = insert_refused;
  insert_accepted = insert_accepted;
  insert_counted = insert_counted;
  insert_tallied = insert_tallied;
}

-- The increments, each a key and a field.
abbrev pub get_number : String → String → List (String × String) → ℕ
get_number key field [] = 0
get_number key field ((k, f) ∷ rest) =
    get_number key field rest + (if k == key && f == field then 1 else 0)

abbrev pub fields_of : String → List (String × String) → List String
fields_of key [] = []
fields_of key ((k, f) ∷ rest) = if k == key then f ∷ fields_of key rest else fields_of key rest

pub get_absent :
    (key field : String) (s : List (String × String))
    → has field (fields_of key s) ≡ false
    → get_number key field s ≡ 0
get_absent key field [] h = refl
get_absent key field ((k, f) ∷ rest) h = ground (arith, get_absent key field rest)

pub get-incr :
    (key field k f : String) (s : List (String × String))
    → get_number k f ((key, field) ∷ s)
      ≡ get_number k f s + (if key == k && field == f then 1 else 0)
get-incr key field k f s = refl

abbrev pub hashes_in_memory : Hashes
hashes_in_memory = record {
  State = List (String × String);
  get = get_number;
  fields = fields_of;
  incr = λ key field s. (key, field) ∷ s;
  get_absent = get_absent;
  get-incr = get-incr;
}

-- Two polls.
abbrev pub two_ids : Ids
two_ids = record {
  from_hex = λ s. if s == "p1" then some 1 else if s == "p2" then some 2 else none;
  hex = λ n. if eqb n 1 then "p1" else "p2";
  bson_time = λ time. time;
}

-- A text is the list of the events in it.
abbrev pub read_one : List PollResults → Option PollResults
read_one (event ∷ []) = some event
read_one texts = none

abbrev pub is_empty : List PollResults → Bool
is_empty [] = true
is_empty (event ∷ rest) = false

pub line_written : (s t : List PollResults) → is_empty t ≡ false → is_empty (s ++ t) ≡ false
line_written [] t h = h
line_written (event ∷ s) t h = refl

pub parse-line :
    (event : PollResults) (t : List PollResults) → is_empty t ≡ false → read_one (event ∷ t) ≡ none
parse-line event [] h = cc
parse-line event (later ∷ rest) h = refl

abbrev pub events_wire : Wire
events_wire = record {
  Text = List PollResults;
  marshal = λ event. event ∷ [];
  parse = read_one;
  line = λ s t. s ++ t;
  is_blank = is_empty;
  parse-marshal = λ event. refl;
  marshal_written = λ event. refl;
  line_written = line_written;
  parse-line = parse-line;
}
