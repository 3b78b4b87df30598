-- ===== src/Services/Model.antt =====
-- The types of services/auth.ts and services/poll.ts.
use hcl_assignment.Common.{ℕ, String, Bool, true, false, List, Option}

pub record User : Type 0 where
  pub id : String
  pub name : String
  pub email : String
  pub created_at : String

pub record AuthResponse : Type 0 where
  pub token : String
  pub user : User

pub record PollOption : Type 0 where
  pub id : String
  pub text : String

pub data Status : Type 0 where
  active closed : Status

pub record Poll : Type 0 where
  pub id : String
  pub creator_id : String
  pub title : String
  pub description : String
  pub options : List PollOption
  pub share_code : String
  pub status : Status
  pub created_at : String
  pub updated_at : String
  pub expires_at : Option String

-- `counts` and `totalVotes` come from the network, and their readers allow for their absence.
pub record PollResults : Type 0 where
  pub type : String
  pub poll_id : String
  pub counts : Option (List (String × ℕ))
  pub total_votes : Option ℕ
  pub timestamp : String

pub record CreatePollData : Type 0 where
  pub title : String
  pub description : String
  pub options : List String

abbrev pub is_active : Status → Bool
is_active active = true
is_active closed = false

abbrev pub is_closed : Status → Bool
is_closed active = false
is_closed closed = true
