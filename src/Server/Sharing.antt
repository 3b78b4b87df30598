-- ===== src/Server/Sharing.antt =====
-- A poll by its share code: FindByShareCode of the poll repository, GetByShareCode of
-- services/poll_service.go and GetPublic of controllers/poll_controller.go.
pub mod Lasts
use hcl_assignment.Common.{String, Bool, Option, none, some}
use hcl_assignment.Services.Model
use hcl_assignment.Services.Api.{Outcome}
use hcl_assignment.Server.Model.{
  Poll, Ids, Result, ok, err, ◌>>=◌, unless, poll_not_found, find_shared, or_not_found,
  respond_success, respond_not_found, respond_internal_error,
}
use hcl_assignment.Server.Votes.{Collection, Hashes, Db}

-- The public data of a poll, as the browser reads it: a field that is not sent is empty.
abbrev pub public_data : Ids → Poll → Model.Poll
public_data ids p = record {
  id = ids.hex p.id;
  creator_id = "";
  title = p.title;
  description = p.description;
  options = p.options;
  share_code = p.share_code;
  status = p.status;
  created_at = p.created_at;
  updated_at = "";
  expires_at = none;
}

unfoldable pub answer_public : Ids → Result Poll → Outcome Model.Poll
answer_public ids (ok p) = respond_success 200 (public_data ids p)
answer_public ids (err poll_not_found) = respond_not_found "Poll not found"
answer_public ids (err _) = respond_internal_error "Failed to load poll"

module _ (ids : Ids) (mongo : Collection) (redis : Hashes) where
  unfoldable pub get_by_share_code : Bool → String → Db ids mongo redis → Result Poll
  get_by_share_code fails share_code db = do
    found ← unless fails (find_shared share_code db.polls)
    or_not_found found

  unfoldable pub get_public : Bool → String → Db ids mongo redis → Outcome Model.Poll
  unfolding answer_public
  get_public fails share_code db = answer_public ids (get_by_share_code fails share_code db)
