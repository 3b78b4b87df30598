-- ===== src/Effects.antt =====
-- What the handlers of pages and components do besides setting state: calls of the services, toasts,
-- navigation and the browser.
use hcl_assignment.Common.{String}
use hcl_assignment.Services.Model.{CreatePollData}

-- A call of services/poll.ts or of the auth context. `load` stands for the two calls that a page joins
-- by `Promise.all`.
pub data Call : Type 0 where
  create_poll : CreatePollData → Call
  list_polls : Call
  load_poll : String → Call
  load_public : String → Call
  delete_poll : String → Call
  close_poll : String → Call
  cast_vote : String → String → Call
  log_in : String → String → Call
  sign_up : String → String → String → Call
  log_out : Call

pub data Effect : Type 0 where
  call : Call → Effect
  toast_success : String → Effect
  toast_error : String → Effect
  toast_info : String → Effect
  navigate : String → Effect
  open_window : String → Effect
  write_clipboard : String → Effect
  start_timeout : Effect
