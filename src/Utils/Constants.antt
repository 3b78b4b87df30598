-- ===== src/Utils/Constants.antt =====
-- utils/constants.ts, and the addresses that utils/helpers.ts builds. The build's environment
-- variables and the page's origin are arguments.
use hcl_assignment.Common.{ℕ, String, Option, get_or, or_text, ◌⧺◌}

unfoldable pub api_url : Option String → String
api_url vite_api_url = or_text (get_or vite_api_url "") "http://localhost:8080/api/v1"

unfoldable pub ws_url : Option String → String
ws_url vite_ws_url = or_text (get_or vite_ws_url "") "ws://localhost:8080"

abbrev pub ws_reconnect_delay_ms : ℕ
ws_reconnect_delay_ms = 2000

abbrev pub ws_max_reconnect_attempts : ℕ
ws_max_reconnect_attempts = 10

abbrev pub voter_token_key : String
voter_token_key = "pulsepoll_voter_token"

abbrev pub auth_token_key : String
auth_token_key = "pulsepoll_auth_token"

-- getShareURL
unfoldable pub share_url : String → String → String
share_url origin share_code = origin ⧺ "/p/" ⧺ share_code
