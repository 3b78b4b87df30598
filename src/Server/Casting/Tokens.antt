-- ===== src/Server/Casting/Tokens.antt =====
-- The browser's voter tokens are valid.
use hcl_assignment.Common.{
  ℕ, ◌<◌, String, true, none, List, length, ◌≡◌, refl, All, truthy, text_length, arith,
}
use hcl_assignment.Utils.Token.{generate_token}
use hcl_assignment.Utils.Token.Hex.{IsByte, length-generate_token}
use hcl_assignment.Utils.Token.Graph.{generate_token-graph}
use hcl_assignment.Server.Text.{trim_space}
use hcl_assignment.Server.Text.Graph.{trim_space-graph, len-graph}
use hcl_assignment.Server.Casting.{trimmed, invalid}

truthy-long : (s : String) → 0 < text_length s → truthy s ≡ true
truthy-long String.[] h = absurd (omega (arith, h))
truthy-long (String.◌∷◌ c s) h = refl

-- Every token that the browser makes of sixteen random bytes passes the server's validation unchanged,
-- with any option that is not blank.
pub invalid-generate_token :
    (option : String) (bytes : List ℕ)
    → All IsByte bytes
    → length bytes ≡ 16
    → truthy (trim_space option) ≡ true
    → let r = trimmed (record { option_id = option; voter_token = generate_token bytes }) in
      (invalid r ≡ none) × (r.voter_token ≡ generate_token bytes)
unfolding invalid
invalid-generate_token option bytes all sixteen given =
    let graph = generate_token-graph bytes all in
    let same = trim_space-graph (generate_token bytes) graph in
    let long = len-graph (generate_token bytes) graph in
    let digits = length-generate_token bytes all in
    (ground (arith, same, given, long, digits, truthy-long (generate_token bytes)), same)
