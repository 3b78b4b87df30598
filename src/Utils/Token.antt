-- ===== src/Utils/Token.antt =====
-- getVoterToken and generateToken of utils/helpers.ts. The sixteen random bytes are an argument.
pub mod Hex
pub mod Keep
pub mod Graph
use Prim.Native.String
use hcl_assignment.Common.{
  ℕ, zero, suc, ◌+◌, ◌/◌, ◌%◌, String, Bool, Option, none, some, List, [], ◌∷◌, ◌⧺◌, ltb, truthy,
  ◌≡◌, refl, if◌then◌else◌,
}
use hcl_assignment.Services.Storage.{Storage, get_item, set_item}
use hcl_assignment.Utils.Constants.{voter_token_key}

abbrev hex_digits : List String
hex_digits =
    "0" ∷ "1" ∷ "2" ∷ "3" ∷ "4" ∷ "5" ∷ "6" ∷ "7" ∷ "8" ∷ "9" ∷ "a" ∷ "b" ∷ "c" ∷ "d" ∷ "e" ∷ "f"
    ∷ []

abbrev nth : List String → ℕ → String
nth [] i = ""
nth (x ∷ xs) zero = x
nth (x ∷ xs) (suc i) = nth xs i

-- `b.toString(16)` of a byte
to_string_16 : ℕ → String
to_string_16 b =
    if ltb b 16 then nth hex_digits b else nth hex_digits (b / 16) ⧺ nth hex_digits (b % 16)

-- `s.padStart(2, "0")`
pad_start : String → String
pad_start String.[] = "00"
pad_start (String.◌∷◌ c String.[]) = "0" ⧺ String.◌∷◌ c ""
pad_start s = s

hex_byte : ℕ → String
unfolding to_string_16 pad_start
hex_byte b = pad_start (to_string_16 b)

-- `Array.from(array, …).join("")`
unfoldable pub generate_token : List ℕ → String
unfolding hex_byte
generate_token [] = ""
generate_token (b ∷ bytes) = hex_byte b ⧺ generate_token bytes

keep_or_make : Option String → List ℕ → Storage → String × Storage
unfolding generate_token set_item
keep_or_make none bytes items =
    let token = generate_token bytes in (token, set_item voter_token_key token items)
keep_or_make (some token) bytes items =
    if truthy token
    then (token, items)
    else let made = generate_token bytes in (made, set_item voter_token_key made items)

-- The token, and the storage with it.
unfoldable pub get_voter_token : List ℕ → Storage → String × Storage
unfolding keep_or_make get_item
get_voter_token bytes items = keep_or_make (get_item voter_token_key items) bytes items

generate_token_example : generate_token (0 ∷ 10 ∷ 255 ∷ []) ≡ "000aff"
unfolding generate_token
generate_token_example = refl
