-- ===== src/Utils/Token/Keep.antt =====
-- The token of a browser is made once and then kept.
use hcl_assignment.Common.{
  ℕ, String, true, Option, none, some, List, ◌≡◌, refl, truthy, inl, inr, Bool-cases,
}
use hcl_assignment.Services.Storage.{Storage, get_item, get_item-set_item}
use hcl_assignment.Utils.Constants.{voter_token_key}
use hcl_assignment.Utils.Token.{keep_or_make, get_voter_token}

keep_stored :
    (token : String) (later : List ℕ) (items : Storage)
    → truthy token ≡ true
    → get_item voter_token_key items ≡ some token
    → get_voter_token later items ≡ (token, items)
unfolding get_voter_token
keep_stored token later items h stored = rw stored (rw h)

keep_after :
    (stored : Option String) (bytes : List ℕ) (items : Storage)
    → get_item voter_token_key items ≡ stored
    → truthy (keep_or_make stored bytes items).0 ≡ true
    → get_item voter_token_key (keep_or_make stored bytes items).1
      ≡ some (keep_or_make stored bytes items).0
unfolding keep_or_make
keep_after none bytes items stored h = rw (get_item-set_item voter_token_key)
keep_after (some token) bytes items stored h = elim (Bool-cases (truthy token)) [
  | inl t ↦ rw t stored
  | inr f ↦ rw f (rw (get_item-set_item voter_token_key))
]

-- A call that returned a token that is not empty left the storage so that every later call, whatever
-- random bytes it draws, returns this token and writes nothing.
pub get_voter_token-keeps :
    (bytes later : List ℕ) (items : Storage)
    → truthy (get_voter_token bytes items).0 ≡ true
    → get_voter_token later (get_voter_token bytes items).1 ≡ get_voter_token bytes items
get_voter_token-keeps bytes later items h =
    let (token, kept) = get_voter_token bytes items in
    keep_stored token later kept h
      (unfold get_voter_token in keep_after (get_item voter_token_key items) bytes items refl h)
