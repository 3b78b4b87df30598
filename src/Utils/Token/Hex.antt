-- ===== src/Utils/Token/Hex.antt =====
-- Reading a token back: no two lists of random bytes give one token.
use Prim.Native.Char.{Char, code}
use text.Mathlib.TextLemmas.{cons-append, nil-append}
use hcl_assignment.Common.{
  ℕ, zero, suc, ◌+◌, ◌-◌, ◌*◌, ◌<◌, String, Bool, true, false, ◌&&◌, List, [], ◌∷◌, ◌⧺◌, ◌≡◌, refl,
  ap, ◌∙◌, ltb, eqb, eqb_iff, and_true, text_length, length, All, if◌then◌else◌, arith,
}
use hcl_assignment.Utils.Token.{hex_byte, generate_token}

digit_value : Char → ℕ
digit_value c = if ltb (code c) 58 then code c - 48 else code c - 87

-- The bytes that pairs of hexadecimal digits stand for.
pub parse_hex : String → List ℕ
unfolding digit_value
parse_hex String.[] = []
parse_hex (String.◌∷◌ c String.[]) = []
parse_hex (String.◌∷◌ c (String.◌∷◌ d s)) = (16 * digit_value c + digit_value d) ∷ parse_hex s

is_pair_of : ℕ → String → Bool
unfolding digit_value
is_pair_of b (String.◌∷◌ c (String.◌∷◌ d String.[])) =
    eqb (16 * digit_value c + digit_value d) b && (ltb (code c) 128 && ltb (code d) 128)
is_pair_of b s = false

unfoldable pub all_below : ℕ → (ℕ → Bool) → Bool
all_below zero p = true
all_below (suc n) p = p n && all_below n p

pub all_below_sound : (n : ℕ) (p : ℕ → Bool) (b : ℕ) → all_below n p ≡ true → b < n → p b ≡ true
unfolding all_below
all_below_sound zero p b h lt = absurd (omega arith)
all_below_sound (suc n) p b h lt = ground (arith, all_below_sound n p b)

pairs_table : all_below 256 (λ b. is_pair_of b (hex_byte b)) ≡ true
unfolding all_below is_pair_of hex_byte
pairs_table = refl

is_pair-hex_byte : (b : ℕ) → b < 256 → is_pair_of b (hex_byte b) ≡ true
is_pair-hex_byte b h = all_below_sound 256 (λ x. is_pair_of x (hex_byte x)) b pairs_table h

pair-append :
    (c d : Char) (rest : String)
    → String.◌∷◌ c (String.◌∷◌ d String.[]) ⧺ rest ≡ String.◌∷◌ c (String.◌∷◌ d rest)
pair-append c d rest =
    cons-append c (String.◌∷◌ d String.[]) rest
    ∙ ap (String.◌∷◌ c) (cons-append d String.[] rest ∙ ap (String.◌∷◌ d) (nil-append rest))

parse_pair :
    (b : ℕ) (s rest : String) → is_pair_of b s ≡ true → parse_hex (s ⧺ rest) ≡ b ∷ parse_hex rest
unfolding is_pair_of parse_hex
parse_pair b String.[] rest h = cc
parse_pair b (String.◌∷◌ c String.[]) rest h = cc
parse_pair b (String.◌∷◌ c (String.◌∷◌ d String.[])) rest h =
    rw (pair-append c d rest) (ap (λ n. n ∷ parse_hex rest) ((eqb_iff _ b).0 (and_true _ _ h).0))
parse_pair b (String.◌∷◌ c (String.◌∷◌ d (String.◌∷◌ e s))) rest h = cc

length_pair :
    (b : ℕ) (s rest : String)
    → is_pair_of b s ≡ true
    → text_length (s ⧺ rest) ≡ 2 + text_length rest
unfolding is_pair_of
length_pair b String.[] rest h = cc
length_pair b (String.◌∷◌ c String.[]) rest h = cc
length_pair b (String.◌∷◌ c (String.◌∷◌ d String.[])) rest h =
    rw (pair-append c d rest) (ground arith)
length_pair b (String.◌∷◌ c (String.◌∷◌ d (String.◌∷◌ e s))) rest h = cc

abbrev pub IsByte : ℕ → Type 0
IsByte b = b < 256

-- The token of a list of bytes gives back the bytes, so that different random bytes give different
-- tokens.
pub parse_hex-generate_token :
    (bytes : List ℕ) → All IsByte bytes → parse_hex (generate_token bytes) ≡ bytes
unfolding generate_token
parse_hex-generate_token [] h = unfold parse_hex in refl
parse_hex-generate_token (b ∷ bytes) h =
    parse_pair b (hex_byte b) (generate_token bytes) (is_pair-hex_byte b h.0)
    ∙ ap (λ xs. b ∷ xs) (parse_hex-generate_token bytes h.1)

-- The token has two characters for each byte.
pub length-generate_token :
    (bytes : List ℕ) → All IsByte bytes → text_length (generate_token bytes) ≡ 2 * length bytes
unfolding generate_token
length-generate_token [] h = refl
length-generate_token (b ∷ bytes) h = omega (
  arith,
  length_pair b (hex_byte b) (generate_token bytes) (is_pair-hex_byte b h.0),
  length-generate_token bytes h.1,
)
