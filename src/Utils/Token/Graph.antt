-- ===== src/Utils/Token/Graph.antt =====
-- A token has only hexadecimal digits: none of its characters is white space.
use Prim.Native.Char.{code}
use text.Mathlib.TextLemmas.{cons-append, nil-append}
use hcl_assignment.Common.{
  ℕ, String, Bool, true, ◌&&◌, List, [], ◌∷◌, ◌⧺◌, ◌≡◌, refl, ltb, All, arith,
}
use hcl_assignment.Utils.Token.{hex_byte, generate_token}
use hcl_assignment.Utils.Token.Hex.{IsByte, all_below, all_below_sound}

-- Every character is one of ASCII, above the space.
abbrev pub is_graph : String → Bool
is_graph String.[] = true
is_graph (String.◌∷◌ c s) = ltb 32 (code c) && (ltb (code c) 128 && is_graph s)

is_graph-append : (s t : String) → is_graph s ≡ true → is_graph t ≡ true → is_graph (s ⧺ t) ≡ true
is_graph-append String.[] t h k = rw (nil-append t) k
is_graph-append (String.◌∷◌ c s) t h k =
    rw (cons-append c s t) (ground (arith, is_graph-append s t))

bytes_table : all_below 256 (λ b. is_graph (hex_byte b)) ≡ true
unfolding all_below hex_byte
bytes_table = refl

pub generate_token-graph :
    (bytes : List ℕ) → All IsByte bytes → is_graph (generate_token bytes) ≡ true
unfolding generate_token
generate_token-graph [] h = refl
generate_token-graph (b ∷ bytes) h =
    is_graph-append (hex_byte b) (generate_token bytes)
      (all_below_sound 256 (λ x. is_graph (hex_byte x)) b bytes_table h.0)
      (generate_token-graph bytes h.1)
