-- ===== src/Server/Text/Graph.antt =====
-- Texts without white space are trimmed to themselves, and have a byte for each character.
use Prim.Native.Char.{Char, code}
use hcl_assignment.Common.{ℕ, String, true, false, ◌≡◌, refl, ltb, text_length, arith}
use hcl_assignment.Utils.Token.Graph.{is_graph}
use hcl_assignment.Server.Text.{len, is_space, trim_left, trim_right, drop_blank, trim_space}

trim_left-graph : (s : String) → is_graph s ≡ true → trim_left s ≡ s
unfolding trim_left
trim_left-graph String.[] h = refl
trim_left-graph (String.◌∷◌ c s) h = ground arith

drop_blank-graph :
    (c : Char) (s : String) → is_space (code c) ≡ false → drop_blank c s ≡ String.◌∷◌ c s
unfolding drop_blank
drop_blank-graph c String.[] h = ground arith
drop_blank-graph c (String.◌∷◌ d s) h = refl

is_space-graph : (n : ℕ) → ltb 32 n ≡ true → ltb n 128 ≡ true → is_space n ≡ false
is_space-graph n h k = ground arith

trim_right-graph : (s : String) → is_graph s ≡ true → trim_right s ≡ s
unfolding trim_right
trim_right-graph String.[] h = refl
trim_right-graph (String.◌∷◌ c s) h =
    ground (arith, trim_right-graph s, drop_blank-graph c s, is_space-graph (code c))

pub trim_space-graph : (s : String) → is_graph s ≡ true → trim_space s ≡ s
unfolding trim_space
trim_space-graph s h = rw (trim_right-graph s h) (trim_left-graph s h)

pub len-graph : (s : String) → is_graph s ≡ true → len s ≡ text_length s
len-graph String.[] h = refl
len-graph (String.◌∷◌ c s) h = ground (arith, len-graph s)
