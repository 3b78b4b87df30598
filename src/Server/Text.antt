-- ===== src/Server/Text.antt =====
-- What the server uses of Go's strings: `len`, in bytes of UTF-8, and strings.TrimSpace.
pub mod Graph
use Prim.Native.Char.{Char, code}
use Prim.Native.String
use hcl_assignment.Common.{
  ℕ, ◌+◌, ◌≡◌, refl, String, Bool, ◌||◌, ◌&&◌, ltb, leb, eqb, if◌then◌else◌,
}

abbrev bytes : ℕ → ℕ
bytes n = if ltb n 0x80 then 1 else if ltb n 0x800 then 2 else if ltb n 0x10000 then 3 else 4

-- `len(s)`
abbrev pub len : String → ℕ
len String.[] = 0
len (String.◌∷◌ c s) = bytes (code c) + len s

-- unicode.IsSpace
abbrev pub is_space : ℕ → Bool
is_space n =
    (leb 9 n && leb n 13)
    || eqb n 32
    || eqb n 0x85
    || eqb n 0xa0
    || eqb n 0x1680
    || (leb 0x2000 n && leb n 0x200a)
    || eqb n 0x2028
    || eqb n 0x2029
    || eqb n 0x202f
    || eqb n 0x205f
    || eqb n 0x3000

pub trim_left : String → String
trim_left String.[] = String.[]
trim_left (String.◌∷◌ c s) = if is_space (code c) then trim_left s else String.◌∷◌ c s

pub drop_blank : Char → String → String
drop_blank c String.[] = if is_space (code c) then String.[] else String.◌∷◌ c String.[]
drop_blank c (String.◌∷◌ d s) = String.◌∷◌ c (String.◌∷◌ d s)

pub trim_right : String → String
unfolding drop_blank
trim_right String.[] = String.[]
trim_right (String.◌∷◌ c s) = drop_blank c (trim_right s)

-- strings.TrimSpace
unfoldable pub trim_space : String → String
unfolding trim_left trim_right
trim_space s = trim_left (trim_right s)

trim_space_example : trim_space " a b " ≡ "a b"
unfolding trim_space
trim_space_example = refl
