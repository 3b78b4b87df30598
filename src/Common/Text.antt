-- ===== src/Common/Text.antt =====
-- What the program uses of JavaScript strings: template concatenation, `length` in UTF-16 units,
-- `trim`, the text before the first space, and a number in decimal.
pub mod Trim
use Prim.Native.Nat.{ℕ, zero, suc, ◌+◌, ◌-◌, ◌/◌, ◌%◌}
use Prim.Native.Char.{Char, code}
use Prim.Native.String
use Prim.Native.String.{String}
use mathlib.Core.Path.{◌≡◌, refl}
use mathlib.Core.Bool.{Bool, true, false, ◌&&◌, ◌||◌}
use hcl_assignment.Common.Tests.{ltb, leb, eqb, if◌then◌else◌}

infixr 66 ◌⧺◌
abbrev pub ◌⧺◌ : String → String → String
s ⧺ t = String.◌++◌ s t

-- `!!s`
abbrev pub truthy : String → Bool
truthy String.[] = false
truthy (String.◌∷◌ c s) = true

-- `s || d`
abbrev pub or_text : String → String → String
or_text String.[] d = d
or_text (String.◌∷◌ c s) d = String.◌∷◌ c s

abbrev units : ℕ → ℕ
units n = if ltb n 0x10000 then 1 else 2

-- `s.length`
abbrev pub text_length : String → ℕ
text_length String.[] = 0
text_length (String.◌∷◌ c s) = units (code c) + text_length s

-- WhiteSpace and LineTerminator of ECMAScript
abbrev pub is_space : ℕ → Bool
is_space n =
    (leb 9 n && leb n 13)
    || (eqb n 32)
    || (eqb n 0xa0)
    || (eqb n 0x1680)
    || (leb 0x2000 n && leb n 0x200a)
    || (leb 0x2028 n && leb n 0x2029)
    || (eqb n 0x202f)
    || (eqb n 0x205f)
    || (eqb n 0x3000)
    || (eqb n 0xfeff)

pub trim_start : String → String
trim_start String.[] = String.[]
trim_start (String.◌∷◌ c s) = if is_space (code c) then trim_start s else String.◌∷◌ c s

drop_blank : Char → String → String
drop_blank c String.[] = if is_space (code c) then String.[] else String.◌∷◌ c String.[]
drop_blank c (String.◌∷◌ d s) = String.◌∷◌ c (String.◌∷◌ d s)

pub trim_end : String → String
unfolding drop_blank
trim_end String.[] = String.[]
trim_end (String.◌∷◌ c s) = drop_blank c (trim_end s)

-- `s.trim()`
unfoldable pub trim : String → String
unfolding trim_start trim_end
trim s = trim_start (trim_end s)

-- `s.split(" ")[0]`
unfoldable pub first_word : String → String
first_word String.[] = String.[]
first_word (String.◌∷◌ c s) =
    let rest = first_word s in if eqb (code c) 32 then String.[] else String.◌∷◌ c rest

-- The capitals A to Z in lower case. A text is compared with a word of lower-case letters by
-- strings.ToLower of Go and by a route's pattern of react-router, which ignores the case; no other
-- character of the text can become a letter of such a word (but for the letters k and i in Go, which
-- "bearer" has not).
unfoldable pub to_lower : String → String
to_lower String.[] = String.[]
to_lower (String.◌∷◌ c s) =
    let rest = to_lower s in
    if leb 65 (code c) && leb (code c) 90
    then String.◌∷◌ (String.char_at "abcdefghijklmnopqrstuvwxyz" (code c - 65)) rest
    else String.◌∷◌ c rest

abbrev digit : ℕ → String
digit n = String.◌∷◌ (String.char_at "0123456789" n) String.[]

decimal_of : ℕ → ℕ → String
decimal_of zero n = ""
decimal_of (suc fuel) n =
    let front = decimal_of fuel (n / 10) in if ltb n 10 then digit n else front ⧺ digit (n % 10)

-- `${n}`; a number has fewer digits than n + 1
unfoldable pub decimal : ℕ → String
unfolding decimal_of
decimal n = decimal_of (suc n) n

decimal_example : decimal 2074 ≡ "2074"
unfolding decimal
decimal_example = refl

trim_example : trim "  a b  " ≡ "a b"
unfolding trim
trim_example = refl

first_word_example : first_word "Ada Lovelace" ≡ "Ada"
unfolding first_word
first_word_example = refl
