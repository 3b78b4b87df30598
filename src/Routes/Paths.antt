-- ===== src/Routes/Paths.antt =====
-- How react-router reads a path: what the program relies on.
use Prim.Native.Char.{code}
use hcl_assignment.Common.{
  ℕ, String, Bool, true, not, ◌&&◌, List, [], ◌∷◌, ◌⧺◌, ◌≡◌, eqb, truthy, All,
}

-- A character that means nothing in a path: not `/`, `?`, `#` or `%`.
abbrev pub is_plain : ℕ → Bool
is_plain n = not (eqb n 47) && (not (eqb n 63) && (not (eqb n 35) && not (eqb n 37)))

abbrev pub IsPlain : String → Type 0
IsPlain String.[] = Unit
IsPlain (String.◌∷◌ c s) = (is_plain (code c) ≡ true) × IsPlain s

-- A segment, as the program's words, identities and share codes are.
abbrev pub IsSegment : String → Type 0
IsSegment s = IsPlain s × (truthy s ≡ true)

abbrev pub join : List String → String
join [] = ""
join (s ∷ segments) = "/" ⧺ s ⧺ join segments

-- The router's reading of a path as its segments: `/` has none, and segments that are joined by `/` are
-- read back.
pub record Router : Type 0 where
  pub segments : String → List String
  pub root : segments "/" ≡ []
  pub joined :
      (s : String) (rest : List String)
      → All IsSegment (s ∷ rest)
      → segments (join (s ∷ rest)) ≡ s ∷ rest
