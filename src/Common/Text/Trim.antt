-- ===== src/Common/Text/Trim.antt =====
-- What is left by `trim` has no space at either end.
use Prim.Native.Char.{Char, code}
use Prim.Native.String.{String}
use mathlib.Core.Path.{◌≡◌, refl, ap, ◌∙◌}
use mathlib.Core.Logic.{inl, inr}
use hcl_assignment.Common.Tests.{Bool-cases}
use hcl_assignment.Common.Text.{is_space, trim_start, trim_end, drop_blank, trim}

drop_blank-trim_end :
    (c : Char) (t : String) → trim_end t ≡ t → trim_end (drop_blank c t) ≡ drop_blank c t
unfolding trim_end drop_blank
drop_blank-trim_end c String.[] h = elim (Bool-cases (is_space (code c))) [
  | inl blank ↦ rw blank refl
  | inr ink ↦ rw ink (rw ink refl)
]
drop_blank-trim_end c (String.◌∷◌ d t) h = ap (drop_blank c) h

trim_end-trim_end : (s : String) → trim_end (trim_end s) ≡ trim_end s
unfolding trim_end
trim_end-trim_end String.[] = refl
trim_end-trim_end (String.◌∷◌ c s) = drop_blank-trim_end c (trim_end s) (trim_end-trim_end s)

trim_start-trim_start : (s : String) → trim_start (trim_start s) ≡ trim_start s
unfolding trim_start
trim_start-trim_start String.[] = refl
trim_start-trim_start (String.◌∷◌ c s) = elim (Bool-cases (is_space (code c))) [
  | inl blank ↦ rw blank (trim_start-trim_start s)
  | inr ink ↦ rw ink (rw ink refl)
]

abbrev tail : String → String
tail String.[] = String.[]
tail (String.◌∷◌ c s) = s

tail-cons : (c d : Char) (s t : String) → String.◌∷◌ c s ≡ String.◌∷◌ d t → s ≡ t
tail-cons c d s t h = ap tail h

nil-cons : (c : Char) (s : String) → String.[] ≡ String.◌∷◌ c s → ⊥
nil-cons c s h = cc

rest_fixed : (c : Char) (s t : String) → drop_blank c t ≡ String.◌∷◌ c s → t ≡ s
unfolding drop_blank
rest_fixed c s String.[] h = elim (Bool-cases (is_space (code c))) [
  | inl blank ↦ absurd (nil-cons c s (rw blank at h))
  | inr ink ↦ tail-cons c c String.[] s (rw ink at h)
]
rest_fixed c s (String.◌∷◌ d t) h = tail-cons c c (String.◌∷◌ d t) s h

trim_end-trim_start : (s : String) → trim_end s ≡ s → trim_end (trim_start s) ≡ trim_start s
unfolding trim_start trim_end
trim_end-trim_start String.[] h = refl
trim_end-trim_start (String.◌∷◌ c s) h = elim (Bool-cases (is_space (code c))) [
  | inl blank ↦ rw blank (trim_end-trim_start s (rest_fixed c s (trim_end s) h))
  | inr ink ↦ rw ink h
]

pub trim-trim : (s : String) → trim (trim s) ≡ trim s
unfolding trim
trim-trim s =
    ap trim_start (trim_end-trim_start (trim_end s) (trim_end-trim_end s))
    ∙ trim_start-trim_start (trim_end s)
