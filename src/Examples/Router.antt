-- ===== src/Examples/Router.antt =====
-- A router that splits a path at `/`.
use Prim.Native.Char.{code}
use Prim.Native.String
use text.Mathlib.TextLemmas.{nil-append, cons-append, append-nil}
use hcl_assignment.Common.{
  String, false, List, [], ◌∷◌, ◌⧺◌, ◌≡◌, ◌∙◌, refl, ap, eqb, filter, truthy, All, if◌then◌else◌,
  arith,
}
use hcl_assignment.Routes.Paths.{IsPlain, IsSegment, join, Router}

abbrev pub split : String → List String
split String.[] = "" ∷ []
split (String.◌∷◌ c s) =
    let rest = split s in
    if eqb (code c) 47
    then "" ∷ rest
    else elim rest [ [] ↦ String.◌∷◌ c String.[] ∷ [] | word ∷ words ↦ String.◌∷◌ c word ∷ words ]

abbrev pub segments : String → List String
segments path = filter truthy (split path)

split-word : (w : String) → IsPlain w → split w ≡ w ∷ []
split-word String.[] h = refl
split-word (String.◌∷◌ c w) (h, hs) =
    let plain : eqb (code c) 47 ≡ false = ground (arith, h) in rw (plain, split-word w hs) refl

split-root : (rest : String) → split ("/" ⧺ rest) ≡ "" ∷ split rest
split-root rest = rw (cons-append (String.char_at "/" 0) "" rest, nil-append rest) refl

split-slash : (w rest : String) → IsPlain w → split (w ⧺ "/" ⧺ rest) ≡ w ∷ split rest
split-slash String.[] rest h = rw (nil-append ("/" ⧺ rest)) (split-root rest)
split-slash (String.◌∷◌ c w) rest (h, hs) =
    let plain : eqb (code c) 47 ≡ false = ground (arith, h) in
    rw (cons-append c w ("/" ⧺ rest)) (rw (plain, split-slash w rest hs) refl)

split-words :
    (s : String) (rest : List String) → All IsSegment (s ∷ rest) → split (s ⧺ join rest) ≡ s ∷ rest
split-words s [] ((plain, full), others) = rw (append-nil s) (split-word s plain)
split-words s (t ∷ rest) ((plain, full), others) =
    split-slash s (t ⧺ join rest) plain ∙ ap (λ ws. s ∷ ws) (split-words t rest others)

split-join :
    (s : String) (rest : List String)
    → All IsSegment (s ∷ rest)
    → split (join (s ∷ rest)) ≡ "" ∷ s ∷ rest
split-join s rest h = split-root (s ⧺ join rest) ∙ ap (λ ws. "" ∷ ws) (split-words s rest h)

filter-segments : (words : List String) → All IsSegment words → filter truthy words ≡ words
filter-segments [] h = refl
filter-segments (w ∷ words) ((plain, full), others) = rw (full, filter-segments words others) refl

pub joined :
    (s : String) (rest : List String)
    → All IsSegment (s ∷ rest)
    → segments (join (s ∷ rest)) ≡ s ∷ rest
joined s rest h = rw (split-join s rest h) (filter-segments (s ∷ rest) h)

abbrev pub router : Router
router = record { segments = segments; root = refl; joined = joined }
