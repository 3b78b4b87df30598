-- ===== src/Components/Primitives/Card.antt =====
-- components/ui/card.tsx
use hcl_assignment.Common.{some, List, [], ◌∷◌}
use hcl_assignment.Ui.{View, Attr}
use hcl_assignment.Components.Primitives.{Classes, styled}

module _ {A : Type 0} (lib : Classes) where
  unfoldable pub card : List (Attr A) → View A → View A
  unfolding styled
  card props v =
      styled lib "div" (some "rounded-lg border bg-card text-card-foreground shadow-sm" ∷ []) props
        v

  unfoldable pub card_header : List (Attr A) → View A → View A
  unfolding styled
  card_header props v = styled lib "div" (some "flex flex-col space-y-1.5 p-6" ∷ []) props v

  unfoldable pub card_title : List (Attr A) → View A → View A
  unfolding styled
  card_title props v =
      styled lib "h3" (some "text-2xl font-semibold leading-none tracking-tight" ∷ []) props v

  unfoldable pub card_description : List (Attr A) → View A → View A
  unfolding styled
  card_description props v = styled lib "p" (some "text-sm text-muted-foreground" ∷ []) props v

  unfoldable pub card_content : List (Attr A) → View A → View A
  unfolding styled
  card_content props v = styled lib "div" (some "p-6 pt-0" ∷ []) props v

  unfoldable pub card_footer : List (Attr A) → View A → View A
  unfolding styled
  card_footer props v = styled lib "div" (some "flex items-center p-6 pt-0" ∷ []) props v
