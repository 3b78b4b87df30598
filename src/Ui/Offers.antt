-- ===== src/Ui/Offers.antt =====
-- What a list of views offers.
use hcl_assignment.Common.{Bool, false, List, [], ◌∷◌, ◌≡◌, refl, arith}
use hcl_assignment.Ui.{View, each, offers}

pub offers-each-none :
    {A B : Type 0} (p : A → Bool) (f : B → View A) (xs : List B)
    → ((x : B) → offers p (f x) ≡ false)
    → offers p (each f xs) ≡ false
unfolding offers
offers-each-none p f [] h = refl
offers-each-none p f (x ∷ xs) h = ground (arith, h x, offers-each-none p f xs h)
