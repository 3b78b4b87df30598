-- ===== src/Services/Storage.antt =====
-- The browser's localStorage as the program uses it.
use hcl_assignment.Common.{
  String, Option, none, some, List, [], ◌∷◌, ◌≡◌, refl, ◌==◌, eq_iff, arith, if◌then◌else◌,
}

abbrev pub Storage : Type 0
Storage = List (String × String)

unfoldable pub get_item : String → Storage → Option String
get_item key [] = none
get_item key ((k, v) ∷ rest) = if k == key then some v else get_item key rest

-- The first entry of a key is the one that is read.
unfoldable pub set_item : String → String → Storage → Storage
set_item key v items = (key, v) ∷ items

unfoldable pub remove_item : String → Storage → Storage
remove_item key [] = []
remove_item key ((k, v) ∷ rest) =
    let kept = remove_item key rest in if k == key then kept else (k, v) ∷ kept

pub get_item-set_item :
    (key j v : String) (items : Storage)
    → get_item j (set_item key v items) ≡ (if key == j then some v else get_item j items)
unfolding get_item set_item
get_item-set_item key j v items = refl

pub get_item-remove_item :
    (key j : String) (items : Storage)
    → get_item j (remove_item key items) ≡ (if key == j then none else get_item j items)
unfolding get_item remove_item
get_item-remove_item key j [] = ground arith
get_item-remove_item key j ((k, v) ∷ rest) =
    ground (arith, get_item-remove_item key j rest, eq_iff k key, eq_iff k j, eq_iff key j)
