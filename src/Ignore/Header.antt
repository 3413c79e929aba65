-- ===== src/Ignore/Header.antt =====
-- The header lookup of packages/core/src/ignore.ts.
use coraza_node.Base.{List, [], ◌∷◌, Option, none, some, if◌then◌else◌}
use coraza_node.Base.Text.{Text, text_eq, Casing}

-- The platform's `Headers` object with its own `get`, or a map of entries in insertion order.
pub data HeaderBag : Type 0 where
  headers : (Text → Option Text) → HeaderBag
  entries : List (Text × Text) → HeaderBag

unfoldable pub find_entry : Casing → Text → List (Text × Text) → Option Text
find_entry casing lower [] = none
find_entry casing lower ((k, v) ∷ rest) =
    if text_eq (casing.to_lower_case k) lower then some v else find_entry casing lower rest

unfoldable pub header_get : Casing → HeaderBag → Text → Option Text
unfolding find_entry
header_get casing (headers get) name = get name
header_get casing (entries map) name = find_entry casing (casing.to_lower_case name) map
