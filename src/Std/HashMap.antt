-- ===== src/Std/HashMap.antt =====
-- `HashMap<String, String>` as an association list with one entry to a key; the sources only
-- insert and look up, so the order of the entries shows nowhere.
use itgv.Base.{Option, none, some, List, [], ◌∷◌, ◌≡◌, refl, arith, if◌then◌else◌}
use itgv.Std.Text.{Text, text_eq, text_eq_iff}

abbrev pub HashMap : Type 0
HashMap = List (Text × Text)

abbrev pub empty : HashMap
empty = []

unfoldable pub insert : Text → Text → HashMap → HashMap
unfolding text_eq
insert k v [] = (k, v) ∷ []
insert k v ((j, w) ∷ m) =
    let rest = insert k v m in if text_eq j k then (k, v) ∷ m else (j, w) ∷ rest

unfoldable pub get : Text → HashMap → Option Text
unfolding text_eq
get k [] = none
get k ((j, w) ∷ m) = let rest = get k m in if text_eq j k then some w else rest

pub get-insert :
    (k j v : Text) (m : HashMap) → get j (insert k v m) ≡ (if text_eq k j then some v else get j m)
unfolding insert get
get-insert k j v [] = refl
get-insert k j v ((i, w) ∷ m) =
    ground (arith, text_eq_iff k j, text_eq_iff i k, text_eq_iff i j, get-insert k j v m)
