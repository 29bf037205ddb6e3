-- ===== src/Crawler/Order.antt =====
-- The order of the crawler's set (src/crawler.hpp): operator< of std::pair<std::string, path>.
pub mod Names
use Prim.Native.Nat.{Ordering}
use Prim.Native.Char.{Char, code}
pub use Prim.Native.String.{compare}
use cliot.Prelude.{
  String, ◌≡◌, refl, Bool, true, false, List, [], ◌∷◌, str_eq, starts_with, ◌==◌, if◌then◌else◌,
}

abbrev then_by : Ordering → Ordering → Ordering
then_by Ordering.eq o = o
then_by o _ = o

abbrev add_to_head : Char → List String → List String
add_to_head c [] = String.◌∷◌ c "" ∷ []
add_to_head c (w ∷ ws) = String.◌∷◌ c w ∷ ws

-- The texts between the separators.
unfoldable words : String → List String
words String.[] = "" ∷ []
words (String.◌∷◌ c s) =
    let rest = words s in if code c == b'/' then "" ∷ rest else add_to_head c rest

-- Separators in a row are one; a separator at the end stays as an empty name.
unfoldable drop_empty : List String → List String
drop_empty [] = []
drop_empty (w ∷ []) = w ∷ []
drop_empty (w ∷ v ∷ ws) = let rest = drop_empty (v ∷ ws) in if str_eq w "" then rest else w ∷ rest

unfoldable pub file_names : String → List String
unfolding words drop_empty
file_names p = if str_eq p "" then [] else drop_empty (words p)

unfoldable pub compare_names : List String → List String → Ordering
compare_names [] [] = Ordering.eq
compare_names [] (w ∷ ws) = Ordering.lt
compare_names (v ∷ vs) [] = Ordering.gt
compare_names (v ∷ vs) (w ∷ ws) = then_by (compare v w) (compare_names vs ws)

abbrev compare_roots : Bool → Bool → Ordering
compare_roots true false = Ordering.gt
compare_roots false true = Ordering.lt
compare_roots _ _ = Ordering.eq

-- path::compare: a path with a root directory is greater than one without; then the names decide.
unfoldable pub compare_paths : String → String → Ordering
unfolding file_names compare_names
compare_paths p q =
    then_by (compare_roots (starts_with p "/") (starts_with q "/"))
      (compare_names (file_names p) (file_names q))

unfoldable pub compare_pairs : String × String → String × String → Ordering
unfolding compare_paths
compare_pairs x y = then_by (compare x.0 y.0) (compare_paths x.1 y.1)

orders :
    (compare_paths "flows/a/env.json" "flows/a/script.yaml" ≡ Ordering.lt)
    × (compare_paths "flows//a" "flows/a" ≡ Ordering.eq)
    × (compare_paths "flows/a/" "flows/a" ≡ Ordering.gt)
    × (compare_paths "/a" "b" ≡ Ordering.gt)
unfolding compare_paths
orders = (refl, refl, refl, refl)
