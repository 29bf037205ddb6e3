-- ===== src/Crawler/Order/Names.antt =====
-- The file names of paths that the crawler's set takes for one (src/crawler.hpp).
use Prim.Native.Nat.{Ordering}
use Prim.Native.Char.{code}
use text.Mathlib.TextEquality.{path_by_compare}
use cliot.Prelude.{
  String, ◌≡◌, refl, ap, ◌∙◌, sym, false, inl, inr, ◌⊎◌, List, [], ◌∷◌, str_eq, ◌==◌, starts_with,
  Bool-cases, eq_iff,
}
use cliot.Flow.FilePath.{split, filename}
use cliot.Flow.FilePath.Parents.{str_eq_cons}
use cliot.Crawler.Order.{
  compare, then_by, words, drop_empty, file_names, compare_names, compare_roots, compare_paths,
  compare_pairs,
}

abbrev last_name : List String → String
last_name [] = ""
last_name (w ∷ []) = w
last_name (w ∷ v ∷ ws) = last_name (v ∷ ws)

-- A text without a separator is one word; otherwise there are more, and the file name is the last.
abbrev IsSplit : String × String → List String → Type 0
IsSplit (dir, file) ws =
    ((dir ≡ "") × (ws ≡ file ∷ []))
    ⊎ ((str_eq dir "" ≡ false)
        × (u : String) × (v : String) × (us : List String) × (ws ≡ u ∷ v ∷ us)
        × (last_name (v ∷ us) ≡ file))

split-words : (s : String) → IsSplit (split s) (words s)
unfolding split words
split-words String.[] = inl (refl, refl)
split-words (String.◌∷◌ c s) = elim (split-words s) [
  | inl (d, e) ↦ elim (Bool-cases (code c == b'/')) [
    | inl h ↦ rw (d, e, h) (inr (str_eq_cons c "", "", (split s).1, [], refl, refl))
    | inr h ↦ rw (d, e, h) (inl (refl, refl))
  ]
  | inr (d, u, v, us, e, f) ↦ elim (Bool-cases (code c == b'/')) [
    | inl h ↦ rw (d, e, h) (inr (str_eq_cons c _, "", u, v ∷ us, refl, f))
    | inr h ↦ rw (d, e, h) (inr (str_eq_cons c _, String.◌∷◌ c u, v, us, refl, f))
  ]
]

last_name-words : (s : String) → last_name (words s) ≡ filename s
unfolding filename
last_name-words s = elim (split-words s) [
  | inl (d, e) ↦ rw e refl
  | inr (d, u, v, us, e, f) ↦ rw e f
]

drop_empty-cons :
    (w : String) (ws : List String)
    → (u : String) × (us : List String) × (drop_empty (w ∷ ws) ≡ u ∷ us)
unfolding drop_empty
drop_empty-cons w [] = (w, [], refl)
drop_empty-cons w (v ∷ ws) = elim (Bool-cases (str_eq w "")) [
  | inl e ↦ rw e (drop_empty-cons v ws)
  | inr e ↦ rw e ((w, drop_empty (v ∷ ws), refl))
]

last_name-drop_empty : (ws : List String) → last_name (drop_empty ws) ≡ last_name ws
unfolding drop_empty
last_name-drop_empty [] = refl
last_name-drop_empty (w ∷ []) = refl
last_name-drop_empty (w ∷ v ∷ ws) = elim (Bool-cases (str_eq w "")) [
  | inl e ↦ rw e (last_name-drop_empty (v ∷ ws))
  | inr e ↦
      let (u, us, h) = drop_empty-cons v ws in
      rw e (rw h (ap last_name (sym h) ∙ last_name-drop_empty (v ∷ ws)))
]

last_name-file_names : (p : String) → last_name (file_names p) ≡ filename p
unfolding file_names filename split
last_name-file_names p = elim (Bool-cases (str_eq p "")) [
  | inl e ↦ rw e (ap (λ q. filename q) (sym ((eq_iff p "").0 e)))
  | inr e ↦ rw e (last_name-drop_empty (words p) ∙ last_name-words p)
]

then_by-eq : (o p : Ordering) → then_by o p ≡ Ordering.eq → (o ≡ Ordering.eq) × (p ≡ Ordering.eq)
then_by-eq Ordering.eq p h = (refl, h)
then_by-eq Ordering.lt p h = cc
then_by-eq Ordering.gt p h = cc

compare_names-eq : (vs ws : List String) → compare_names vs ws ≡ Ordering.eq → vs ≡ ws
unfolding compare_names
compare_names-eq [] [] h = refl
compare_names-eq [] (w ∷ ws) h = cc
compare_names-eq (v ∷ vs) [] h = cc
compare_names-eq (v ∷ vs) (w ∷ ws) h =
    let (a, b) = then_by-eq (compare v w) (compare_names vs ws) h in
    rw (path_by_compare v w a, compare_names-eq vs ws b) refl

-- Two pairs that are equivalent in the set have the same flow and the same file name.
pub compare_pairs-eq :
    (x y : String × String)
    → compare_pairs x y ≡ Ordering.eq
    → (x.0 ≡ y.0) × (filename x.1 ≡ filename y.1)
unfolding compare_pairs compare_paths
compare_pairs-eq x y h =
    let (a, b) = then_by-eq (compare x.0 y.0) _ h in
    let (c, d) = then_by-eq (compare_roots (starts_with x.1 "/") (starts_with y.1 "/")) _ b in
    (
      path_by_compare x.0 y.0 a,
      sym (last_name-file_names x.1)
          ∙ ap last_name (compare_names-eq (file_names x.1) (file_names y.1) d)
          ∙ last_name-file_names y.1,
    )
