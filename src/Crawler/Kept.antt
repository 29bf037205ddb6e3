-- ===== src/Crawler/Kept.antt =====
-- The elements of the crawler's set and map (src/crawler.hpp).
use Prim.Native.Nat.{Ordering}
use text.Mathlib.TextEquality.{path_by_compare}
use cliot.Prelude.{
  String, ◌≡◌, refl, sym, Bool, true, false, not, ◌||◌, List, [], ◌∷◌, str_eq, In, here, there,
  In-cons, subst, inl, inr, str_eq, starts_with, if◌then◌else◌,
}
use cliot.Flow.FilePath.{filename, remove_filename}
use cliot.Crawler.Order.{compare, compare_pairs}
use cliot.Crawler.Order.Names.{compare_pairs-eq}
use cliot.Crawler.{DirectoryEntry, emplace_path, emplace_flow, contains_text, add_files, collect}

-- A flow of that name is in the map.
abbrev pub HasName : String → List (String × String) → Type 0
HasName name flows = (dir : String) × In (name, dir) flows

-- A file of that flow and of that name is in the set.
abbrev pub HasFile : String → String → List (String × String) → Type 0
HasFile name file paths = (p : String) × In (name, p) paths × (filename p ≡ file)

emplace_flow-In :
    (x z : String × String) (xs : List (String × String)) → In z xs → In z (emplace_flow x xs)
unfolding emplace_flow
emplace_flow-In x z [] m = elim m [ ]
emplace_flow-In x z (y ∷ rest) m = by_order (compare x.0 y.0) (λ n. emplace_flow-In x z rest n) m
  where
    by_order :
        (o : Ordering)
        → (In z rest → In z (emplace_flow x rest))
        → In z (y ∷ rest)
        → In z (elim o [
          | Ordering.lt ↦ x ∷ y ∷ rest
          | Ordering.eq ↦ y ∷ rest
          | Ordering.gt ↦ y ∷ emplace_flow x rest
        ])
    by_order Ordering.lt later m = there m
    by_order Ordering.eq later m = m
    by_order Ordering.gt later m = elim (In-cons m) [
      | inl f ↦ subst (λ v. In v (y ∷ emplace_flow x rest)) (sym f) here
      | inr n ↦ there (later n)
    ]

emplace_flow-HasName :
    (x : String × String) (xs : List (String × String)) → HasName x.0 (emplace_flow x xs)
unfolding emplace_flow
emplace_flow-HasName x [] = (x.1, here)
emplace_flow-HasName x (y ∷ rest) = by_order (compare x.0 y.0) refl (emplace_flow-HasName x rest)
  where
    by_order :
        (o : Ordering)
        → compare x.0 y.0 ≡ o
        → HasName x.0 (emplace_flow x rest)
        → HasName x.0 (elim o [
          | Ordering.lt ↦ x ∷ y ∷ rest
          | Ordering.eq ↦ y ∷ rest
          | Ordering.gt ↦ y ∷ emplace_flow x rest
        ])
    by_order Ordering.lt e later = (x.1, here)
    by_order Ordering.eq e later = rw (path_by_compare x.0 y.0 e) ((y.1, here))
    by_order Ordering.gt e (dir, m) = (dir, there m)

emplace_path-HasFile :
    (x : String × String) (name file : String) (xs : List (String × String))
    → HasFile name file xs
    → HasFile name file (emplace_path x xs)
unfolding emplace_path
emplace_path-HasFile x name file [] (p, m, e) = elim m [ ]
emplace_path-HasFile x name file (y ∷ rest) (p, m, e) =
    by_order (compare_pairs x y) (λ n. emplace_path-HasFile x name file rest (p, n, e)) m
  where
    by_order :
        (o : Ordering)
        → (In (name, p) rest → HasFile name file (emplace_path x rest))
        → In (name, p) (y ∷ rest)
        → HasFile name file (elim o [
          | Ordering.lt ↦ x ∷ y ∷ rest
          | Ordering.eq ↦ y ∷ rest
          | Ordering.gt ↦ y ∷ emplace_path x rest
        ])
    by_order Ordering.lt later m = (p, there m, e)
    by_order Ordering.eq later m = (p, m, e)
    by_order Ordering.gt later m = elim (In-cons m) [
      | inl f ↦ (p, subst (λ v. In v (y ∷ emplace_path x rest)) (sym f) here, e)
      | inr n ↦ let (q, l, f) = later n in (q, there l, f)
    ]

emplace_path-new :
    (x : String × String) (xs : List (String × String))
    → HasFile x.0 (filename x.1) (emplace_path x xs)
unfolding emplace_path
emplace_path-new x [] = (x.1, here, refl)
emplace_path-new x (y ∷ rest) = by_order (compare_pairs x y) refl (emplace_path-new x rest)
  where
    by_order :
        (o : Ordering)
        → compare_pairs x y ≡ o
        → HasFile x.0 (filename x.1) (emplace_path x rest)
        → HasFile x.0 (filename x.1) (elim o [
          | Ordering.lt ↦ x ∷ y ∷ rest
          | Ordering.eq ↦ y ∷ rest
          | Ordering.gt ↦ y ∷ emplace_path x rest
        ])
    by_order Ordering.lt e later = (x.1, here, refl)
    by_order Ordering.eq e later =
        let (a, b) = compare_pairs-eq x y e in rw (a, b) ((y.1, here, refl))
    by_order Ordering.gt e (p, m, f) = (p, there m, f)

-- What `add_files` does with one entry.
pub add_files-HasFile :
    (flow name file : String) (files : List DirectoryEntry) (paths : List (String × String))
    → HasFile name file paths
    → HasFile name file (add_files flow files paths)
unfolding add_files
add_files-HasFile flow name file [] paths h = h
add_files-HasFile flow name file (entry ∷ rest) paths h =
    add_files-HasFile flow name file rest _
      (by_test (not entry.is_regular_file || starts_with (filename entry.path) "."))
  where
    by_test :
        (b : Bool) → HasFile name file (if b then paths else emplace_path (flow, entry.path) paths)
    by_test true = h
    by_test false = emplace_path-HasFile (flow, entry.path) name file paths h

-- A visible file comes into the set.
pub add_files-new :
    (flow : String) (entry : DirectoryEntry) (files : List DirectoryEntry)
    (paths : List (String × String))
    → In entry files
    → entry.is_regular_file ≡ true
    → starts_with (filename entry.path) "." ≡ false
    → HasFile flow (filename entry.path) (add_files flow files paths)
unfolding add_files
add_files-new flow entry [] paths m regular visible = elim m [ ]
add_files-new flow entry (other_entry ∷ rest) paths m regular visible = elim (In-cons m) [
  | inl e ↦
      add_files-HasFile flow flow (filename entry.path) rest _
        (rw (← e, regular, visible) (emplace_path-new (flow, entry.path) paths))
  | inr n ↦ add_files-new flow entry rest _ n regular visible
]

collect-HasName :
    (filter name : String) (paths flows : List (String × String))
    → HasName name flows
    → HasName name (collect filter paths flows)
unfolding collect
collect-HasName filter name [] flows h = h
collect-HasName filter name ((flow, path) ∷ rest) flows h =
    collect-HasName filter name rest _
      (by_tests (not (contains_text filter flow)) (str_eq (filename path) "script.yaml"))
  where
    by_tests :
        (b c : Bool)
        → HasName name (
            if b
            then flows
            else if c
            then emplace_flow (flow, remove_filename path) flows
            else flows)
    by_tests true c = h
    by_tests false false = h
    by_tests false true = (h.0, emplace_flow-In (flow, remove_filename path) (name, h.0) flows h.1)

-- A selected flow with a script comes into the map.
pub collect-new :
    (filter name : String) (paths flows : List (String × String)) (p : String)
    → In (name, p) paths
    → filename p ≡ "script.yaml"
    → contains_text filter name ≡ true
    → HasName name (collect filter paths flows)
unfolding collect
collect-new filter name [] flows p m script selected = elim m [ ]
collect-new filter name (x ∷ rest) flows p m script selected = elim (In-cons m) [
  | inl e ↦
      collect-HasName filter name rest _
        (rw (← e, selected, script) (emplace_flow-HasName (name, remove_filename p) flows))
  | inr n ↦ collect-new filter name rest _ p n script selected
]
