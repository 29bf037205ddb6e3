-- ===== src/Crawler/Found.antt =====
-- What the crawler finds (src/crawler.hpp).
use Prim.Native.Nat.{Ordering}
use cliot.Prelude.{
  String, ◌≡◌, refl, Bool, true, false, not, ◌||◌, List, [], ◌∷◌, str_eq, eq_iff, starts_with, All,
  In, here, there, if◌then◌else◌,
}
use cliot.Json.{Checked, value}
use cliot.Exec.{Exec, other}
use cliot.Exec.Triple.{Post-weaken, Post, Triple, Triple-bind, Triple-if, Triple-checked}
use cliot.Host.{Host}
use cliot.World.{World, Frame}
use cliot.Flow.FilePath.{filename, remove_filename, ◌//◌}
use cliot.Runner.Callbacks.Local.{NotFlow}
use cliot.Crawler.{
  DirectoryEntry, emplace_path, emplace_flow, contains_text, add_files, collect, crawl_flow,
  crawl_flows, crawl,
}
use cliot.Crawler.Order.{compare, compare_pairs}

emplace_path-All :
    (P : String × String → Type 0) (x : String × String) (xs : List (String × String))
    → P x
    → All P xs
    → All P (emplace_path x xs)
unfolding emplace_path
emplace_path-All P x [] p h = (p, tt)
emplace_path-All P x (y ∷ rest) p h = by_order (emplace_path-All P x rest p h.1) (compare_pairs x y)
  where
    by_order :
        All P (emplace_path x rest)
        → (o : Ordering)
        → All P (elim o [
          | Ordering.lt ↦ x ∷ y ∷ rest
          | Ordering.eq ↦ y ∷ rest
          | Ordering.gt ↦ y ∷ emplace_path x rest
        ])
    by_order later Ordering.lt = (p, h)
    by_order later Ordering.eq = h
    by_order later Ordering.gt = (h.0, later)

emplace_flow-All :
    (P : String × String → Type 0) (x : String × String) (xs : List (String × String))
    → P x
    → All P xs
    → All P (emplace_flow x xs)
unfolding emplace_flow
emplace_flow-All P x [] p h = (p, tt)
emplace_flow-All P x (y ∷ rest) p h = by_order (emplace_flow-All P x rest p h.1) (compare x.0 y.0)
  where
    by_order :
        All P (emplace_flow x rest)
        → (o : Ordering)
        → All P (elim o [
          | Ordering.lt ↦ x ∷ y ∷ rest
          | Ordering.eq ↦ y ∷ rest
          | Ordering.gt ↦ y ∷ emplace_flow x rest
        ])
    by_order later Ordering.lt = (p, h)
    by_order later Ordering.eq = h
    by_order later Ordering.gt = (h.0, later)

-- The path is that of an entry in the listing of the directory.
abbrev pub IsListed : (String → Checked (List DirectoryEntry)) → String → DirectoryEntry → Type 0
IsListed entries dir entry =
    (files : List DirectoryEntry) × (entries dir ≡ value files) × In entry files

-- A name and a path in paths_: the name is that of a directory in the listing of `top`, it is not hidden,
-- and the path is that of a regular file in the listing of this directory.
abbrev pub IsFound : (String → Checked (List DirectoryEntry)) → String → String × String → Type 0
IsFound entries top x =
    (starts_with x.0 "." ≡ false)
    × ((dir : DirectoryEntry) × IsListed entries top dir
        × (x.0 ≡ filename dir.path)
        × ((entry : DirectoryEntry) × IsListed entries dir.path entry
            × (entry.is_regular_file ≡ true)
            × (x.1 ≡ entry.path)))

-- A flow that is to be run: its name has the filter's text, and its directory is that of a file
-- script.yaml which was found for this name.
abbrev pub IsSelected :
    (String → Checked (List DirectoryEntry)) → String → String → String × String → Type 0
IsSelected entries top filter x =
    (contains_text filter x.0 ≡ true)
    × ((p : String) × IsFound entries top (x.0, p)
        × (filename p ≡ "script.yaml")
        × (x.1 ≡ remove_filename p))

module _ (entries : String → Checked (List DirectoryEntry)) (top : String) where
  add_files-IsFound :
      (dir : DirectoryEntry) (all files : List DirectoryEntry) (paths : List (String × String))
      → starts_with (filename dir.path) "." ≡ false
      → IsListed entries top dir
      → entries dir.path ≡ value all
      → ((entry : DirectoryEntry) → In entry files → In entry all)
      → All (IsFound entries top) paths
      → All (IsFound entries top) (add_files (filename dir.path) files paths)
  unfolding add_files
  add_files-IsFound dir all [] paths s l e inside h = h
  add_files-IsFound dir all (entry ∷ rest) paths s l e inside h =
      add_files-IsFound dir all rest _ s l e (λ x m. inside x (there m))
        (by_test entry.is_regular_file (starts_with (filename entry.path) ".") refl)
    where
      by_test :
          (b c : Bool)
          → entry.is_regular_file ≡ b
          → All
              (IsFound entries top)
              (if not b || c then paths else emplace_path (filename dir.path, entry.path) paths)
      by_test false c r = h
      by_test true true r = h
      by_test true false r =
          emplace_path-All (IsFound entries top) (filename dir.path, entry.path) paths
            (s, (dir, l, refl, (entry, (all, e, inside entry here), r, refl))) h

  collect-IsSelected :
      (filter : String) (paths flows : List (String × String))
      → All (IsFound entries top) paths
      → All (IsSelected entries top filter) flows
      → All (IsSelected entries top filter) (collect filter paths flows)
  unfolding collect
  collect-IsSelected filter [] flows s h = h
  collect-IsSelected filter ((name, path) ∷ rest) flows s h =
      collect-IsSelected filter rest _ s.1
        (by_tests (contains_text filter name) (str_eq (filename path) "script.yaml") refl refl)
    where
      by_tests :
          (b c : Bool)
          → contains_text filter name ≡ b
          → str_eq (filename path) "script.yaml" ≡ c
          → All (IsSelected entries top filter) (
              if not b
              then flows
              else if c
              then emplace_flow (name, remove_filename path) flows
              else flows)
      by_tests false c e f = h
      by_tests true false e f = h
      by_tests true true e f =
          emplace_flow-All (IsSelected entries top filter) (name, remove_filename path) flows
            (e, (path, s.0, (eq_iff (filename path) "script.yaml").0 f, refl)) h

module _ (H : Host) (entries : String → Checked (List DirectoryEntry))
    (I : World H.json.Json → Type 0) (frame : Frame I) where
  open H use {json}
  open json use {Json}

  -- What the action finds, while a property of the state is kept.
  abbrev pub Finds :
      Exec (World Json) (List (String × String)) → (List (String × String) → Type 0) → Type 0
  Finds m Q = Triple I m (λ r w. Q r × I w) (λ e w. NotFlow e × I w) (λ _. ⊥)

  module _ (top : String) where
    crawl_flow-IsFound :
        (dir : DirectoryEntry) (paths : List (String × String))
        → IsListed entries top dir
        → All (IsFound entries top) paths
        → Finds (crawl_flow H entries dir.path paths) (All (IsFound entries top))
    unfolding crawl_flow
    crawl_flow-IsFound dir paths l h =
        Triple-if (starts_with (filename dir.path) ".") _ _ (λ _. record { at = λ w i. (h, i) })
          (λ shown.
            Triple-bind {Q = λ _. I} _ _ (record { at = λ w i. frame.on_simple w _ i })
              (λ _.
                Triple-bind {Q = λ files w. (entries dir.path ≡ value files) × I w} _ _
                  (Triple-checked other _ (λ a w e i. (e, i)) (λ m w _ i. (tt, i)))
                  (λ files. record {
                    at = λ w (e, i). (
                      add_files-IsFound entries top dir files files paths shown l e (λ x m. m) h,
                      i,
                    );
                  })))

    crawl_flows-IsFound :
        (dirs : List DirectoryEntry) (paths : List (String × String))
        → ((dir : DirectoryEntry) → In dir dirs → IsListed entries top dir)
        → All (IsFound entries top) paths
        → Finds (crawl_flows H entries dirs paths) (All (IsFound entries top))
    unfolding crawl_flows
    crawl_flows-IsFound [] paths l h = record { at = λ w i. (h, i) }
    crawl_flows-IsFound (dir ∷ rest) paths l h =
        Triple-bind {Q = λ r w. All (IsFound entries top) r × I w} _ _
          (crawl_flow-IsFound dir paths (l dir here) h)
          (λ more. record {
            at = λ w s. (crawl_flows-IsFound rest more (λ d m. l d (there m)) s.0).at w s.1;
          })

  pub Finds-crawl :
      (path filter : String)
      → Finds (crawl H entries path filter) (All (IsSelected entries (path // "flows") filter))
  unfolding crawl
  Finds-crawl path filter =
      Triple-if (not (H.exists (path // "flows"))) _ _ (λ _. record { at = λ w i. (tt, i) })
        (λ _.
          Triple-bind {Q = λ dirs w. (entries (path // "flows") ≡ value dirs) × I w} _ _
            (Triple-checked other _ (λ a w e i. (e, i)) (λ m w _ i. (tt, i)))
            (λ dirs. record {
              at = λ v (e, i).
                  (Triple-bind {Q = λ r w. All (IsFound entries (path // "flows")) r × I w} _ _
                      (crawl_flows-IsFound (path // "flows") dirs [] (λ d m. (dirs, e, m)) tt)
                      (λ paths. record {
                        at = λ w s. (
                          collect-IsSelected entries (path // "flows") filter paths [] s.0 tt,
                          s.1,
                        );
                      })).at
                    v i;
            }))

module _ (H : Host) (entries : String → Checked (List DirectoryEntry)) where
  open H use {json}
  open json use {Json}

  anything : Frame {Json = Json} (λ w. Unit {0})
  anything = record {
    on_store = λ w s h. tt;
    on_clock = λ w n h. tt;
    on_simple = λ w ev h. tt;
    on_response = λ w ev h. tt;
  }

  -- Crawling always ends. If it returns, then every flow found has the filter's text in its name,
  -- which is the name of a directory that is listed in the flows directory and not hidden; and its
  -- path is the directory part of the path of a regular file called script.yaml that is listed in that
  -- directory. If it throws, then no FlowException.
  pub crawl-IsSelected :
      (path filter : String) (w : World Json)
      → Post
          (λ flows _. All (IsSelected entries (path // "flows") filter) flows)
          (λ e _. NotFlow e)
          (λ _. ⊥)
          (crawl H entries path filter w).0
          (crawl H entries path filter w).1
  crawl-IsSelected path filter w =
      Post-weaken (λ r _. All (IsSelected entries (path // "flows") filter) r × Unit {0})
        (λ r _. All (IsSelected entries (path // "flows") filter) r) (λ e _. NotFlow e × Unit {0})
        (λ e _. NotFlow e) (λ _. ⊥) (λ _. ⊥) _ _ (λ r h. h.0) (λ e h. h.0) (λ x h. h)
        ((Finds-crawl H entries (λ _. Unit {0}) anything path filter).at w tt)
