-- ===== src/Crawler/Complete.antt =====
-- Whether the crawler misses a flow (src/crawler.hpp).
use cliot.Prelude.{
  String, ◌≡◌, ap, ◌∙◌, sym, true, false, not, List, [], ◌∷◌, In, In-cons, subst, inl, inr,
  starts_with,
}
use cliot.Json.{Checked, value}
use cliot.Exec.{Exec, other}
use cliot.Exec.Triple.{Post, Triple, Triple-bind, Triple-if, Triple-any, Triple-checked}
use cliot.Host.{Host}
use cliot.World.{World}
use cliot.Flow.FilePath.{filename, ◌//◌}
use cliot.Crawler.{DirectoryEntry, contains_text, crawl_flow, crawl_flows, crawl}
use cliot.Crawler.Kept.{HasName, HasFile, add_files-HasFile, add_files-new, collect-new}

module _ (H : Host) (entries : String → Checked (List DirectoryEntry)) where
  open H use {json}
  open json use {Json}

  -- The paths that an action gives satisfy Q, if it returns.
  abbrev Gives :
      Exec (World Json) (List (String × String)) → (List (String × String) → Type 0) → Type 0
  Gives m Q = Triple (λ _. Unit {0}) m (λ r _. Q r) (λ _ _. Unit {0}) (λ _. Unit {0})

  crawl_flow-HasFile :
      (name file dir : String) (paths : List (String × String))
      → HasFile name file paths
      → Gives (crawl_flow H entries dir paths) (HasFile name file)
  unfolding crawl_flow
  crawl_flow-HasFile name file dir paths h =
      Triple-if (starts_with (filename dir) ".") _ _ (λ _. record { at = λ w u. h })
        (λ _. Triple-bind _ _ (Triple-any _) (λ _. Triple-bind _ _ (Triple-any _) (λ files. record {
          at = λ w u. add_files-HasFile (filename dir) name file files paths h;
        })))

  crawl_flows-HasFile :
      (name file : String) (dirs : List DirectoryEntry) (paths : List (String × String))
      → HasFile name file paths
      → Gives (crawl_flows H entries dirs paths) (HasFile name file)
  unfolding crawl_flows
  crawl_flows-HasFile name file [] paths h = record { at = λ w u. h }
  crawl_flows-HasFile name file (dir ∷ rest) paths h =
      Triple-bind {Q = λ r _. HasFile name file r} _ _
        (crawl_flow-HasFile name file dir.path paths h)
        (λ more. record { at = λ w k. (crawl_flows-HasFile name file rest more k).at w tt })

  module _ (dir entry : DirectoryEntry) (files : List DirectoryEntry)
      (shown : starts_with (filename dir.path) "." ≡ false)
      (listed : entries dir.path ≡ value files) (m : In entry files)
      (regular : entry.is_regular_file ≡ true)
      (visible : starts_with (filename entry.path) "." ≡ false) where
    crawl_flow-new :
        (paths : List (String × String))
        → Gives
            (crawl_flow H entries dir.path paths)
            (HasFile (filename dir.path) (filename entry.path))
    unfolding crawl_flow
    crawl_flow-new paths = rw shown (
        Triple-bind _ _ (Triple-any _) (λ _.
          Triple-bind {Q = λ r _. r ≡ files} _ _
            (Triple-checked other _ (λ a w e u. cc) (λ e w _ u. tt))
            (λ found. record {
              at = λ w e.
                  subst
                    (λ r.
                      HasFile (filename dir.path) (filename entry.path)
                        (cliot.Crawler.add_files (filename dir.path) r paths))
                    (sym e) (add_files-new (filename dir.path) entry files paths m regular visible);
            })))

    crawl_flows-new :
        (dirs : List DirectoryEntry) (paths : List (String × String))
        → In dir dirs
        → Gives
            (crawl_flows H entries dirs paths)
            (HasFile (filename dir.path) (filename entry.path))
    unfolding crawl_flows
    crawl_flows-new [] paths n = elim n [ ]
    crawl_flows-new (d ∷ rest) paths n = elim (In-cons n) [
      | inl e ↦
          Triple-bind {Q = λ r _. HasFile (filename dir.path) (filename entry.path) r} _ _
            (rw (← e) (crawl_flow-new paths))
            (λ more. record { at = λ w k. (crawl_flows-HasFile _ _ rest more k).at w tt })
      | inr l ↦ Triple-bind _ _ (Triple-any _) (λ more. crawl_flows-new rest more l)
    ]

  -- No flow is missed: if the crawler returns, then the flow of each directory in the flows directory
  -- that is not hidden, has a regular file script.yaml, and has the filter's text in its name, is among
  -- the flows returned.
  pub crawl-HasName :
      (path filter : String) (dir entry : DirectoryEntry) (dirs files : List DirectoryEntry)
      (w : World Json)
      → entries (path // "flows") ≡ value dirs
      → In dir dirs
      → starts_with (filename dir.path) "." ≡ false
      → entries dir.path ≡ value files
      → In entry files
      → entry.is_regular_file ≡ true
      → filename entry.path ≡ "script.yaml"
      → contains_text filter (filename dir.path) ≡ true
      → Post
          (λ flows _. HasName (filename dir.path) flows)
          (λ _ _. Unit {0})
          (λ _. Unit {0})
          (crawl H entries path filter w).0
          (crawl H entries path filter w).1
  unfolding crawl
  crawl-HasName path filter dir entry dirs files w top n shown listed m regular script selected =
      (Triple-if {P = λ _. Unit {0}} {Q = λ flows _. HasName (filename dir.path) flows}
          {E = λ _ _. Unit {0}} (not (H.exists (path // "flows"))) _ _
          (λ _. record { at = λ v h. tt })
          (λ _.
            Triple-bind {Q = λ r _. r ≡ dirs} _ _
              (Triple-checked other (entries (path // "flows")) (λ a v e u. cc) (λ e v _ u. tt))
              (λ found. record {
                at = λ v e.
                    (Triple-bind {Q = λ r _. HasFile (filename dir.path) (filename entry.path) r} _
                        _
                        (crawl_flows-new dir entry files shown listed m regular
                          (ap (λ f. starts_with f ".") script) found [] (rw e n))
                        (λ paths. record {
                          at = λ u (p, l, f).
                              collect-new filter (filename dir.path) paths [] p l (f ∙ script)
                                selected;
                        })).at
                      v tt;
              }))).at
        w tt
