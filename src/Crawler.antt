-- ===== src/Crawler.antt =====
-- Crawler (src/crawler.hpp): finds the flows of a data directory.
pub mod Order
pub mod Found
pub mod Sorted
pub mod Kept
pub mod Complete
mod Tests
use Prim.Native.Nat.{Ordering}
use Prim.Native.String
use cliot.Prelude.{
  String, Bool, true, false, not, ◌||◌, List, [], ◌∷◌, str_eq, starts_with, if◌then◌else◌,
}
use cliot.Json.{Checked}
use cliot.Exec.{Exec, other, pure, throw, checked, ◌>>=◌, ◌>>◌}
use cliot.Host.{Host}
use cliot.World.{World, record_simple}
use cliot.Flow.FilePath.{◌//◌, filename, remove_filename}
use Order.{compare_pairs, compare}

-- An entry of std::filesystem::directory_iterator.
pub record DirectoryEntry : Type 0 where
  pub path : String
  pub is_regular_file : Bool

-- std::set::emplace: nothing happens if an equivalent element is there.
pub emplace_path : String × String → List (String × String) → List (String × String)
emplace_path x [] = x ∷ []
emplace_path x (y ∷ rest) =
    let later = emplace_path x rest in
    elim (compare_pairs x y) [
      | Ordering.lt ↦ x ∷ y ∷ rest
      | Ordering.eq ↦ y ∷ rest
      | Ordering.gt ↦ y ∷ later
    ]

-- std::map::emplace, by the key.
pub emplace_flow : String × String → List (String × String) → List (String × String)
emplace_flow x [] = x ∷ []
emplace_flow x (y ∷ rest) =
    let later = emplace_flow x rest in
    elim (compare x.0 y.0) [
      | Ordering.lt ↦ x ∷ y ∷ rest
      | Ordering.eq ↦ y ∷ rest
      | Ordering.gt ↦ y ∷ later
    ]

-- s.find(part) != npos
pub contains_text : String → String → Bool
contains_text part String.[] = starts_with String.[] part
contains_text part (String.◌∷◌ c s) = starts_with (String.◌∷◌ c s) part || contains_text part s

-- The loop of the private `crawl` over the files of one flow.
pub add_files : String → List DirectoryEntry → List (String × String) → List (String × String)
add_files flow_name [] paths = paths
add_files flow_name (entry ∷ rest) paths = add_files flow_name rest (
    if not entry.is_regular_file || starts_with (filename entry.path) "."
    then paths
    else emplace_path (flow_name, entry.path) paths)

-- The second loop of `crawl`.
pub collect : String → List (String × String) → List (String × String) → List (String × String)
collect filter [] flows = flows
collect filter ((flow_name, path) ∷ rest) flows = collect filter rest (
    if not (contains_text filter flow_name)
    then flows
    else if str_eq (filename path) "script.yaml"
    then emplace_flow (flow_name, remove_filename path) flows
    else flows)

-- The fields of the class, `paths` and `flows` as lists in the order of the set and the map.
pub record Crawler : Type 0 where
  path : String
  filter : String
  paths : List (String × String)
  flows : List (String × String)

abbrev new_crawler : String → String → Crawler
new_crawler path filter = record { path = path; filter = filter; paths = []; flows = [] }

-- `entries` gives what the iteration over a directory yields, or how it throws.
module _ (H : Host) (entries : String → Checked (List DirectoryEntry)) where
  open H use {json}
  open json use {Json}

  -- crawl(flow_path), with paths_ before and after.
  pub crawl_flow : String → List (String × String) → Exec (World Json) (List (String × String))
  crawl_flow flow_path paths =
      if starts_with (filename flow_path) "."
      then pure paths
      else (record_simple "DETECT FLOW" (filename flow_path)
          >> (checked other (entries flow_path) >>= λ files.
              pure (add_files (filename flow_path) files paths)))

  -- The first loop of `crawl`.
  pub crawl_flows :
      List DirectoryEntry → List (String × String) → Exec (World Json) (List (String × String))
  crawl_flows [] paths = pure paths
  crawl_flows (entry ∷ rest) paths = crawl_flow entry.path paths >>= λ more. crawl_flows rest more

  abbrev no_flows : String
  no_flows = "given path does not appear to be valid: missing 'flows' sub directory"

  pub crawl : String → String → Exec (World Json) (List (String × String))
  crawl path filter =
      let c = new_crawler path filter in
      if not (H.exists (c.path // "flows"))
      then throw (other no_flows)
      else (checked other (entries (c.path // "flows")) >>= λ dirs.
          crawl_flows dirs c.paths >>= λ paths. pure (collect c.filter paths c.flows))
