-- ===== src/Samples/Directories.antt =====
-- A sample data directory, with two flows and a hidden directory.
use cliot.Prelude.{String, true, false, ◌||◌, List, [], ◌∷◌, str_eq, if◌then◌else◌}
use cliot.Json.{Checked, value, fails}
use cliot.Host.{Host}
use cliot.Samples.Hosts.{host}
use cliot.Crawler.{DirectoryEntry}

abbrev pub site : Host
site = record host { exists = λ path. host.exists path || str_eq path "flows" }

abbrev pub directory : String → DirectoryEntry
directory path = record { path = path; is_regular_file = false }

abbrev pub file : String → DirectoryEntry
file path = record { path = path; is_regular_file = true }

abbrev pub entries : String → Checked (List DirectoryEntry)
entries path =
    if str_eq path "flows"
    then value (directory "flows/wrong" ∷ directory "flows/.git" ∷ directory "flows/hello" ∷ [])
    else if str_eq path "flows/hello"
    then value (file "flows/hello/script.yaml" ∷ file "flows/hello/ask.json" ∷ [])
    else if str_eq path "flows/wrong"
    then value (file "flows/wrong/script.yaml" ∷ [])
    else fails "cannot open directory"
