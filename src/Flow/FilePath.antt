-- ===== src/Flow/FilePath.antt =====
-- What the program uses of std::filesystem::path, on POSIX paths.
pub mod Parents
use Prim.Native.Char.{code}
use cliot.Prelude.{String, ◌+++◌, ◌≡◌, refl, ◌&&◌, str_eq, starts_with, ◌==◌, if◌then◌else◌}

-- The text up to and with the last '/', and the rest.
unfoldable pub split : String → String × String
split String.[] = ("", "")
split (String.◌∷◌ c s) =
    let (dir, file) = split s in
    if str_eq dir ""
    then (if code c == b'/' then (String.◌∷◌ c "", file) else ("", String.◌∷◌ c file))
    else (String.◌∷◌ c dir, file)

-- path::filename
unfoldable pub filename : String → String
unfolding split
filename p = (split p).1

-- path::remove_filename
unfoldable pub remove_filename : String → String
unfolding split
remove_filename p = (split p).0

unfoldable pub strip_separators : String → String
strip_separators String.[] = ""
strip_separators (String.◌∷◌ c s) =
    let rest = strip_separators s in
    if str_eq rest "" && code c == b'/' then "" else String.◌∷◌ c rest

-- path::parent_path: without the file name and the separators before it, but for a root directory.
unfoldable pub parent_path : String → String
unfolding remove_filename strip_separators
parent_path p =
    let dir = remove_filename p in
    let parent = strip_separators dir in
    if str_eq parent "" then (if str_eq dir "" then "" else "/") else parent

-- path::operator/
infixl 70 ◌//◌
unfoldable pub ◌//◌ : String → String → String
unfolding filename
p // q =
    if starts_with q "/" then q else if str_eq (filename p) "" then p +++ q else p +++ "/" +++ q

paths :
    (parent_path "data/flows/a/" ≡ "data/flows/a")
    × (parent_path "data/flows/a" ≡ "data/flows")
    × (parent_path "a" ≡ "")
    × (parent_path "/a" ≡ "/")
    × (remove_filename "data/flows/a/script.yaml" ≡ "data/flows/a/")
    × ("data/flows/a/" // "x" ≡ "data/flows/a/x")
    × ("data/flows" // "x" ≡ "data/flows/x")
    × ("data" // "/x" ≡ "/x")
unfolding parent_path ◌//◌
paths = (refl, refl, refl, refl, refl, refl, refl, refl)
