-- ===== src/Validation.antt =====
-- Validator (src/validation/validator.cpp): compares a response with the expectations.
pub mod Atoi
pub mod Decimal
pub mod Filters
pub mod Issues
pub mod Spec
pub mod Entries
pub mod Conforms
mod Tests
use Prim.Native.String.{len, slice}
use cliot.Prelude.{
  ℕ, zero, suc, String, ◌+++◌, Bool, true, false, ◌&&◌, ◌||◌, not, Option, none, some, List, [],
  ◌∷◌, ◌++◌, str_eq, starts_with, if◌then◌else◌, ◌==◌, ◌>>=◌,
}
use cliot.Json.{JsonLib}
use cliot.Reporting.Events.{Issue, IssueType, no_match, not_equal, type_check}
use Atoi.{atoi_size}

-- The fields of the class.
pub record Validator : Type 0 where
  pub issues : List Issue
  pub is_valid : Bool

abbrev pub fresh : Validator
fresh = record { issues = []; is_valid = true }

pub add_issue : Validator → IssueType → String → String → Validator
add_issue v type path message = record {
  issues = v.issues ++ record { type = type; path = path; message = message; detail = "" } ∷ [];
  is_valid = false;
}

-- The lambda that names a missing key.
unfoldable pub full_path : String → String → String
full_path path key = if str_eq path "" then key else path +++ "." +++ key

-- The path of a nested call, `path + (path.empty() ? "" : ".") + key`.
unfoldable pub nested_path : String → String → String
nested_path path key = (path +++ (if str_eq path "" then "" else ".")) +++ key

abbrev pub missing_key : String
missing_key = "Key is not present in the response"

module _ (J : JsonLib) where
  open J use {Json}

  -- The filters, in the order of the tests.
  unfoldable pub passes : String → Json → Bool
  passes val incoming =
      if str_eq val "$bool"
      then J.is_boolean incoming
      else if str_eq val "$string"
      then J.is_string incoming
      else if starts_with val "$array="
      then J.is_array incoming && J.size incoming == atoi_size (slice val 7 (len val))
      else if str_eq val "$array"
      then J.is_array incoming
      else if str_eq val "$double"
      then J.is_number_float incoming
      else if str_eq val "$int"
      then J.is_number_integer incoming
      else if str_eq val "$uint"
      then J.is_number_unsigned incoming
      else if str_eq val "$object"
      then J.is_object incoming
      else J.same (J.of_string val) incoming

  unfoldable pub is_filter : Json → Bool
  is_filter e = J.is_string e && starts_with (J.as_string e) "$"

  abbrev pub filter_message : Json → Json → String
  filter_message e incoming = J.print e +++ " is not met for value '" +++ J.print incoming +++ "'"

  abbrev pub unequal_message : Json → Json → String
  unequal_message e incoming = J.print e +++ " != " +++ J.print incoming

  pub check_filter : Validator → String → Json → Json → Validator
  check_filter v path e incoming =
      if passes (J.as_string e) incoming
      then v
      else add_issue v type_check path (filter_message e incoming)

  pub check_equal : Validator → String → Json → Json → Validator
  check_equal v path e incoming =
      if J.same e incoming then v else add_issue v not_equal path (unequal_message e incoming)

  -- The loop over `expectations.items()`; `nested` is the recursive call.
  pub validate_items :
      (Validator → String → Json → Json → Option Validator)
      → Validator
      → String
      → List (String × Json)
      → Json
      → Option Validator
  validate_items nested v path [] incoming = some v
  validate_items nested v path ((key, expected) ∷ rest) incoming =
      (if not (J.contains incoming key)
        then some (add_issue v no_match (full_path path key) missing_key)
        else nested v (nested_path path key) expected (J.at incoming key))
      >>= λ v'. validate_items nested v' path rest incoming

  -- The first argument bounds the recursion; `none` means that it was too small.
  pub do_validate : ℕ → Validator → String → Json → Json → Option Validator
  do_validate zero v path e incoming = none
  do_validate (suc fuel) v path e incoming =
      if J.is_null e || J.empty e
      then some v
      else if J.is_object e
      then validate_items (do_validate fuel) v path (J.items e) incoming
      else if is_filter e
      then some (check_filter v path e incoming)
      else some (check_equal v path e incoming)

  -- `validate`: the pair of the result, and the state that the object is left in.
  pub validate : Validator → Json → Json → Option ((Bool × List Issue) × Validator)
  validate v e incoming =
      do_validate (suc (J.depth e)) v "" e incoming >>= λ v'. some ((v'.is_valid, v'.issues), v')
