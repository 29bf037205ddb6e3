-- ===== src/Validation/Spec.antt =====
-- What the validator (src/validation/validator.cpp) is for: which responses conform to which
-- expectations, and which issues are to be reported of the others.
use cliot.Prelude.{String, ◌≡◌, Bool, true, false, ◌||◌, In}
use cliot.Json.{JsonLib}
use cliot.Reporting.Events.{Issue, no_match, not_equal, type_check}
use cliot.Validation.{
  full_path, nested_path, missing_key, passes, is_filter, filter_message, unequal_message,
}
use cliot.Validation.Issues.{issue}

module _ (J : JsonLib) where
  open J use {Json}

  abbrev pub skipped : Json → Bool
  skipped e = J.is_null e || J.empty e

  -- The response has everything that is expected of it.
  pub data Conforms : Json → Json → Type 0 where
    anything : {e incoming : Json} → skipped e ≡ true → Conforms e incoming
    members :
        {e incoming : Json}
        → skipped e ≡ false
        → J.is_object e ≡ true
        → ((k : String) (v : Json) → In (k, v) (J.items e) → J.contains incoming k ≡ true)
        → ((k : String) (v : Json) → In (k, v) (J.items e) → Conforms v (J.at incoming k))
        → Conforms e incoming
    filter :
        {e incoming : Json}
        → skipped e ≡ false
        → J.is_object e ≡ false
        → is_filter J e ≡ true
        → passes J (J.as_string e) incoming ≡ true
        → Conforms e incoming
    value :
        {e incoming : Json}
        → skipped e ≡ false
        → J.is_object e ≡ false
        → is_filter J e ≡ false
        → J.same e incoming ≡ true
        → Conforms e incoming

  -- `Reports path e incoming d`: at some place below `path`, the expectation is not met, and `d`
  -- says so.
  pub data Reports : String → Json → Json → Issue → Type 0 where
    missing :
        {path : String} {e incoming : Json} {d : Issue}
        → skipped e ≡ false
        → J.is_object e ≡ true
        → (k : String) (v : Json) → In (k, v) (J.items e)
        → J.contains incoming k ≡ false
        → d ≡ issue no_match (full_path path k) missing_key
        → Reports path e incoming d
    member :
        {path : String} {e incoming : Json} {d : Issue}
        → skipped e ≡ false
        → J.is_object e ≡ true
        → (k : String) (v : Json) → In (k, v) (J.items e)
        → J.contains incoming k ≡ true
        → Reports (nested_path path k) v (J.at incoming k) d
        → Reports path e incoming d
    filter :
        {path : String} {e incoming : Json} {d : Issue}
        → skipped e ≡ false
        → J.is_object e ≡ false
        → is_filter J e ≡ true
        → passes J (J.as_string e) incoming ≡ false
        → d ≡ issue type_check path (filter_message J e incoming)
        → Reports path e incoming d
    value :
        {path : String} {e incoming : Json} {d : Issue}
        → skipped e ≡ false
        → J.is_object e ≡ false
        → is_filter J e ≡ false
        → J.same e incoming ≡ false
        → d ≡ issue not_equal path (unequal_message J e incoming)
        → Reports path e incoming d
