-- ===== src/Validation/Issues.antt =====
-- The issues of a comparison as a plain list, and the validator that accumulates them.
use cliot.Prelude.{
  ℕ, zero, suc, ◌<◌, String, ◌≡◌, ap, sym, ◌∙◌, Bool, ◌&&◌, ◌||◌, not, some, List, [], ◌∷◌, ◌++◌,
  append-nil, append_assoc, arith, is_empty, All, Bool-cases, inl, inr, if◌then◌else◌,
}
use cliot.Json.{JsonLib}
use cliot.Reporting.Events.{Issue, IssueType, no_match, not_equal, type_check}
use cliot.Validation.{
  Validator, add_issue, full_path, nested_path, missing_key, passes, is_filter, filter_message,
  unequal_message, check_filter, check_equal, validate_items, do_validate, validate,
}

abbrev pub issue : IssueType → String → String → Issue
issue type path message = record { type = type; path = path; message = message; detail = "" }

-- The validator after some issues more.
abbrev pub with_issues : Validator → List Issue → Validator
with_issues v is = record { issues = v.issues ++ is; is_valid = v.is_valid && is_empty is }

&&-assoc : (a b c : Bool) → ((a && b) && c) ≡ (a && (b && c))
&&-assoc a b c = ground arith

is_empty-append {ℓ} :
    {A : Type ℓ} (xs ys : List A) → is_empty (xs ++ ys) ≡ (is_empty xs && is_empty ys)
is_empty-append [] ys = ground arith
is_empty-append (x ∷ xs) ys = ground arith

with_issues-append :
    (v : Validator) (xs ys : List Issue)
    → with_issues (with_issues v xs) ys ≡ with_issues v (xs ++ ys)
with_issues-append v xs ys = simp (append_assoc, is_empty-append, &&-assoc)

with_issues-nil : (v : Validator) → with_issues v [] ≡ v
with_issues-nil v = ground (arith, append-nil v.issues)

with_issues-one :
    (v : Validator) (t : IssueType) (p m : String)
    → add_issue v t p m ≡ with_issues v (issue t p m ∷ [])
unfolding add_issue
with_issues-one v t p m = ground arith

module _ (J : JsonLib) where
  open J use {Json}

  abbrev pub item_issues :
      (String → Json → Json → List Issue) → String → List (String × Json) → Json → List Issue
  item_issues nested path [] incoming = []
  item_issues nested path ((key, expected) ∷ rest) incoming =
      (if not (J.contains incoming key)
        then issue no_match (full_path path key) missing_key ∷ []
        else nested (nested_path path key) expected (J.at incoming key))
      ++ item_issues nested path rest incoming

  unfoldable pub issues : ℕ → String → Json → Json → List Issue
  issues zero path e incoming = []
  issues (suc fuel) path e incoming =
      if J.is_null e || J.empty e
      then []
      else if J.is_object e
      then item_issues (issues fuel) path (J.items e) incoming
      else if is_filter J e
      then (if passes J (J.as_string e) incoming
          then []
          else issue type_check path (filter_message J e incoming) ∷ [])
      else (if J.same e incoming
          then []
          else issue not_equal path (unequal_message J e incoming) ∷ [])

  abbrev Agrees : ℕ → Type 0
  Agrees fuel =
      (v : Validator) (path : String) (e incoming : Json)
      → J.depth e < fuel
      → do_validate J fuel v path e incoming ≡ some (with_issues v (issues fuel path e incoming))

  validate_items-issues :
      (fuel : ℕ)
      → Agrees fuel
      → (kvs : List (String × Json)) (v : Validator) (path : String) (incoming : Json)
      → All (λ kv. J.depth kv.1 < fuel) kvs
      → validate_items J (do_validate J fuel) v path kvs incoming
        ≡ some (with_issues v (item_issues (issues fuel) path kvs incoming))
  unfolding validate_items
  validate_items-issues fuel ih [] v path incoming h = ap some (sym (with_issues-nil v))
  validate_items-issues fuel ih ((k, e) ∷ rest) v path incoming h =
      elim (Bool-cases (J.contains incoming k)) [
        | inl there ↦
            rw (there, ih v (nested_path path k) e (J.at incoming k) h.0)
              (validate_items-issues fuel ih rest _ path incoming h.1
                ∙ ap some (with_issues-append v _ _))
        | inr missing ↦
            rw (missing, with_issues-one v no_match (full_path path k) missing_key)
              (validate_items-issues fuel ih rest _ path incoming h.1
                ∙ ap some (with_issues-append v _ _))
      ]

  depths_below :
      (fuel : ℕ) (e : Json) (kvs : List (String × Json))
      → J.depth e < suc fuel
      → All (λ kv. J.depth kv.1 < J.depth e) kvs
      → All (λ kv. J.depth kv.1 < fuel) kvs
  depths_below fuel e [] h b = tt
  depths_below fuel e (kv ∷ kvs) h b = (omega arith, depths_below fuel e kvs h b.1)

  check_filter-issues :
      (v : Validator) (path : String) (e incoming : Json)
      → check_filter J v path e incoming
        ≡ with_issues v (
            if passes J (J.as_string e) incoming
            then []
            else issue type_check path (filter_message J e incoming) ∷ [])
  unfolding check_filter
  check_filter-issues v path e incoming =
      ground
        (arith, with_issues-nil v, with_issues-one v type_check path (filter_message J e incoming))

  check_equal-issues :
      (v : Validator) (path : String) (e incoming : Json)
      → check_equal J v path e incoming
        ≡ with_issues v (
            if J.same e incoming
            then []
            else issue not_equal path (unequal_message J e incoming) ∷ [])
  unfolding check_equal
  check_equal-issues v path e incoming =
      ground
        (arith, with_issues-nil v, with_issues-one v not_equal path (unequal_message J e incoming))

  -- With more fuel than the expectations are deep, the comparison returns, and it adds exactly the
  -- issues of the plain list to the validator that it is run on.
  pub do_validate-issues : (fuel : ℕ) → Agrees fuel
  unfolding do_validate issues
  do_validate-issues zero v path e incoming h = elim h [ ]
  do_validate-issues (suc fuel) v path e incoming h = ground (
    arith,
    with_issues-nil v,
    validate_items-issues fuel (do_validate-issues fuel) (J.items e) v path incoming
        (depths_below fuel e (J.items e) h (J.items_depth e)),
    check_filter-issues v path e incoming,
    check_equal-issues v path e incoming,
  )

  -- The issues of a whole comparison.
  abbrev pub all_issues : Json → Json → List Issue
  all_issues e incoming = issues (suc (J.depth e)) "" e incoming

  -- A validator keeps the issues of its earlier runs and stays invalid after a failure: a run returns
  -- the issues so far followed by its own, and is valid only if all runs so far were.
  pub validate-issues :
      (v : Validator) (e incoming : Json)
      → let is = all_issues e incoming in
        validate J v e incoming
        ≡ some ((v.is_valid && is_empty is, v.issues ++ is), with_issues v is)
  unfolding validate
  validate-issues v e incoming =
      rw (do_validate-issues (suc (J.depth e)) v "" e incoming (omega arith))
