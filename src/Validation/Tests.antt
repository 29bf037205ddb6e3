-- ===== src/Validation/Tests.antt =====
-- The validator (src/validation/validator.cpp) on sample documents.
use cliot.Prelude.{
  arith, ap, sym, ◌↔◌, ◌+++◌, is_empty, ◌&&◌, ◌++◌, String, ◌≡◌, refl, true, false, some, [], ◌∷◌,
  In, here, there,
}
use cliot.Reporting.Events.{no_match, type_check}
use cliot.Samples.Tree.{Tree, null, number, text, array, object, nil, cons, end, field}
use cliot.Samples.Values.{sample, sample_laws}
use cliot.Validation.{
  Validator, fresh, validate, passes, do_validate, validate_items, is_filter, add_issue,
  check_equal, check_filter, nested_path, full_path,
}
use cliot.Validation.Issues.{issue, all_issues, with_issues, validate-issues}
use cliot.Validation.Decimal.{decimal_12}
use cliot.Validation.Filters.{validate-array_size}
use cliot.Validation.Conforms.{Verdict, validate-Verdict, IsPlain, plain, validate_self}

abbrev expected : Tree
expected = object (
    field "result" (object (field "id" (text "$uint") (field "ok" (text "yes") end)))
      (field "extra" (number 1) end))

abbrev received : Tree
received =
    object (field "result" (object (field "id" (text "7") (field "ok" (text "yes") end))) end)

run_on_sample :
    validate sample fresh expected received
    ≡ some (
      (
        false,
        issue type_check "result.id" "\"$uint\" is not met for value '\"7\"'"
            ∷ issue no_match "extra" "Key is not present in the response"
            ∷ [],
      ),
      record {
        issues =
            issue type_check "result.id" "\"$uint\" is not met for value '\"7\"'"
            ∷ issue no_match "extra" "Key is not present in the response"
            ∷ [];
        is_valid = false;
      },
    )
unfolding validate do_validate validate_items is_filter add_issue check_equal check_filter passes
    nested_path full_path
run_on_sample = refl

validate-Verdict_example :
    Verdict sample expected received (validate sample fresh expected received)
validate-Verdict_example = validate-Verdict sample expected received

exact : Tree
exact = object (field "status" (text "done") end)

exact-IsPlain : IsPlain sample exact
unfolding exact is_filter
exact-IsPlain = plain {e = exact} refl inside
  where
    leaf : IsPlain sample (text "done")
    leaf = plain {e = text "done"} refl (λ k v m. elim m [ ])

    inside :
        (k : String) (v : Tree)
        → In {A = String × Tree} (k, v) (("status", text "done") ∷ [])
        → IsPlain sample v
    inside k v here = leaf
    inside k v (there m) = elim m [ ]

validate_self_example : validate sample fresh exact exact ≡ some ((true, []), fresh)
validate_self_example = validate_self sample sample_laws exact exact-IsPlain

-- A validator that has already reported an issue, as in a second run.
abbrev used : Validator
used = record {
  issues = issue no_match "id" "Key is not present in the response" ∷ [];
  is_valid = false;
}

validate-issues_example :
    validate sample used exact exact
    ≡ some (
      (
        used.is_valid && is_empty (all_issues sample exact exact),
        used.issues ++ all_issues sample exact exact,
      ),
      with_issues used (all_issues sample exact exact),
    )
validate-issues_example = validate-issues sample used exact exact

abbrev dozen : Tree
dozen = array (
    cons null (
      cons null (
        cons null (
          cons null (
            cons null (
              cons null
                (cons null (cons null (cons null (cons null (cons null (cons null nil))))))))))))

validate-array_size_example :
    (validate sample fresh (text "$array=12") dozen ≡ some ((true, []), fresh))
    ↔ ((sample.is_array dozen ≡ true) × (sample.size dozen ≡ 12))
validate-array_size_example =
    validate-array_size sample 12 (text "$array=12") dozen (omega arith) refl
      (ap (λ d. "$array=" +++ d) (sym decimal_12)) refl refl
