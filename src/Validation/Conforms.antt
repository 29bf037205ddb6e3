-- ===== src/Validation/Conforms.antt =====
-- The validator (src/validation/validator.cpp) reports exactly what the specification says.
use cliot.Prelude.{
  ℕ, zero, suc, ◌<◌, String, ◌≡◌, refl, Bool, true, false, Option, none, some, List, [], inl, inr,
  ◌↔◌, ◌∷◌, arith, is_empty, In, In-one, not-In-nil, nil_of_none, not-In-is_empty, here, Bool-cases,
  if◌then◌else◌,
}
use cliot.Json.{JsonLib, JsonLaws}
use cliot.Reporting.Events.{Issue, no_match, not_equal, type_check}
use cliot.Validation.{
  Validator, fresh, full_path, nested_path, missing_key, passes, is_filter, filter_message,
  unequal_message, validate,
}
use cliot.Validation.Spec.{Conforms, Reports, skipped}
use cliot.Validation.Entries.{
  Entry, Entry-of_In, In-of_missing, In-of_member, issues-members, issues-filter, issues-value,
  depth_of_In,
}
use cliot.Validation.Issues.{issue, issues, all_issues, validate-issues}

module _ (J : JsonLib) where
  open J use {Json}

  Reports-of_entry :
      (fuel : ℕ)
      → ((path : String) (e incoming : Json) (d : Issue)
          → In d (issues J fuel path e incoming)
          → Reports J path e incoming d)
      → (path : String) (e incoming : Json) (d : Issue) → skipped J e ≡ false
      → J.is_object e ≡ true
      → Entry J (issues J fuel) path (J.items e) incoming d
      → Reports J path e incoming d
  Reports-of_entry fuel ih path e incoming d s o (k, v, place, inl (c, q)) =
      Reports.missing s o k v place c q
  Reports-of_entry fuel ih path e incoming d s o (k, v, place, inr (c, m)) =
      Reports.member s o k v place c (ih (nested_path path k) v (J.at incoming k) d m)

  Reports-of_filter :
      (path : String) (e incoming : Json) (d : Issue) (b : Bool)
      → passes J (J.as_string e) incoming ≡ b
      → skipped J e ≡ false
      → J.is_object e ≡ false
      → is_filter J e ≡ true
      → In d (if b then [] else issue type_check path (filter_message J e incoming) ∷ [])
      → Reports J path e incoming d
  Reports-of_filter path e incoming d true p s o f m = elim m [ ]
  Reports-of_filter path e incoming d false p s o f m = Reports.filter s o f p (In-one m)

  Reports-of_value :
      (path : String) (e incoming : Json) (d : Issue) (b : Bool)
      → J.same e incoming ≡ b
      → skipped J e ≡ false
      → J.is_object e ≡ false
      → is_filter J e ≡ false
      → In d (if b then [] else issue not_equal path (unequal_message J e incoming) ∷ [])
      → Reports J path e incoming d
  Reports-of_value path e incoming d true p s o f m = elim m [ ]
  Reports-of_value path e incoming d false p s o f m = Reports.value s o f p (In-one m)

  pub Reports-of_In :
      (fuel : ℕ) (path : String) (e incoming : Json) (d : Issue)
      → In d (issues J fuel path e incoming)
      → Reports J path e incoming d
  unfolding issues
  Reports-of_In zero path e incoming d m = elim m [ ]
  Reports-of_In (suc fuel) path e incoming d m = elim (Bool-cases (skipped J e)) [
    | inl s ↦ absurd (not-In-nil (rw s at m))
    | inr s ↦ elim (Bool-cases (J.is_object e)) [
      | inl o ↦
          Reports-of_entry fuel (Reports-of_In fuel) path e incoming d s o
            (Entry-of_In J (issues J fuel) path (J.items e) incoming d (rw (s, o) at m))
      | inr o ↦ elim (Bool-cases (is_filter J e)) [
        | inl f ↦ Reports-of_filter path e incoming d _ refl s o f (rw (s, o, f) at m)
        | inr f ↦ Reports-of_value path e incoming d _ refl s o f (rw (s, o, f) at m)
      ]
    ]
  ]

  pub In-of_Reports :
      (fuel : ℕ) {path : String} {e incoming : Json} {d : Issue}
      → J.depth e < fuel
      → Reports J path e incoming d
      → In d (issues J fuel path e incoming)
  In-of_Reports zero h r = elim h [ ]
  In-of_Reports (suc fuel) {path} {e} {incoming} {d} h (Reports.missing s o k v m c q) =
      rw (q, issues-members J fuel path e incoming s o)
        (In-of_missing J (issues J fuel) path (J.items e) incoming k v m c)
  In-of_Reports (suc fuel) {path} {e} {incoming} {d} h (Reports.member s o k v m c r) =
      rw (issues-members J fuel path e incoming s o) (
        In-of_member J (issues J fuel) path (J.items e) incoming k v d m c
          (In-of_Reports fuel (depth_of_In J fuel e k v h m) r))
  In-of_Reports (suc fuel) {path} {e} {incoming} {d} h (Reports.filter s o f p q) =
      rw (q, issues-filter J fuel path e incoming s o f, p) here
  In-of_Reports (suc fuel) {path} {e} {incoming} {d} h (Reports.value s o f p q) =
      rw (q, issues-value J fuel path e incoming s o f, p) here

  not-Reports :
      {path : String} {e incoming : Json} {d : Issue}
      → Reports J path e incoming d
      → Conforms J e incoming
      → ⊥
  not-Reports (Reports.missing s o k v m c q) (Conforms.anything s') = cc
  not-Reports (Reports.missing s o k v m c q) (Conforms.members s' o' has nested) = cc (has k v m)
  not-Reports (Reports.missing s o k v m c q) (Conforms.filter s' o' f p) = cc
  not-Reports (Reports.missing s o k v m c q) (Conforms.value s' o' f p) = cc
  not-Reports (Reports.member s o k v m c r) (Conforms.anything s') = cc
  not-Reports (Reports.member s o k v m c r) (Conforms.members s' o' has nested) =
      not-Reports r (nested k v m)
  not-Reports (Reports.member s o k v m c r) (Conforms.filter s' o' f p) = cc
  not-Reports (Reports.member s o k v m c r) (Conforms.value s' o' f p) = cc
  not-Reports (Reports.filter s o f p q) (Conforms.anything s') = cc
  not-Reports (Reports.filter s o f p q) (Conforms.members s' o' has nested) = cc
  not-Reports (Reports.filter s o f p q) (Conforms.filter s' o' f' p') = cc
  not-Reports (Reports.filter s o f p q) (Conforms.value s' o' f' p') = cc
  not-Reports (Reports.value s o f p q) (Conforms.anything s') = cc
  not-Reports (Reports.value s o f p q) (Conforms.members s' o' has nested) = cc
  not-Reports (Reports.value s o f p q) (Conforms.filter s' o' f' p') = cc
  not-Reports (Reports.value s o f p q) (Conforms.value s' o' f' p') = cc

  pub nil_of_Conforms :
      (fuel : ℕ) (path : String) (e incoming : Json)
      → Conforms J e incoming
      → issues J fuel path e incoming ≡ []
  nil_of_Conforms fuel path e incoming c =
      nil_of_none _ (λ d m. not-Reports (Reports-of_In fuel path e incoming d m) c)

  pub Conforms-of_nil :
      (fuel : ℕ) (path : String) (e incoming : Json)
      → J.depth e < fuel
      → ((d : Issue) → In d (issues J fuel path e incoming) → ⊥)
      → Conforms J e incoming
  Conforms-of_nil zero path e incoming h nothing = elim h [ ]
  Conforms-of_nil (suc fuel) path e incoming h nothing = elim (Bool-cases (skipped J e)) [
    | inl s ↦ Conforms.anything s
    | inr s ↦ elim (Bool-cases (J.is_object e)) [
      | inl o ↦
          let present : (k : String) (v : Json)
              → In (k, v) (J.items e)
              → J.contains incoming k ≡ true =
            λ k v m. elim (Bool-cases (J.contains incoming k)) [
              | inl c ↦ c
              | inr c ↦ absurd (
                  nothing (issue no_match (full_path path k) missing_key)
                    (In-of_Reports (suc fuel) h (Reports.missing s o k v m c refl)))
            ] in
          Conforms.members s o present (λ k v m.
            Conforms-of_nil fuel (nested_path path k) v (J.at incoming k)
              (depth_of_In J fuel e k v h m)
              (λ d i. nothing d (
                rw (issues-members J fuel path e incoming s o) (
                  In-of_member J (issues J fuel) path (J.items e) incoming k v d m (present k v m)
                    i))))
      | inr o ↦ elim (Bool-cases (is_filter J e)) [
        | inl f ↦ elim (Bool-cases (passes J (J.as_string e) incoming)) [
          | inl p ↦ Conforms.filter s o f p
          | inr p ↦ absurd (
              nothing (issue type_check path (filter_message J e incoming))
                (In-of_Reports (suc fuel) h (Reports.filter s o f p refl)))
        ]
        | inr f ↦ elim (Bool-cases (J.same e incoming)) [
          | inl p ↦ Conforms.value s o f p
          | inr p ↦ absurd (
              nothing (issue not_equal path (unequal_message J e incoming))
                (In-of_Reports (suc fuel) h (Reports.value s o f p refl)))
        ]
      ]
    ]
  ]

  -- What a run's result says of the expectations and the response.
  abbrev pub Verdict : Json → Json → Option ((Bool × List Issue) × Validator) → Type 0
  Verdict e incoming none = ⊥
  Verdict e incoming (some ((valid, is), v)) =
      ((valid ≡ true) ↔ Conforms J e incoming) × ((d : Issue) → In d is ↔ Reports J "" e incoming d)

  is_empty-of_Conforms :
      (e incoming : Json) → (is_empty (all_issues J e incoming) ≡ true) ↔ Conforms J e incoming
  is_empty-of_Conforms e incoming = (
    λ h.
        Conforms-of_nil (suc (J.depth e)) "" e incoming (omega arith)
          (λ d. not-In-is_empty (all_issues J e incoming) h),
    λ c. rw (nil_of_Conforms (suc (J.depth e)) "" e incoming c),
  )

  -- A run of a new validator returns; it says "valid" exactly when the response conforms to the
  -- expectations, and its issues are exactly the failures that the specification names.
  pub validate-Verdict : (e incoming : Json) → Verdict e incoming (validate J fresh e incoming)
  validate-Verdict e incoming = rw (validate-issues J fresh e incoming) (
    is_empty-of_Conforms e incoming,
    λ d. (
      Reports-of_In (suc (J.depth e)) "" e incoming d,
      In-of_Reports (suc (J.depth e)) (omega arith),
    ),
  )

  -- No expectation of the tree is a "$" filter.
  pub data IsPlain : Json → Type 0 where
    plain :
        {e : Json}
        → is_filter J e ≡ false
        → ((k : String) (v : Json) → In (k, v) (J.items e) → IsPlain v)
        → IsPlain e

  module _ (laws : JsonLaws J) where
    Conforms-self : {e : Json} → IsPlain e → Conforms J e e
    Conforms-self {e} (plain f nested) = elim (Bool-cases (skipped J e)) [
      | inl s ↦ Conforms.anything s
      | inr s ↦ elim (Bool-cases (J.is_object e)) [
        | inl o ↦
            Conforms.members s o (laws.contains_item e)
              (λ k v m. rw (laws.at_item e k v m) (Conforms-self (nested k v m)))
        | inr o ↦ Conforms.value s o f (laws.same_refl e)
      ]
    ]

    -- Where JSON values obey the documented laws of objects and of equality: a response that is the
    -- expected document itself passes, if the document has no filters.
    pub validate_self : (e : Json) → IsPlain e → validate J fresh e e ≡ some ((true, []), fresh)
    validate_self e p =
        rw (validate-issues J fresh e e, nil_of_Conforms (suc (J.depth e)) "" e e (Conforms-self p))
