-- ===== src/Validation/Entries.antt =====
-- The issues of one object's entries, and of each kind of expectation
-- (src/validation/validator.cpp).
use cliot.Prelude.{
  ℕ, suc, ◌<◌, String, ◌≡◌, true, false, not, List, [], ◌⊎◌, inl, inr, ◌∷◌, arith, In, In-one,
  All-In, here, there, In-append, In-append_left, In-append_right, Bool-cases, if◌then◌else◌,
}
use cliot.Json.{JsonLib}
use cliot.Reporting.Events.{Issue, no_match, not_equal, type_check}
use cliot.Validation.{
  full_path, nested_path, missing_key, passes, is_filter, filter_message, unequal_message,
}
use cliot.Validation.Spec.{skipped}
use cliot.Validation.Issues.{issue, item_issues, issues}

module _ (J : JsonLib) where
  open J use {Json}

  -- What one entry of the expectations contributes.
  abbrev pub Entry :
      (String → Json → Json → List Issue) → String → List (String × Json) → Json → Issue → Type 0
  Entry nested path kvs incoming d =
      (k : String) × (v : Json) × In (k, v) kvs
      × (((J.contains incoming k ≡ false) × (d ≡ issue no_match (full_path path k) missing_key))
          ⊎ ((J.contains incoming k ≡ true)
              × In d (nested (nested_path path k) v (J.at incoming k))))

  pub depth_of_In :
      (fuel : ℕ) (e : Json) (k : String) (v : Json)
      → J.depth e < suc fuel
      → In (k, v) (J.items e)
      → J.depth v < fuel
  depth_of_In fuel e k v h m =
      let b : J.depth v < J.depth e =
        All-In (λ kv. J.depth kv.1 < J.depth e) (J.items e) (J.items_depth e) m in
      omega arith

  module _ (nested : String → Json → Json → List Issue) (path : String) where
    Entry-of_head :
        (kvs : List (String × Json)) (incoming : Json) (d : Issue) (k : String) (v : Json)
        → In d (
            if not (J.contains incoming k)
            then issue no_match (full_path path k) missing_key ∷ []
            else nested (nested_path path k) v (J.at incoming k))
        → Entry nested path ((k, v) ∷ kvs) incoming d
    Entry-of_head kvs incoming d k v m = elim (Bool-cases (J.contains incoming k)) [
      | inl e ↦ (k, v, here, inr (e, rw e at m))
      | inr e ↦ (k, v, here, inl (e, In-one (rw e at m)))
    ]

    pub Entry-of_In :
        (kvs : List (String × Json)) (incoming : Json) (d : Issue)
        → In d (item_issues J nested path kvs incoming)
        → Entry nested path kvs incoming d
    Entry-of_In [] incoming d m = elim m [ ]
    Entry-of_In ((k, v) ∷ kvs) incoming d m =
        elim (In-append _ (item_issues J nested path kvs incoming) m) [
          | inl first ↦ Entry-of_head kvs incoming d k v first
          | inr rest ↦
              let (k', v', place, why) = Entry-of_In kvs incoming d rest in
              (k', v', there place, why)
        ]

    pub In-of_missing :
        (kvs : List (String × Json)) (incoming : Json) (k : String) (v : Json)
        → In (k, v) kvs
        → J.contains incoming k ≡ false
        → In
            (issue no_match (full_path path k) missing_key)
            (item_issues J nested path kvs incoming)
    In-of_missing [] incoming k v m e = elim m [ ]
    In-of_missing (kv ∷ kvs) incoming k v here e = rw e here
    In-of_missing (kv ∷ kvs) incoming k v (there m) e =
        In-append_right _ (In-of_missing kvs incoming k v m e)

    pub In-of_member :
        (kvs : List (String × Json)) (incoming : Json) (k : String) (v : Json) (d : Issue)
        → In (k, v) kvs
        → J.contains incoming k ≡ true
        → In d (nested (nested_path path k) v (J.at incoming k))
        → In d (item_issues J nested path kvs incoming)
    In-of_member [] incoming k v d m e h = elim m [ ]
    In-of_member (kv ∷ kvs) incoming k v d here e h = rw e (In-append_left _ h)
    In-of_member (kv ∷ kvs) incoming k v d (there m) e h =
        In-append_right _ (In-of_member kvs incoming k v d m e h)

  module _ (fuel : ℕ) (path : String) (e incoming : Json) where
    pub issues-skipped : skipped J e ≡ true → issues J (suc fuel) path e incoming ≡ []
    unfolding issues
    issues-skipped s = rw s

    pub issues-members :
        skipped J e ≡ false
        → J.is_object e ≡ true
        → issues J (suc fuel) path e incoming
          ≡ item_issues J (issues J fuel) path (J.items e) incoming
    unfolding issues
    issues-members s o = rw (s, o)

    pub issues-filter :
        skipped J e ≡ false
        → J.is_object e ≡ false
        → is_filter J e ≡ true
        → issues J (suc fuel) path e incoming ≡ (
            if passes J (J.as_string e) incoming
            then []
            else issue type_check path (filter_message J e incoming) ∷ [])
    unfolding issues
    issues-filter s o f = rw (s, o, f)

    pub issues-value :
        skipped J e ≡ false
        → J.is_object e ≡ false
        → is_filter J e ≡ false
        → issues J (suc fuel) path e incoming ≡ (
            if J.same e incoming
            then []
            else issue not_equal path (unequal_message J e incoming) ∷ [])
    unfolding issues
    issues-value s o f = rw (s, o, f)
