-- ===== src/Validation/Filters.antt =====
-- What the filter "$array=" with a number accepts (src/validation/validator.cpp).
use Prim.Native.String.{len, slice}
use text.Mathlib.TextPositions.{len-append, slice-append_left, slice-append_right}
use text.Mathlib.TextLemmas.{append_assoc}
use cliot.Prelude.{
  ℕ, ◌^◌, ◌<◌, ◌≡◌, ◌↔◌, refl, sym, ap, ◌∙◌, String, ◌+++◌, Bool, true, false, ◌&&◌, ◌||◌, ◌==◌, [],
  some, str_eq, starts_with, eq_iff, arith, Bool-cases, inl, inr,
}
use cliot.Json.{JsonLib}
use cliot.Validation.{fresh, passes, is_filter, check_filter, do_validate, validate, add_issue}
use cliot.Validation.Decimal.{decimal, atoi_size-decimal}

starts_with-append : (t s : String) → starts_with (t +++ s) t ≡ true
starts_with-append t s = ap (λ u. str_eq u t) (slice-append_left t s) ∙ (eq_iff t t).1 refl

slice_behind : (t s : String) → slice (t +++ s) (len t) (len (t +++ s)) ≡ s
slice_behind t s = ap (slice (t +++ s) (len t)) (len-append t s) ∙ slice-append_right t s

apart : true ≡ false → ⊥
apart e = cc

-- It is no text that does not begin in the same way.
differs : (t s u : String) → starts_with u t ≡ false → str_eq (t +++ s) u ≡ false
differs t s u h = elim (Bool-cases (str_eq (t +++ s) u)) [
  | inl e ↦ absurd (
      apart
        (sym (starts_with-append t s) ∙ ap (λ v. starts_with v t) ((eq_iff (t +++ s) u).0 e) ∙ h))
  | inr e ↦ e
]

true_and : (a : Bool) (m n : ℕ) → (a && m == n) ≡ true → (a ≡ true) × (m ≡ n)
true_and a m n h = ground arith

false_and : (a : Bool) (m n : ℕ) → (a && m == n) ≡ false → (a ≡ true) × (m ≡ n) → ⊥
false_and a m n h p = ground arith

module _ (J : JsonLib) where
  open J use {Json}

  passes-array_size :
      (n : ℕ) (incoming : Json)
      → passes J ("$array=" +++ decimal n) incoming ≡ (J.is_array incoming && J.size incoming == n)
  unfolding passes
  passes-array_size n incoming =
      rw
        (
          differs "$array=" (decimal n) "$bool" refl,
          differs "$array=" (decimal n) "$string" refl,
          starts_with-append "$array=" (decimal n),
          slice_behind "$array=" (decimal n),
          atoi_size-decimal n,
        )
        refl

  is_filter-array_size :
      (n : ℕ) (e : Json)
      → J.is_string e ≡ true
      → J.as_string e ≡ "$array=" +++ decimal n
      → is_filter J e ≡ true
  unfolding is_filter
  is_filter-array_size n e s t =
      rw (s, t)
        (ap (λ v. starts_with v "$") (append_assoc "$" "array=" (decimal n))
          ∙ starts_with-append "$" ("array=" +++ decimal n))

  -- An expectation with the text "$array=" and a number, in decimal, that an `int` can hold is met
  -- exactly by the arrays of that size: a new validator finds such a response valid, with no issues,
  -- and no other.
  pub validate-array_size :
      (n : ℕ) (e incoming : Json)
      → n < 2 ^ 31
      → J.is_string e ≡ true
      → J.as_string e ≡ "$array=" +++ decimal n
      → (J.is_null e || J.empty e) ≡ false
      → J.is_object e ≡ false
      → (validate J fresh e incoming ≡ some ((true, []), fresh))
        ↔ ((J.is_array incoming ≡ true) × (J.size incoming ≡ n))
  unfolding is_filter check_filter do_validate validate add_issue
  validate-array_size n e incoming small s t k o =
      elim (Bool-cases (J.is_array incoming && J.size incoming == n)) [
        | inl a ↦
            rw (k, o, is_filter-array_size n e s t, t, passes-array_size n incoming, a)
              (λ _. true_and (J.is_array incoming) (J.size incoming) n a, λ _. refl)
        | inr a ↦
            rw (k, o, is_filter-array_size n e s t, t, passes-array_size n incoming, a)
              (
                λ v. absurd cc,
                λ p. absurd (false_and (J.is_array incoming) (J.size incoming) n a p),
              )
      ]
