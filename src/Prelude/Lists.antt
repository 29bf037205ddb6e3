-- ===== src/Prelude/Lists.antt =====
-- Lists measured by native numbers, and predicates on lists.
use Prim.Native.Nat.{ℕ, suc, ◌+◌}
use mathlib.Core.Path.{◌≡◌, refl}
use mathlib.Core.Logic.{◌⊎◌, inl, inr}
use mathlib.Core.Bool.{Bool, true, false}
use mathlib.Core.List.{List, [], ◌∷◌, ◌++◌}
use native.Mathlib.Omega.{arith}

module _ {ℓ} {A : Type ℓ} where
  abbrev pub length : List A → ℕ
  length [] = 0
  length (x ∷ xs) = suc (length xs)

  abbrev pub is_empty : List A → Bool
  is_empty [] = true
  is_empty (x ∷ xs) = false

  pub length-append : (xs ys : List A) → length (xs ++ ys) ≡ length xs + length ys
  length-append [] ys = omega arith
  length-append (x ∷ xs) ys = omega (arith, length-append xs ys)

module _ {ℓ κ} {A : Type ℓ} where
  -- Every element has the property.
  abbrev pub All : (A → Type κ) → List A → Type κ
  All P [] = Unit
  All P (x ∷ xs) = P x × All P xs

  pub All-append : (P : A → Type κ) (xs ys : List A) → All P xs → All P ys → All P (xs ++ ys)
  All-append P [] ys front back = back
  All-append P (x ∷ xs) ys (h, front) back = (h, All-append P xs ys front back)

module _ {ℓ} {A : Type ℓ} where
  -- Membership with its position: an element may stand in a list in several ways.
  pub data In (x : A) : List A → Type ℓ where
    here : {xs : List A} → In x (x ∷ xs)
    there : {y : A} {xs : List A} → In x xs → In x (y ∷ xs)

  pub In-cons : {x y : A} {xs : List A} → In x (y ∷ xs) → (x ≡ y) ⊎ In x xs
  In-cons here = inl refl
  In-cons (there m) = inr m

  pub not-In-nil : {x : A} → In x [] → ⊥
  not-In-nil m = elim m [ ]

  pub not-In-is_empty : (xs : List A) → is_empty xs ≡ true → {x : A} → In x xs → ⊥
  not-In-is_empty [] e m = elim m [ ]
  not-In-is_empty (y ∷ xs) e m = cc

  pub nil_of_none : (xs : List A) → ((x : A) → In x xs → ⊥) → xs ≡ []
  nil_of_none [] h = refl
  nil_of_none (x ∷ xs) h = absurd (h x here)

  pub In-one : {x y : A} → In x (y ∷ []) → x ≡ y
  In-one here = refl
  In-one (there m) = elim m [ ]

  pub In-append_left : {x : A} {xs : List A} (ys : List A) → In x xs → In x (xs ++ ys)
  In-append_left ys here = here
  In-append_left ys (there m) = there (In-append_left ys m)

  pub In-append_right : {x : A} (xs : List A) {ys : List A} → In x ys → In x (xs ++ ys)
  In-append_right [] m = m
  In-append_right (y ∷ xs) m = there (In-append_right xs m)

  pub In-append : {x : A} (xs ys : List A) → In x (xs ++ ys) → In x xs ⊎ In x ys
  In-append [] ys m = inr m
  In-append (y ∷ xs) ys here = inl here
  In-append (y ∷ xs) ys (there m) = elim (In-append xs ys m) [
    | inl a ↦ inl (there a)
    | inr b ↦ inr b
  ]

module _ {ℓ κ} {A : Type ℓ} where
  pub All-map : {P Q : A → Type κ} (xs : List A) → ((x : A) → P x → Q x) → All P xs → All Q xs
  All-map [] f h = tt
  All-map (x ∷ xs) f h = (f x h.0, All-map xs f h.1)

  pub All-In : (P : A → Type κ) {x : A} (xs : List A) → All P xs → In x xs → P x
  All-In P [] h m = elim m [ ]
  All-In P (x ∷ xs) h here = h.0
  All-In P (y ∷ xs) h (there m) = All-In P xs h.1 m
