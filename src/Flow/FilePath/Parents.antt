-- ===== src/Flow/FilePath/Parents.antt =====
-- The parents of the paths that flows live under (std::filesystem::path, as src/flow/flow.hpp uses it).
use Prim.Native.Char.{Char, char, code}
use Prim.Native.String.compare.{cons-nil}
use text.Mathlib.TextLemmas.{nil-append, cons-append, append_assoc as text_append_assoc}
use cliot.Prelude.{
  String, ◌+++◌, ◌≡◌, refl, sym, ap, ◌∙◌, Bool, true, false, not, ◌&&◌, ◌==◌, str_eq, eq_iff,
  starts_with, arith, if◌then◌else◌, Bool-cases, inl, inr,
}
use text.Mathlib.TextEquality.{starts_with_iff}
use cliot.Flow.FilePath.{◌//◌, filename, split, strip_separators, parent_path, remove_filename}

-- A file name: no separator in it.
abbrev pub no_separator : String → Bool
no_separator String.[] = true
no_separator (String.◌∷◌ c s) = not (code c == b'/') && no_separator s

-- A path that ends in a file name: its last character is there and is no separator.
abbrev pub ends_in_name : String → Bool
ends_in_name String.[] = false
ends_in_name (String.◌∷◌ c s) = if str_eq s "" then not (code c == b'/') else ends_in_name s

abbrev separator : Char
separator = char 47 tt

and_parts : (a b : Bool) → (a && b) ≡ true → (a ≡ true) × (b ≡ true)
and_parts a b h = ground arith

not-true : (a : Bool) → not a ≡ true → a ≡ false
not-true a h = ground arith

pub str_eq_cons : (c : Char) (s : String) → str_eq (String.◌∷◌ c s) "" ≡ false
str_eq_cons c s = rw (cons-nil c s) refl

str_eq-append_separator : (a t : String) → str_eq (a +++ String.◌∷◌ separator t) "" ≡ false
str_eq-append_separator String.[] t =
    rw (nil-append (String.◌∷◌ separator t)) (str_eq_cons separator t)
str_eq-append_separator (String.◌∷◌ c a) t = rw cons-append (str_eq_cons c _)

split_name : (n : String) → no_separator n ≡ true → split n ≡ ("", n)
unfolding split
split_name String.[] h = refl
split_name (String.◌∷◌ c s) h =
    let (a, b) = and_parts _ _ h in rw (split_name s b, not-true _ a) refl

split-append : (a n : String) → no_separator n ≡ true → split (a +++ "/" +++ n) ≡ (a +++ "/", n)
unfolding split
split-append String.[] n h =
    rw (nil-append ("/" +++ n), cons-append, nil-append n, split_name n h) refl
split-append (String.◌∷◌ c a) n h =
    rw (cons-append, split-append a n h, str_eq-append_separator a "", cons-append) refl

strip_separator_end : (a : String) → strip_separators (a +++ "/") ≡ strip_separators a
unfolding strip_separators
strip_separator_end String.[] = refl
strip_separator_end (String.◌∷◌ c a) = rw (cons-append, strip_separator_end a) refl

strip_separators-name : (a : String) → ends_in_name a ≡ true → strip_separators a ≡ a
unfolding strip_separators
strip_separators-name String.[] h = cc
strip_separators-name (String.◌∷◌ c a) h = elim (Bool-cases (str_eq a "")) [
  | inl e ↦ rw ((eq_iff a "").0 e) (rw (not-true _ (rw e at h)) refl)
  | inr e ↦ rw (strip_separators-name a (rw e at h), e) refl
]

str_eq-name : (d : String) → ends_in_name d ≡ true → str_eq d "" ≡ false
str_eq-name String.[] h = cc
str_eq-name (String.◌∷◌ c d) h = str_eq_cons c d

parent_path_within :
    (p dir d : String)
    → remove_filename p ≡ dir
    → strip_separators dir ≡ d
    → str_eq d "" ≡ false
    → parent_path p ≡ d
unfolding parent_path
parent_path_within p dir d e f g = rw (e, f, g)

remove_filename-append :
    (d n : String) → no_separator n ≡ true → remove_filename (d +++ "/" +++ n) ≡ d +++ "/"
unfolding remove_filename
remove_filename-append d n k = ap (λ s. s.0) (split-append d n k)

pub parent_path-append :
    (d n : String)
    → ends_in_name d ≡ true
    → no_separator n ≡ true
    → parent_path (d +++ "/" +++ n) ≡ d
parent_path-append d n h k =
    parent_path_within _ (d +++ "/") d (remove_filename-append d n k)
      (strip_separator_end d ∙ strip_separators-name d h) (str_eq-name d h)

ends_in_name-append : (d n : String) → ends_in_name n ≡ true → ends_in_name (d +++ "/" +++ n) ≡ true
ends_in_name-append String.[] n h =
    rw (nil-append ("/" +++ n), cons-append, nil-append n, str_eq-name n h) h
ends_in_name-append (String.◌∷◌ c d) n h =
    rw (cons-append, str_eq-name _ (ends_in_name-append d n h)) (ends_in_name-append d n h)

str_eq-filename : (d : String) → ends_in_name d ≡ true → str_eq (split d).1 "" ≡ false
unfolding split
str_eq-filename String.[] h = cc
str_eq-filename (String.◌∷◌ c d) h = elim (Bool-cases (str_eq d "")) [
  | inl e ↦ rw ((eq_iff d "").0 e) (rw (not-true _ (rw e at h)) (str_eq_cons c ""))
  | inr e ↦ elim (Bool-cases (str_eq (split d).0 "")) [
    | inl f ↦ elim (Bool-cases (code c == b'/')) [
      | inl g ↦ rw (f, g) (str_eq-filename d (rw e at h))
      | inr g ↦ rw (f, g) (str_eq_cons c _)
    ]
    | inr f ↦ rw f (str_eq-filename d (rw e at h))
  ]
]

no_separator-slash : (r : String) → no_separator ("/" +++ r) ≡ false
no_separator-slash r = rw cons-append refl

starts_with-name : (n : String) → no_separator n ≡ true → starts_with n "/" ≡ false
starts_with-name n h = elim (Bool-cases (starts_with n "/")) [
  | inl e ↦
      let (r, q) = (starts_with_iff n "/").0 e in
      let p : no_separator ("/" +++ r) ≡ true = rw q h in cc (p, no_separator-slash r)
  | inr e ↦ e
]

pub join_name :
    (d n : String) → ends_in_name d ≡ true → no_separator n ≡ true → d // n ≡ d +++ "/" +++ n
unfolding ◌//◌ filename
join_name d n h k = rw (starts_with-name n k, str_eq-filename d h) refl

no_separator_nil : no_separator "" ≡ true
no_separator_nil = refl

-- The path of a directory that is written with a separator at its end.
pub parent_path-closed :
    (d n : String) → ends_in_name n ≡ true → parent_path (d +++ "/" +++ n +++ "/") ≡ d +++ "/" +++ n
parent_path-closed d n h =
    ap parent_path (
      ap (λ s. d +++ s) (sym (text_append_assoc "/" n "/"))
      ∙ sym (text_append_assoc d ("/" +++ n) "/"))
    ∙ parent_path-append (d +++ "/" +++ n) "" (ends_in_name-append d n h) no_separator_nil
