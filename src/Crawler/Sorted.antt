-- ===== src/Crawler/Sorted.antt =====
-- The order of the flows that the crawler returns (src/crawler.hpp).
use Prim.Native.Nat.{Ordering}
use Prim.Native.Nat.{compare as compare_codes}
use Prim.Native.Nat.compare as Codes
use Prim.Native.Char.{code}
use Prim.Native.String
use Prim.Native.String.{compare}
use Prim.Native.String.compare as Texts
use cliot.Prelude.{
  ℕ, zero, suc, String, ◌≡◌, refl, ap, ◌∙◌, sym, Bool, true, false, not, List, [], ◌∷◌, str_eq,
  if◌then◌else◌,
}
use cliot.Json.{Checked}
use cliot.Exec.Triple.{Post, Triple-bind, Triple-if, Triple-any}
use cliot.Host.{Host}
use cliot.World.{World}
use cliot.Flow.FilePath.{filename, remove_filename, ◌//◌}
use cliot.Crawler.{DirectoryEntry, emplace_flow, contains_text, collect, crawl_flows, crawl}

abbrev flip : Ordering → Ordering
flip Ordering.lt = Ordering.gt
flip Ordering.eq = Ordering.eq
flip Ordering.gt = Ordering.lt

compare_codes-flip : (m n : ℕ) → compare_codes n m ≡ flip (compare_codes m n)
compare_codes-flip zero zero = refl
compare_codes-flip zero (suc n) = rw (Codes.zero-suc n, Codes.suc-zero n) refl
compare_codes-flip (suc m) zero = rw (Codes.zero-suc m, Codes.suc-zero m) refl
compare_codes-flip (suc m) (suc n) =
    rw (Codes.suc-suc m n, Codes.suc-suc n m) (compare_codes-flip m n)

then-flip :
    (o p : Ordering)
    → flip (Prim.Native.String.then o p) ≡ Prim.Native.String.then (flip o) (flip p)
then-flip Ordering.lt p = refl
then-flip Ordering.eq p = refl
then-flip Ordering.gt p = refl

compare-flip : (s t : String) → compare t s ≡ flip (compare s t)
compare-flip String.[] String.[] = refl
compare-flip String.[] (String.◌∷◌ d t) = rw (Texts.nil-cons d t, Texts.cons-nil d t) refl
compare-flip (String.◌∷◌ c s) String.[] = rw (Texts.nil-cons c s, Texts.cons-nil c s) refl
compare-flip (String.◌∷◌ c s) (String.◌∷◌ d t) =
    rw
      (
        Texts.cons-cons c d s t,
        Texts.cons-cons d c t s,
        compare_codes-flip (code c) (code d),
        compare-flip s t,
      )
      (sym (then-flip (compare_codes (code c) (code d)) (compare s t)))

-- Before all of the list.
abbrev Precedes : String × String → List (String × String) → Type 0
Precedes x [] = Unit {0}
Precedes x (y ∷ rest) = compare x.0 y.0 ≡ Ordering.lt

-- Each name is smaller than the next.
abbrev pub Ascending : List (String × String) → Type 0
Ascending [] = Unit {0}
Ascending (x ∷ rest) = Precedes x rest × Ascending rest

emplace_flow-Precedes :
    (z x : String × String) (xs : List (String × String))
    → compare z.0 x.0 ≡ Ordering.lt
    → Precedes z xs
    → Precedes z (emplace_flow x xs)
unfolding emplace_flow
emplace_flow-Precedes z x [] before h = before
emplace_flow-Precedes z x (y ∷ rest) before h = by_order (compare x.0 y.0)
  where
    by_order :
        (o : Ordering)
        → Precedes z (elim o [
          | Ordering.lt ↦ x ∷ y ∷ rest
          | Ordering.eq ↦ y ∷ rest
          | Ordering.gt ↦ y ∷ emplace_flow x rest
        ])
    by_order Ordering.lt = before
    by_order Ordering.eq = h
    by_order Ordering.gt = h

emplace_flow-Ascending :
    (x : String × String) (xs : List (String × String))
    → Ascending xs
    → Ascending (emplace_flow x xs)
unfolding emplace_flow
emplace_flow-Ascending x [] h = (tt, tt)
emplace_flow-Ascending x (y ∷ rest) h =
    by_order (emplace_flow-Ascending x rest h.1) (compare x.0 y.0) refl
  where
    by_order :
        Ascending (emplace_flow x rest)
        → (o : Ordering) → compare x.0 y.0 ≡ o
        → Ascending (elim o [
          | Ordering.lt ↦ x ∷ y ∷ rest
          | Ordering.eq ↦ y ∷ rest
          | Ordering.gt ↦ y ∷ emplace_flow x rest
        ])
    by_order later Ordering.lt e = (e, h)
    by_order later Ordering.eq e = h
    by_order later Ordering.gt e =
        (emplace_flow-Precedes y x rest (compare-flip x.0 y.0 ∙ ap flip e) h.0, later)

collect-Ascending :
    (filter : String) (paths flows : List (String × String))
    → Ascending flows
    → Ascending (collect filter paths flows)
unfolding collect
collect-Ascending filter [] flows h = h
collect-Ascending filter ((name, path) ∷ rest) flows h =
    collect-Ascending filter rest _
      (by_tests (not (contains_text filter name)) (str_eq (filename path) "script.yaml"))
  where
    by_tests :
        (b c : Bool)
        → Ascending (
            if b
            then flows
            else if c
            then emplace_flow (name, remove_filename path) flows
            else flows)
    by_tests true c = h
    by_tests false false = h
    by_tests false true = emplace_flow-Ascending (name, remove_filename path) flows h

module _ (H : Host) (entries : String → Checked (List DirectoryEntry)) where
  open H use {json}
  open json use {Json}

  -- The flows that the crawler returns come in the order of their names, each name smaller than the next,
  -- however the directories are listed.
  pub crawl-Ascending :
      (path filter : String) (w : World Json)
      → Post
          (λ flows _. Ascending flows)
          (λ _ _. Unit {0})
          (λ _. Unit {0})
          (crawl H entries path filter w).0
          (crawl H entries path filter w).1
  unfolding crawl
  crawl-Ascending path filter w =
      (Triple-if {P = λ _. Unit {0}} {Q = λ flows _. Ascending flows} {E = λ _ _. Unit {0}}
          (not (H.exists (path // "flows"))) _ _ (λ _. record { at = λ v h. tt })
          (λ _. Triple-bind _ _ (Triple-any _) (λ dirs.
            Triple-bind _ _ (Triple-any (crawl_flows H entries dirs []))
              (λ paths. record { at = λ v h. collect-Ascending filter paths [] tt })))).at
        w tt
