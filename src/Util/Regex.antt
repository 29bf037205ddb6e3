-- ===== src/Util/Regex.antt =====
-- The part of std::regex (ECMAScript) that the pattern of src/util/parse_uri.cpp needs: classes of
-- characters with greedy repetition, optional parts, sequences and capture groups, and the backtracking
-- search of std::regex_match.
pub mod Greedy
use Prim.Native.Char.{Char, code}
use Prim.Native.String
use cliot.Prelude.{
  ℕ, zero, suc, ◌+◌, ◌-◌, String, ◌+++◌, Bool, Option, none, some, List, [], ◌∷◌, str_eq, ◌==◌,
  if◌then◌else◌,
}

-- `many test least` is a class with {least,}, and `between test least most` one with {least,most}.
-- `group n r` is the capture group number n; `optional r` is r followed by `?`.
pub data Regex : Type 0 where
  literal : ℕ → Regex
  many : (ℕ → Bool) → ℕ → Regex
  between : (ℕ → Bool) → ℕ → ℕ → Regex
  optional : Regex → Regex
  sequence : Regex → Regex → Regex
  group : ℕ → Regex → Regex

-- The texts of the groups, the latest first.
abbrev pub Captures : Type 0
Captures = List (ℕ × String)

-- match[n]: a group that took no part is empty.
abbrev pub captured : ℕ → Captures → String
captured n [] = ""
captured n ((k, text) ∷ rest) = let later = captured n rest in if k == n then text else later

-- match.size() - 1
unfoldable pub mark_count : Regex → ℕ
mark_count (literal n) = 0
mark_count (many test least) = 0
mark_count (between test least most) = 0
mark_count (optional r) = mark_count r
mark_count (sequence a b) = mark_count a + mark_count b
mark_count (group n r) = suc (mark_count r)

abbrev pub or_else {ℓ} : {A : Type ℓ} → Option A → Option A → Option A
or_else (some a) later = some a
or_else none later = later

-- Greedy repetition. `k` is given what was taken and what is left; if it fails, less is taken.
unfoldable pub run_many {ℓ} :
    {A : Type ℓ} → (ℕ → Bool) → ℕ → String → (String → String → Option A) → Option A
run_many test least String.[] k = if least == 0 then k "" "" else none
run_many test least (String.◌∷◌ c s) k =
    let longer = run_many test (least - 1) s (λ u rest. k (String.◌∷◌ c u) rest) in
    or_else (if test (code c) then longer else none)
      (if least == 0 then k "" (String.◌∷◌ c s) else none)

unfoldable pub run_between {ℓ} :
    {A : Type ℓ} → (ℕ → Bool) → ℕ → ℕ → String → (String → String → Option A) → Option A
run_between test least most String.[] k = if least == 0 then k "" "" else none
run_between test least zero (String.◌∷◌ c s) k = if least == 0 then k "" (String.◌∷◌ c s) else none
run_between test least (suc most) (String.◌∷◌ c s) k =
    let longer = run_between test (least - 1) most s (λ u rest. k (String.◌∷◌ c u) rest) in
    or_else (if test (code c) then longer else none)
      (if least == 0 then k "" (String.◌∷◌ c s) else none)

unfoldable pub run_literal {ℓ} : {A : Type ℓ} → ℕ → String → (String → String → Option A) → Option A
run_literal n String.[] k = none
run_literal n (String.◌∷◌ c s) k = if code c == n then k (String.◌∷◌ c "") s else none

unfoldable pub run :
    Regex → String → Captures → (String → String → Captures → Option Captures) → Option Captures
unfolding run_many run_between run_literal
run (literal n) s caps k = run_literal n s (λ u rest. k u rest caps)
run (many test least) s caps k = run_many test least s (λ u rest. k u rest caps)
run (between test least most) s caps k = run_between test least most s (λ u rest. k u rest caps)
run (optional r) s caps k = or_else (run r s caps k) (k "" s caps)
run (sequence a b) s caps k =
    run a s caps (λ u rest c. run b rest c (λ v left d. k (u +++ v) left d))
run (group n r) s caps k = run r s caps (λ u rest c. k u rest ((n, u) ∷ c))

abbrev pub at_end : String → String → Captures → Option Captures
at_end u rest caps = if str_eq rest "" then some caps else none

-- std::regex_match: the whole text matches.
unfoldable pub regex_match : Regex → String → Option Captures
unfolding run
regex_match r s = run r s [] at_end
