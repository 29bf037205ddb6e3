-- ===== src/Util/Regex/Greedy.antt =====
-- Which match the greedy search of std::regex finds first (its use in src/util/parse_uri.cpp).
use Prim.Native.Char.{Char, code}
use text.Mathlib.TextLemmas.{nil-append, cons-append, append_assoc as text_append_assoc}
use cliot.Prelude.{
  ℕ, zero, suc, ◌-◌, ◌≤◌, String, ◌+++◌, ◌≡◌, refl, Bool, true, not, Option, none, some, ◌∷◌, arith,
  ◌&&◌,
}
use cliot.Util.Regex.{
  Regex, literal, many, between, optional, sequence, group, Captures, run_many, run_between,
  run_literal, run,
}

abbrev pub letters : String → ℕ
letters String.[] = 0
letters (String.◌∷◌ c s) = suc (letters s)

abbrev pub all_of : (ℕ → Bool) → String → Bool
all_of test String.[] = true
all_of test (String.◌∷◌ c s) = test (code c) && all_of test s

-- The class cannot take more of the text.
abbrev pub stops : (ℕ → Bool) → String → Bool
stops test String.[] = true
stops test (String.◌∷◌ c s) = not (test (code c))

-- The search takes exactly `u` first, and turns the captures c into d.
pub record Takes (r : Regex) (u rest : String) (c d : Captures) : Type 0 where
  pub first :
      (k : String → String → Captures → Option Captures) (out : Captures)
      → k u rest d ≡ some out
      → run r (u +++ rest) c k ≡ some out

-- The search finds nothing.
pub record Fails (r : Regex) (s : String) (c : Captures) : Type 0 where
  pub always : (k : String → String → Captures → Option Captures) → run r s c k ≡ none

run_many-first :
    (test : ℕ → Bool) (least : ℕ) (u rest : String) (k : String → String → Option Captures)
    (out : Captures)
    → all_of test u ≡ true
    → least ≤ letters u
    → stops test rest ≡ true
    → k u rest ≡ some out
    → run_many test least (u +++ rest) k ≡ some out
unfolding run_many
run_many-first test least String.[] String.[] k out all enough end h =
    rw (nil-append "") (ground arith)
run_many-first test least String.[] (String.◌∷◌ c s) k out all enough end h =
    rw (nil-append (String.◌∷◌ c s)) (ground arith)
run_many-first test least (String.◌∷◌ c u) rest k out all enough end h = rw (cons-append c u rest) (
    ground (
      arith,
      run_many-first test (least - 1) u rest (λ v left. k (String.◌∷◌ c v) left) out (ground arith)
          (omega arith) end h,
    ))

run_between-first :
    (test : ℕ → Bool) (least most : ℕ) (u rest : String) (k : String → String → Option Captures)
    (out : Captures)
    → all_of test u ≡ true
    → least ≤ letters u
    → letters u ≤ most
    → stops test rest ≡ true
    → k u rest ≡ some out
    → run_between test least most (u +++ rest) k ≡ some out
unfolding run_between
run_between-first test least zero String.[] String.[] k out all enough bound end h =
    rw (nil-append "") (ground arith)
run_between-first test least (suc most) String.[] String.[] k out all enough bound end h =
    rw (nil-append "") (ground arith)
run_between-first test least zero String.[] (String.◌∷◌ c s) k out all enough bound end h =
    rw (nil-append (String.◌∷◌ c s)) (ground arith)
run_between-first test least (suc most) String.[] (String.◌∷◌ c s) k out all enough bound end h =
    rw (nil-append (String.◌∷◌ c s)) (ground arith)
run_between-first test least zero (String.◌∷◌ c u) rest k out all enough bound end h =
    absurd (omega arith)
run_between-first test least (suc most) (String.◌∷◌ c u) rest k out all enough bound end h =
    rw (cons-append c u rest) (
      ground (
        arith,
        run_between-first test (least - 1) most u rest (λ v left. k (String.◌∷◌ c v) left) out
            (ground arith) (omega arith) (omega arith) end h,
      ))

pub many-Takes :
    (test : ℕ → Bool) (least : ℕ) (u rest : String) (c : Captures)
    → all_of test u ≡ true
    → least ≤ letters u
    → stops test rest ≡ true
    → Takes (many test least) u rest c c
unfolding run
many-Takes test least u rest c all enough end = record {
  first = λ k out h. run_many-first test least u rest (λ v left. k v left c) out all enough end h;
}

pub between-Takes :
    (test : ℕ → Bool) (least most : ℕ) (u rest : String) (c : Captures)
    → all_of test u ≡ true
    → least ≤ letters u
    → letters u ≤ most
    → stops test rest ≡ true
    → Takes (between test least most) u rest c c
unfolding run
between-Takes test least most u rest c all enough bound end = record {
  first = λ k out h.
      run_between-first test least most u rest (λ v left. k v left c) out all enough bound end h;
}

pub literal-Takes :
    (ch : Char) (n : ℕ) (rest : String) (c : Captures)
    → code ch ≡ n
    → Takes (literal n) (String.◌∷◌ ch "") rest c c
unfolding run run_literal
literal-Takes ch n rest c e = record {
  first = λ k out h. rw (cons-append ch "" rest, nil-append rest) (ground arith);
}

pub optional-Takes :
    {r : Regex} {u rest : String} {c d : Captures}
    → Takes r u rest c d
    → Takes (optional r) u rest c d
unfolding run
optional-Takes t = record { first = λ k out h. rw (t.first k out h) refl }

pub optional-Takes_nothing :
    {r : Regex} {rest : String} {c : Captures} → Fails r rest c → Takes (optional r) "" rest c c
unfolding run
optional-Takes_nothing {rest} f = record { first = λ k out h. rw (nil-append rest, f.always k) h }

pub sequence-Takes :
    {a b : Regex} (u v rest : String) {c d e : Captures}
    → Takes a u (v +++ rest) c d
    → Takes b v rest d e
    → Takes (sequence a b) (u +++ v) rest c e
unfolding run
sequence-Takes u v rest s t = record {
  first = λ k out h. rw (text_append_assoc u v rest) (s.first _ out (t.first _ out h));
}

pub group-Takes :
    {n : ℕ} {r : Regex} {u rest : String} {c d : Captures}
    → Takes r u rest c d
    → Takes (group n r) u rest c ((n, u) ∷ d)
unfolding run
group-Takes t = record { first = λ k out h. t.first _ out h }

pub literal-Fails : (n : ℕ) (c : Captures) → Fails (literal n) "" c
unfolding run run_literal
literal-Fails n c = record { always = λ k. refl }

pub many-Fails : (test : ℕ → Bool) (least : ℕ) (c : Captures) → Fails (many test (suc least)) "" c
unfolding run run_many
many-Fails test least c = record { always = λ k. ground arith }

pub sequence-Fails :
    {a b : Regex} {s : String} {c : Captures} → Fails a s c → Fails (sequence a b) s c
unfolding run
sequence-Fails f = record { always = λ k. f.always _ }

pub group-Fails :
    {n : ℕ} {r : Regex} {s : String} {c : Captures} → Fails r s c → Fails (group n r) s c
unfolding run
group-Fails f = record { always = λ k. f.always _ }
