-- ===== src/Validation/Decimal.antt =====
-- Numbers as `atoi` reads them, and numbers written in decimal (src/validation/validator.cpp).
use Prim.Native.Char.{Char, code}
use cliot.Prelude.{
  ℕ, zero, suc, ◌+◌, ◌*◌, ◌/◌, ◌%◌, ◌≤◌, ◌<◌, ◌≡◌, refl, ◌∙◌, ap, String, true, false, ◌==◌, leb,
  ltb, arith, if◌then◌else◌, Bool-cases, inl, inr,
}
use cliot.Validation.Atoi.{digits, skip_spaces, signed, atoi_size}

abbrev digit : ℕ → Char
digit zero = "0"
digit (suc zero) = "1"
digit (suc (suc zero)) = "2"
digit (suc (suc (suc zero))) = "3"
digit (suc (suc (suc (suc zero)))) = "4"
digit (suc (suc (suc (suc (suc zero))))) = "5"
digit (suc (suc (suc (suc (suc (suc zero)))))) = "6"
digit (suc (suc (suc (suc (suc (suc (suc zero))))))) = "7"
digit (suc (suc (suc (suc (suc (suc (suc (suc zero)))))))) = "8"
digit (suc (suc (suc (suc (suc (suc (suc (suc (suc n))))))))) = "9"

digit-code : (n : ℕ) → n < 10 → code (digit n) ≡ 48 + n
digit-code zero lt = refl
digit-code (suc zero) lt = refl
digit-code (suc (suc zero)) lt = refl
digit-code (suc (suc (suc zero))) lt = refl
digit-code (suc (suc (suc (suc zero)))) lt = refl
digit-code (suc (suc (suc (suc (suc zero))))) lt = refl
digit-code (suc (suc (suc (suc (suc (suc zero)))))) lt = refl
digit-code (suc (suc (suc (suc (suc (suc (suc zero))))))) lt = refl
digit-code (suc (suc (suc (suc (suc (suc (suc (suc zero)))))))) lt = refl
digit-code (suc (suc (suc (suc (suc (suc (suc (suc (suc zero))))))))) lt = refl
digit-code (suc (suc (suc (suc (suc (suc (suc (suc (suc (suc n)))))))))) lt =
    absurd (omega (arith, lt))

-- The digits of a number in front of a text. The first argument bounds how many there are.
unfoldable emit : ℕ → ℕ → String → String
emit zero n out = out
emit (suc fuel) n out =
    let more = emit fuel (n / 10) (String.◌∷◌ (digit (n % 10)) out) in
    if ltb n 10 then String.◌∷◌ (digit n) out else more

-- A number in decimal, as std::to_string writes it.
unfoldable pub decimal : ℕ → String
unfolding emit
decimal n = emit (suc n) n ""

le→leb : (a b : ℕ) → a ≤ b → leb a b ≡ true
le→leb a b h = ground arith

pub decimal_12 : decimal 12 ≡ "12"
unfolding decimal
decimal_12 = refl

-- One digit.
digits-digit :
    (a d : ℕ) (out : String)
    → d < 10
    → digits a (String.◌∷◌ (digit d) out) ≡ digits (a * 10 + d) out
unfolding digits
digits-digit a d out lt =
    rw (digit-code d lt, le→leb 48 (48 + d) (omega arith), le→leb (48 + d) 57 (omega (arith, lt)))
      (ap (λ m. digits m out) (omega arith))

-- Reading goes on behind the digits of a number with the number.
digits-emit : (fuel n : ℕ) (out : String) → n < fuel → digits 0 (emit fuel n out) ≡ digits n out
unfolding emit
digits-emit zero n out lt = absurd (omega (arith, lt))
digits-emit (suc fuel) n out lt = elim (Bool-cases (ltb n 10)) [
  | inl e ↦ rw e (digits-digit 0 n out (ground (arith, e)) ∙ ap (λ m. digits m out) (omega arith))
  | inr e ↦ rw e (
      digits-emit fuel (n / 10) (String.◌∷◌ (digit (n % 10)) out) (ground (arith, e))
      ∙ digits-digit (n / 10) (n % 10) out (omega arith)
      ∙ ap (λ m. digits m out) (omega arith))
]

lt→leb : (a b : ℕ) → b < a → leb a b ≡ false
lt→leb a b h = ground arith

lt→eqb : (a b : ℕ) → b < a → (a == b) ≡ false
lt→eqb a b h = ground arith

-- A text that begins with a digit has no spaces to skip and no sign.
signed-digit :
    (c : Char) (s : String)
    → 48 ≤ code c
    → signed (skip_spaces (String.◌∷◌ c s)) ≡ digits 0 (String.◌∷◌ c s)
unfolding skip_spaces signed
signed-digit c s h =
    rw
      (
        lt→eqb (code c) 32 (omega (arith, h)),
        le→leb 9 (code c) (omega (arith, h)),
        lt→leb (code c) 13 (omega (arith, h)),
        lt→eqb (code c) 45 (omega (arith, h)),
        lt→eqb (code c) 43 (omega (arith, h)),
      )
      refl

signed-emit :
    (fuel n : ℕ) (out : String)
    → n < fuel
    → signed (skip_spaces (emit fuel n out)) ≡ digits 0 (emit fuel n out)
unfolding emit skip_spaces signed
signed-emit zero n out lt = absurd (omega (arith, lt))
signed-emit (suc fuel) n out lt = elim (Bool-cases (ltb n 10)) [
  | inl e ↦ rw e (signed-digit (digit n) out (rw (digit-code n (ground (arith, e))) (omega arith)))
  | inr e ↦ rw e (signed-emit fuel (n / 10) _ (ground (arith, e)))
]

pub atoi_size-decimal : (n : ℕ) → atoi_size (decimal n) ≡ n
unfolding atoi_size decimal digits
atoi_size-decimal n =
    signed-emit (suc n) n "" (omega arith) ∙ digits-emit (suc n) n "" (omega arith)
