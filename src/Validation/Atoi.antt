-- ===== src/Validation/Atoi.antt =====
-- `std::size_t const len = atoi(num.c_str())` of the "$array=" filter
-- (src/validation/validator.cpp). A number beyond `int` is undefined behaviour in C and is read here
-- as the number itself.
use Prim.Native.Char.{code}
use cliot.Prelude.{
  ℕ, ◌+◌, ◌-◌, ◌*◌, ◌%◌, ◌^◌, ◌≡◌, refl, String, Bool, ◌&&◌, ◌||◌, leb, ◌==◌, if◌then◌else◌,
}

abbrev is_digit : ℕ → Bool
is_digit c = leb b'0' c && leb c b'9'

-- isspace in the C locale.
abbrev is_space : ℕ → Bool
is_space c = c == 32 || leb 9 c && leb c 13

unfoldable pub digits : ℕ → String → ℕ
digits acc String.[] = acc
digits acc (String.◌∷◌ c s) =
    let rest = digits (acc * 10 + (code c - b'0')) s in if is_digit (code c) then rest else acc

unfoldable pub skip_spaces : String → String
skip_spaces String.[] = String.[]
skip_spaces (String.◌∷◌ c s) =
    let rest = skip_spaces s in if is_space (code c) then rest else String.◌∷◌ c s

-- The optional sign; a negative `int` wraps to 2^64 - n in `std::size_t`.
unfoldable pub signed : String → ℕ
unfolding digits
signed String.[] = 0
signed (String.◌∷◌ c s) =
    if code c == b'-'
    then (2 ^ 64 - digits 0 s) % 2 ^ 64
    else if code c == b'+'
    then digits 0 s
    else digits 0 (String.◌∷◌ c s)

unfoldable pub atoi_size : String → ℕ
unfolding signed skip_spaces
atoi_size s = signed (skip_spaces s)

atoi_sizes :
    (atoi_size "12" ≡ 12)
    × (atoi_size " +3x" ≡ 3)
    × (atoi_size "" ≡ 0)
    × (atoi_size "-1" ≡ 2 ^ 64 - 1)
unfolding atoi_size
atoi_sizes = (refl, refl, refl, refl)
