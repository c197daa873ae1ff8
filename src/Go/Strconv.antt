-- ===== src/Go/Strconv.antt =====
-- strconv.ParseBool, strconv.Atoi and strconv.ParseFloat; `none` is an error.
mod FloatSyntax
unfoldable pub use FloatSyntax.{parse_float}
use inference_platform.Go.Int64.{Fits64}
use inference_platform.Prelude.{
  ◌≡◌, arith, ℕ, zero, suc, ◌+◌, ◌-◌, ◌*◌, String, Bool, true, false, ◌&&◌, ◌||◌, List, [], ◌∷◌,
  Option, none, some, leb, ◌==◌, str_eq, if◌then◌else◌,
}
use inference_platform.Prelude.Int.{ℤ, pos, sub_ℕ}
use inference_platform.Go.Text.{codes, is_digit, split_sign}

unfoldable pub parse_bool : String → Option Bool
parse_bool s =
    if str_eq s "1"
      || str_eq s "t"
      || str_eq s "T"
      || str_eq s "true"
      || str_eq s "TRUE"
      || str_eq s "True"
    then some true
    else if str_eq s "0"
        || str_eq s "f"
        || str_eq s "F"
        || str_eq s "false"
        || str_eq s "FALSE"
        || str_eq s "False"
    then some false
    else none

-- the number that the digits stand for, `none` at another character
unfoldable pub digits : ℕ → List ℕ → Option ℕ
digits n [] = some n
digits n (c ∷ cs) = let rest = digits (n * 10 + (c - b'0')) cs in if is_digit c then rest else none

unfoldable pub unsigned : List ℕ → Option ℕ
unfolding digits
unsigned [] = none
unsigned (c ∷ cs) = digits 0 (c ∷ cs)

unfoldable pub in_range : Bool → Option ℕ → Option ℤ
in_range s none = none
in_range true (some n) = if leb n 9223372036854775808 then some (sub_ℕ 0 n) else none
in_range false (some n) = if leb n 9223372036854775807 then some (pos n) else none

unfoldable pub atoi : String → Option ℤ
unfolding codes split_sign unsigned in_range
atoi s = let (negative, rest) = split_sign (codes s) in in_range negative (unsigned rest)

in_range-Fits64 : (s : Bool) (n : Option ℕ) (v : ℤ) → in_range s n ≡ some v → Fits64 v
unfolding in_range
in_range-Fits64 s none v h = cc
in_range-Fits64 true (some n) v h = ground arith
in_range-Fits64 false (some n) v h = ground arith

-- A parsed integer is an int.
pub atoi-Fits64 : (s : String) (v : ℤ) → atoi s ≡ some v → Fits64 v
unfolding atoi
atoi-Fits64 s v h =
    let (negative, rest) = split_sign (codes s) in in_range-Fits64 negative (unsigned rest) v h
