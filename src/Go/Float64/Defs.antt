-- ===== src/Go/Float64/Defs.antt =====
-- The values of float64 and the operations on them.
use mathlib.Core.Bool.{xor}
use inference_platform.Prelude.{
  ℕ, zero, suc, ◌+◌, ◌-◌, ◌*◌, ◌/◌, ◌%◌, ◌^◌, Bool, true, false, ◌&&◌, ltb, leb, ◌==◌,
  if◌then◌else◌,
}
use inference_platform.Prelude.Int.{ℤ, pos, negsuc, pos_part, neg_part, sub_ℕ}

-- `inf true` is -Inf; `fin true n` is -(n * 2^-1074), so `fin true 0` is -0.
pub data Float64 : Type 0 where
  nan : Float64
  inf : Bool → Float64
  fin : Bool → ℕ → Float64

-- 1.0 in units
unfoldable pub one_units : ℕ
one_units = 2 ^ 1074

-- 2^1024 in units: what rounds to this or more is infinite
unfoldable pub limit_units : ℕ
limit_units = 2 ^ 2098

abbrev pub precision : ℕ
precision = 9007199254740992

-- The least k with num < 2^53 * den * 2^k: the exponent of the last of 53 digits of num / den. It
-- is reached in at most `num` rounds.
unfoldable pub shift : ℕ → ℕ → ℕ → ℕ
shift zero num den = 0
shift (suc fuel) num den = elim (ltb num (precision * den)) [
  | true ↦ 0
  | false ↦ suc (shift fuel num (den * 2))
]

-- num / den to the nearest whole number, ties to even
unfoldable pub round_even : ℕ → ℕ → ℕ
round_even num den =
    let q = num / den in
    let r = num % den in if ltb (2 * r) den then q else if ltb den (2 * r) then q + 1 else q + q % 2

-- num / den to the nearest number with 53 digits
unfoldable pub rounded : ℕ → ℕ → ℕ
rounded num den = let k = shift num num den in round_even num (den * 2 ^ k) * 2 ^ k

unfoldable pub round_to : Bool → ℕ → ℕ → Float64
round_to s num den = let n = rounded num den in if ltb n limit_units then fin s n else inf s

unfoldable pub div : Float64 → Float64 → Float64
unfolding round_to xor
div nan y = nan
div (inf s) nan = nan
div (inf s) (inf t) = nan
div (inf s) (fin t n) = inf (xor s t)
div (fin s m) nan = nan
div (fin s m) (inf t) = fin (xor s t) 0
div (fin s m) (fin t n) =
    if n == 0 then (if m == 0 then nan else inf (xor s t)) else round_to (xor s t) (m * one_units) n

unfoldable pub mul : Float64 → Float64 → Float64
unfolding round_to xor
mul nan y = nan
mul (inf s) nan = nan
mul (inf s) (inf t) = inf (xor s t)
mul (inf s) (fin t n) = if n == 0 then nan else inf (xor s t)
mul (fin s m) nan = nan
mul (fin s m) (inf t) = if m == 0 then nan else inf (xor s t)
mul (fin s m) (fin t n) = round_to (xor s t) (m * n) one_units

-- a sum of units; an exact zero is +0 unless both terms are -0
unfoldable pub add : Float64 → Float64 → Float64
unfolding round_to
add nan y = nan
add (inf s) nan = nan
add (inf false) (inf false) = inf false
add (inf true) (inf true) = inf true
add (inf false) (inf true) = nan
add (inf true) (inf false) = nan
add (inf s) (fin t n) = inf s
add (fin s m) nan = nan
add (fin s m) (inf t) = inf t
add (fin false m) (fin false n) = round_to false (m + n) 1
add (fin true m) (fin true n) = round_to true (m + n) 1
add (fin false m) (fin true n) =
    if ltb m n then round_to true (n - m) 1 else round_to false (m - n) 1
add (fin true m) (fin false n) =
    if ltb n m then round_to true (m - n) 1 else round_to false (n - m) 1

-- x > y
unfoldable pub gtb : Float64 → Float64 → Bool
gtb nan y = false
gtb (inf s) nan = false
gtb (inf false) (inf t) = t
gtb (inf false) (fin t n) = true
gtb (inf true) (inf t) = false
gtb (inf true) (fin t n) = false
gtb (fin s m) nan = false
gtb (fin s m) (inf t) = t
gtb (fin false m) (fin false n) = ltb n m
gtb (fin false m) (fin true n) = ltb 0 (m + n)
gtb (fin true m) (fin false n) = false
gtb (fin true m) (fin true n) = ltb m n

unfoldable pub is_nan : Float64 → Bool
is_nan nan = true
is_nan (inf s) = false
is_nan (fin s m) = false

-- math.Max on two numbers: +0 is above -0
abbrev max_finite : Bool → ℕ → Bool → ℕ → Float64
max_finite s m t n =
    if m == 0 && n == 0
    then (if s then fin t n else fin s m)
    else if gtb (fin s m) (fin t n)
    then fin s m
    else fin t n

-- math.Max: an infinite argument above all wins over a NaN
unfoldable pub max : Float64 → Float64 → Float64
unfolding gtb
max nan nan = nan
max nan (inf false) = inf false
max nan (inf true) = nan
max nan (fin t n) = nan
max (inf false) y = inf false
max (inf true) nan = nan
max (inf true) (inf t) = inf t
max (inf true) (fin t n) = fin t n
max (fin s m) nan = nan
max (fin s m) (inf false) = inf false
max (fin s m) (inf true) = fin s m
max (fin s m) (fin t n) = max_finite s m t n

-- math.Round: to the nearest whole number, halves away from zero
unfoldable pub round : Float64 → Float64
round nan = nan
round (inf s) = inf s
round (fin s m) = fin s ((2 * m + one_units) / (2 * one_units) * one_units)

unfoldable pub of_nat : ℕ → Float64
unfolding round_to
of_nat n = round_to false (n * one_units) 1

-- float64(n)
unfoldable pub of_int : ℤ → Float64
unfolding round_to
of_int (pos n) = round_to false (n * one_units) 1
of_int (negsuc n) = round_to true (suc n * one_units) 1

signed : Bool → ℕ → ℤ
signed false n = pos n
signed true n = sub_ℕ 0 n

fits : ℤ → Bool
fits a = leb (pos_part a) 9223372036854775807 && leb (neg_part a) 9223372036854775808

-- int64(x): the whole part. The language leaves the result open where int64 cannot hold it; there
-- it is what the machine gives.
unfoldable pub to_int : (Float64 → ℤ) → Float64 → ℤ
unfolding signed fits
to_int machine nan = machine nan
to_int machine (inf s) = machine (inf s)
to_int machine (fin s m) =
    let n = signed s (m / one_units) in if fits n then n else machine (fin s m)
