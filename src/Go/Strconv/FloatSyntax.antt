-- ===== src/Go/Strconv/FloatSyntax.antt =====
-- strconv.ParseFloat with 64 bits: the syntax, with infinities, NaN, hexadecimal and underscores,
-- and the nearest double. A value that is too large is an error.
use inference_platform.Prelude.{
  ℕ, ◌+◌, ◌-◌, ◌*◌, ◌^◌, String, Bool, true, false, not, ◌&&◌, ◌||◌, List, [], ◌∷◌, Option, none,
  some, ltb, leb, ◌==◌, if◌then◌else◌,
}
use inference_platform.Prelude.Int.{ℤ, pos, pos_part, neg_part, sub_ℕ}
use inference_platform.Go.Text.{codes, is_digit, is_letter, same_word, split_sign}
use inference_platform.Go.Float64.{Float64, nan, inf, fin, round_to}

-- The letters and digits before the exponent: their value, how many follow the point, and what is
-- left. `places` is `none` until a point is seen.
record Mantissa : Type 0 where
  value : ℕ
  seen : Bool
  places : Option ℕ
  rest : List ℕ

abbrev bump : Option ℕ → Option ℕ
bump none = none
bump (some n) = some (n + 1)

abbrev hex_value : ℕ → Option ℕ
hex_value c =
    if is_digit c
    then some (c - b'0')
    else if leb b'a' c && leb c b'f'
    then some (c - b'a' + 10)
    else if leb b'A' c && leb c b'F'
    then some (c - b'A' + 10)
    else none

abbrev digit_value : Bool → ℕ → Option ℕ
digit_value true c = hex_value c
digit_value false c = if is_digit c then some (c - b'0') else none

abbrev base_of : Bool → ℕ
base_of true = 16
base_of false = 10

is_point : Option ℕ → ℕ → Bool
is_point none c = c == b'.'
is_point (some n) c = false

mantissa : Bool → ℕ → Bool → Option ℕ → List ℕ → Mantissa
mantissa hex v seen p [] = record { value = v; seen = seen; places = p; rest = [] }
mantissa hex v seen p (c ∷ cs) =
    let skip = mantissa hex v seen p cs in
    let point = mantissa hex v seen (some 0) cs in
    if c == b'_' then skip else if is_point p c then point else elim (digit_value hex c) [
      | some d ↦ mantissa hex (v * base_of hex + d) true (bump p) cs
      | none ↦ record { value = v; seen = seen; places = p; rest = c ∷ cs }
    ]

-- The digits of an exponent; past 10000 further digits are read and not counted.
exponent_digits : ℕ → List ℕ → Option ℕ
exponent_digits e [] = some e
exponent_digits e (c ∷ cs) =
    let next = exponent_digits (if ltb e 10000 then e * 10 + (c - b'0') else e) cs in
    let skip = exponent_digits e cs in if c == b'_' then skip else if is_digit c then next else none

starts_with_digit : List ℕ → Bool
starts_with_digit [] = false
starts_with_digit (c ∷ cs) = is_digit c

signed_exponent : List ℕ → Option ℤ
signed_exponent cs =
    let (negative, ds) = split_sign cs in
    if starts_with_digit ds
    then elim (exponent_digits 0 ds) [
      | none ↦ none
      | some e ↦ some (if negative then sub_ℕ 0 e else pos e)
    ]
    else none

-- The exponent, which a hexadecimal number must have.
exponent : Bool → List ℕ → Option ℤ
exponent hex [] = if hex then none else some (pos 0)
exponent hex (c ∷ cs) =
    if is_letter (if hex then b'p' else b'e') c then signed_exponent cs else none

-- v * 2^(e - 4p) or v * 10^(e - p)
scale : Bool → Bool → ℕ → ℕ → ℤ → Float64
scale s hex v p e =
    let base : ℕ = if hex then 2 else 10 in
    let up = pos_part e in
    let down = neg_part e + (if hex then 4 * p else p) in
    if leb down up
    then round_to s (v * base ^ (up - down) * 2 ^ 1074) 1
    else round_to s (v * 2 ^ 1074) (base ^ (down - up))

finite_only : Float64 → Option Float64
finite_only nan = none
finite_only (inf s) = none
finite_only (fin s n) = some (fin s n)

places_of : Option ℕ → ℕ
places_of none = 0
places_of (some n) = n

number : Bool → Bool → List ℕ → Option Float64
number s hex cs =
    let m = mantissa hex 0 false none cs in
    if m.seen
    then elim (exponent hex m.rest) [
      | none ↦ none
      | some e ↦ finite_only (scale s hex m.value (places_of m.places) e)
    ]
    else none

-- Underscores stand between digits, or after a base prefix. `after_digit` and `after_underscore`
-- say what the last character was.
underscores_ok : Bool → Bool → Bool → List ℕ → Bool
underscores_ok hex after_digit after_underscore [] = not after_underscore
underscores_ok hex after_digit after_underscore (c ∷ cs) =
    let digit = underscores_ok hex true false cs in
    let underscore = underscores_ok hex false true cs in
    let other = underscores_ok hex false false cs in
    if is_digit c || (hex && (leb b'a' c && leb c b'f' || leb b'A' c && leb c b'F'))
    then digit
    else if c == b'_'
    then (if after_digit then underscore else false)
    else if after_underscore
    then false
    else other

-- A number after its sign; `0x` makes it hexadecimal where more follows.
unsigned : Bool → List ℕ → Option Float64
unsigned s (z ∷ x ∷ d ∷ cs) =
    if z == b'0' && is_letter b'x' x
    then (if underscores_ok true true false (d ∷ cs) then number s true (d ∷ cs) else none)
    else if underscores_ok false false false (z ∷ x ∷ d ∷ cs)
    then number s false (z ∷ x ∷ d ∷ cs)
    else none
unsigned s cs = if underscores_ok false false false cs then number s false cs else none

infinity : List ℕ → Bool
infinity cs = same_word cs (codes "inf") || same_word cs (codes "infinity")

unfoldable pub parse_float : String → Option Float64
unfolding codes same_word split_sign infinity unsigned number underscores_ok mantissa exponent scale
    finite_only places_of is_point exponent_digits starts_with_digit signed_exponent
parse_float text =
    let cs = codes text in
    let (negative, rest) = split_sign cs in
    if same_word cs (codes "nan")
    then some nan
    else if infinity rest
    then some (inf negative)
    else unsigned negative rest
