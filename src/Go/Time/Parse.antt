-- ===== src/Go/Time/Parse.antt =====
-- time.ParseDuration; `none` is an error.
mod Fuel
use inference_platform.Go.Int64.{Fits64}
use inference_platform.Prelude.{
  ◌≡◌, ◌≤◌, arith, inl, inr, Option-cases, ℕ, zero, suc, ◌+◌, ◌-◌, ◌*◌, ◌/◌, String, Bool, true,
  false, not, ◌&&◌, ◌||◌, List, [], ◌∷◌, Option, none, some, ltb, ◌==◌, if◌then◌else◌, length,
}
use inference_platform.Prelude.Int.{ℤ, pos, pos_part, sub_ℕ}
use inference_platform.Go.Text.{codes, is_digit, same_codes, split_sign}
use inference_platform.Go.Float64.{Float64, div, mul, of_nat, to_int}

-- 2^63
abbrev half_range : ℕ
half_range = 9223372036854775808

-- leadingInt: the value and what is left, `none` past 2^63
leading_int : ℕ → List ℕ → Option (ℕ × List ℕ)
leading_int x [] = some (x, [])
leading_int x (c ∷ cs) =
    let y = x * 10 + (c - b'0') in
    let rest = leading_int y cs in
    if is_digit c
    then (if ltb (half_range / 10) x || ltb half_range y then none else rest)
    else some (x, c ∷ cs)

-- leadingFraction: the digits that fit, the power of ten under them, and what is left
leading_fraction : Bool → ℕ → Float64 → List ℕ → ℕ × Float64 × List ℕ
leading_fraction full x scale [] = (x, scale, [])
leading_fraction full x scale (c ∷ cs) =
    let y = x * 10 + (c - b'0') in
    let stop = leading_fraction true x scale cs in
    let go = leading_fraction false y (mul scale (of_nat 10)) cs in
    if is_digit c
    then (if full || ltb ((half_range - 1) / 10) x || ltb half_range y then stop else go)
    else (x, scale, c ∷ cs)

-- The characters up to the next digit or point, and what is left.
unit_name : List ℕ → List ℕ × List ℕ
unit_name [] = ([], [])
unit_name (c ∷ cs) =
    let (u, rest) = unit_name cs in if c == b'.' || is_digit c then ([], c ∷ cs) else (c ∷ u, rest)

-- unitMap, in nanoseconds; `us` has two more spellings, with U+00B5 and U+03BC
unit_of : List ℕ → Option ℕ
unit_of u =
    if same_codes u (codes "ns")
    then some 1
    else if same_codes u (codes "us")
        || same_codes u (181 ∷ b's' ∷ [])
        || same_codes u (956 ∷ b's' ∷ [])
    then some 1000
    else if same_codes u (codes "ms")
    then some 1000000
    else if same_codes u (codes "s")
    then some 1000000000
    else if same_codes u (codes "m")
    then some 60000000000
    else if same_codes u (codes "h")
    then some 3600000000000
    else none

-- uint64(float64(f) * (float64(unit) / scale))
fraction_part : ℕ → Float64 → ℕ → ℕ
fraction_part f scale unit =
    pos_part (to_int (λ _. pos 0) (mul (of_nat f) (div (of_nat unit) scale)))

amount : ℕ → ℕ → Float64 → ℕ → Option ℕ
amount v f scale unit =
    let total = v * unit + (if ltb 0 f then fraction_part f scale unit else 0) in
    if ltb (half_range / unit) v || ltb half_range total then none else some total

-- (\.[0-9]*)? : whether a digit follows the point too
fraction : List ℕ → Bool × ℕ × Float64 × List ℕ
fraction [] = (false, 0, of_nat 1, [])
fraction (c ∷ cs) =
    if c == b'.'
    then (let (f, scale, rest) = leading_fraction false 0 (of_nat 1) cs in
        (not (length cs == length rest), f, scale, rest))
    else (false, 0, of_nat 1, c ∷ cs)

counted : List ℕ → Option ℕ → Option (ℕ × List ℕ)
counted left none = none
counted left (some d) = some (d, left)

in_unit : ℕ → ℕ → Float64 → List ℕ → Option ℕ → Option (ℕ × List ℕ)
in_unit v f scale left none = none
in_unit v f scale left (some unit) = counted left (amount v f scale unit)

with_unit : ℕ → ℕ → Float64 → List ℕ → Option (ℕ × List ℕ)
with_unit v f scale rest =
    let (name, left) = unit_name rest in in_unit v f scale left (unit_of name)

after_digits : List ℕ → Option (ℕ × List ℕ) → Option (ℕ × List ℕ)
after_digits cs none = none
after_digits cs (some (v, after)) =
    let (post, f, scale, rest) = fraction after in
    if length cs == length after && not post then none else with_unit v f scale rest

-- One number with its unit: what it adds, and what is left.
component : List ℕ → Option (ℕ × List ℕ)
component cs = after_digits cs (leading_int 0 cs)

-- The loop over the components, each of which takes a character at least: the length of the text is
-- fuel enough (Fuel).
components : ℕ → ℕ → List ℕ → Option ℕ
components fuel d [] = some d
components zero d (c ∷ cs) = none
components (suc fuel) d (c ∷ cs) = elim (component (c ∷ cs)) [
  | none ↦ none
  | some (n, rest) ↦ if ltb half_range (d + n) then none else components fuel (d + n) rest
]

limited : Bool → Option ℕ → Option ℤ
limited s none = none
limited true (some d) = some (sub_ℕ 0 d)
limited false (some d) = if ltb (half_range - 1) d then none else some (pos d)

after_sign : Bool → List ℕ → Option ℤ
after_sign negative cs =
    if same_codes cs (b'0' ∷ [])
    then some (pos 0)
    else if length cs == 0
    then none
    else limited negative (components (length cs) 0 cs)

unfoldable pub parse_duration : String → Option ℤ
unfolding codes same_codes split_sign leading_int leading_fraction unit_name unit_of fraction_part
    amount fraction counted in_unit with_unit after_digits component components limited after_sign
parse_duration text = let (negative, cs) = split_sign (codes text) in after_sign negative cs

-- The sum of the components never passes 2^63.
components-le :
    (fuel d : ℕ) (cs : List ℕ) (n : ℕ)
    → d ≤ half_range
    → components fuel d cs ≡ some n
    → n ≤ half_range
unfolding components
components-le fuel d [] n b h = ground arith
components-le zero d (c ∷ cs) n b h = ground arith
components-le (suc fuel) d (c ∷ cs) n b h = elim (Option-cases (component (c ∷ cs))) [
  | inl e ↦ ground arith
  | inr (p, e) ↦ ground (arith, components-le fuel (d + p.0) p.1 n)
]

limited-Fits64 :
    (s : Bool) (n : ℕ) (d : ℤ) → n ≤ half_range → limited s (some n) ≡ some d → Fits64 d
unfolding limited
limited-Fits64 true n d b h = ground arith
limited-Fits64 false n d b h = ground arith

limited-components :
    (s : Bool) (fuel : ℕ) (cs : List ℕ) (d : ℤ)
    → limited s (components fuel 0 cs) ≡ some d
    → Fits64 d
unfolding limited
limited-components s fuel cs d h = elim (Option-cases (components fuel 0 cs)) [
  | inl e ↦ (let failed : limited s none ≡ some d = rw e at h in cc)
  | inr (n, e) ↦ limited-Fits64 s n d (components-le fuel 0 cs n (omega arith) e) (rw e at h)
]

after_sign-Fits64 :
    (negative : Bool) (cs : List ℕ) (d : ℤ) → after_sign negative cs ≡ some d → Fits64 d
unfolding after_sign
after_sign-Fits64 negative cs d h = ground (arith, limited-components negative (length cs) cs d)

-- A parsed duration is an int64.
pub parse_duration-Fits64 : (text : String) (d : ℤ) → parse_duration text ≡ some d → Fits64 d
unfolding parse_duration
parse_duration-Fits64 text d h =
    after_sign-Fits64 (split_sign (codes text)).0 (split_sign (codes text)).1 d h
