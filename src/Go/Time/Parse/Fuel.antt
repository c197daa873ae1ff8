-- ===== src/Go/Time/Parse/Fuel.antt =====
-- The parser of durations has fuel enough: more fuel than characters changes nothing.
use mathlib.Core.Option.{none-ne-some}
use inference_platform.Prelude.{
  ℕ, zero, suc, ◌+◌, ◌-◌, ◌*◌, ◌≤◌, ◌<◌, ◌≡◌, refl, ap, Bool, true, false, not, ◌&&◌, List, [], ◌∷◌,
  Option, none, some, length, ltb, ◌==◌, arith, Bool-cases, Option-cases, inl, inr,
}
use inference_platform.Go.Float64.{Float64, mul, of_nat}
use inference_platform.Go.Text.{codes, same_codes}
use inference_platform.Go.Time.Parse.{
  half_range, leading_int, leading_fraction, fraction, unit_name, unit_of, amount, counted, in_unit,
  with_unit, after_digits, component, components,
}

leading_int-length :
    (x : ℕ) (cs : List ℕ) (v : ℕ) (after : List ℕ)
    → leading_int x cs ≡ some (v, after)
    → length after ≤ length cs
unfolding leading_int
leading_int-length x [] v after h = ground arith
leading_int-length x (c ∷ cs) v after h =
    ground (arith, leading_int-length (x * 10 + (c - b'0')) cs v after)

leading_fraction-length :
    (full : Bool) (x : ℕ) (scale : Float64) (cs : List ℕ)
    → length (leading_fraction full x scale cs).2 ≤ length cs
unfolding leading_fraction
leading_fraction-length full x scale [] = ground arith
leading_fraction-length full x scale (c ∷ cs) = ground (
  arith,
  leading_fraction-length true x scale cs,
  leading_fraction-length false (x * 10 + (c - b'0')) (mul scale (of_nat 10)) cs,
)

fraction-length : (cs : List ℕ) → length (fraction cs).3 ≤ length cs
unfolding fraction
fraction-length [] = ground arith
fraction-length (c ∷ cs) = ground (arith, leading_fraction-length false 0 (of_nat 1) cs)

unit_name-length : (cs : List ℕ) → length (unit_name cs).0 + length (unit_name cs).1 ≡ length cs
unfolding unit_name
unit_name-length [] = ground arith
unit_name-length (c ∷ cs) = ground (arith, unit_name-length cs)

unit_of-pos : (u : List ℕ) (n : ℕ) → unit_of u ≡ some n → 0 < length u
unfolding unit_of same_codes codes
unit_of-pos [] n h = absurd (cc)
unit_of-pos (c ∷ u) n h = ground arith

in_unit-left :
    (v f : ℕ) (scale : Float64) (rest : List ℕ) (unit : Option ℕ) (d : ℕ) (left : List ℕ)
    → in_unit v f scale rest unit ≡ some (d, left)
    → (n : ℕ) × (unit ≡ some n) × (rest ≡ left)
unfolding in_unit counted
in_unit-left v f scale rest none d left h = absurd (none-ne-some (d, left) h)
in_unit-left v f scale rest (some n) d left h = (n, refl, by_amount (amount v f scale n) h)
  where
    by_amount : (o : Option ℕ) → counted rest o ≡ some (d, left) → rest ≡ left
    by_amount none g = absurd (none-ne-some (d, left) g)
    by_amount (some a) g = cc

with_unit-length :
    (v f : ℕ) (scale : Float64) (rest : List ℕ) (d : ℕ) (left : List ℕ)
    → with_unit v f scale rest ≡ some (d, left)
    → length left < length rest
unfolding with_unit
with_unit-length v f scale rest d left h =
    let (n, known, same) = in_unit-left v f scale _ _ d left h in
    let left_over : length (unit_name rest).1 ≡ length left = ap length same in
    omega (arith, unit_name-length rest, unit_of-pos _ n known, left_over)

after_digits-length :
    (cs : List ℕ) (o : Option (ℕ × List ℕ)) (d : ℕ) (left : List ℕ)
    → leading_int 0 cs ≡ o
    → after_digits cs o ≡ some (d, left)
    → length left < length cs
unfolding after_digits
after_digits-length cs none d left e h = absurd (none-ne-some (d, left) h)
after_digits-length cs (some (v, after)) d left e h =
    elim (Bool-cases (length cs == length after && not (fraction after).0)) [
      | inl t ↦ absurd (none-ne-some (d, left) (rw t at h))
      | inr t ↦
          (let taken = with_unit-length v _ _ _ d left (rw t at h) in
            omega (arith, taken, fraction-length after, leading_int-length 0 cs v after e))
    ]

component-length :
    (cs : List ℕ) (d : ℕ) (left : List ℕ) → component cs ≡ some (d, left) → length left < length cs
unfolding component
component-length cs d left h = after_digits-length cs (leading_int 0 cs) d left refl h

-- Any two fuels from the length of the text on give the same.
components_enough :
    (f g d : ℕ) (cs : List ℕ)
    → length cs ≤ f
    → length cs ≤ g
    → components f d cs ≡ components g d cs
unfolding components
components_enough f g d [] h k = refl
components_enough zero g d (c ∷ cs) h k = absurd (omega (arith, h))
components_enough (suc f) zero d (c ∷ cs) h k = absurd (omega (arith, k))
components_enough (suc f) (suc g) d (c ∷ cs) h k = elim (Option-cases (component (c ∷ cs))) [
  | inl e ↦ rw (components, e) refl
  | inr (p, e) ↦
      (let shorter = component-length (c ∷ cs) p.0 p.1 e in
        elim (Bool-cases (ltb half_range (d + p.0))) [
          | inl t ↦ rw (components, e, t) refl
          | inr t ↦
              rw (components, e, t)
                (components_enough f g (d + p.0) p.1 (omega (arith, shorter))
                  (omega (arith, shorter)))
        ])
]
