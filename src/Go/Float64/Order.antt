-- ===== src/Go/Float64/Order.antt =====
-- Numbers from zero up, as their size in units: infinity is whatever is too large.
use native.Mathlib.Nat.{mul-pos, one-le-pow, mul-le-mul_right}
use inference_platform.Prelude.{
  ℕ, zero, suc, ◌∙◌, ◌*◌, ◌^◌, ◌≤◌, ◌<◌, ◌≡◌, refl, arith, ltb, false, if◌then◌else◌,
}
use inference_platform.Go.Float64.Defs.{
  Float64, inf, fin, one_units, limit_units, rounded, round_to, div, mul, max, gtb,
}
use inference_platform.Go.Float64.Rounding.{rounded_mono, rounded_exact}

abbrev pub of_units : ℕ → Float64
of_units n = if ltb n limit_units then fin false n else inf false

abbrev pub max_ℕ : ℕ → ℕ → ℕ
max_ℕ a b = if ltb b a then a else b

pub one_units-pos : 0 < one_units
unfolding one_units
one_units-pos = one-le-pow 1074 2 (omega arith)

pub gtb-of_units : (a b : ℕ) → a ≤ b → gtb (of_units a) (of_units b) ≡ false
unfolding gtb
gtb-of_units a b h = ground arith

pub max-of_units : (a b : ℕ) → max (of_units a) (of_units b) ≡ of_units (max_ℕ a b)
unfolding max
max-of_units a b = ground arith

pub round_to_lem : (a d : ℕ) → round_to false a d ≡ of_units (rounded a d)
unfolding round_to
round_to_lem a d = refl

pub div-fin :
    (m t : ℕ) → 0 < t → div (fin false m) (fin false t) ≡ of_units (rounded (m * one_units) t)
unfolding div round_to
div-fin m t p = ground arith

scaled-le : (l a c n : ℕ) → l ≤ a → 0 < c → 1 * l * n ≤ a * (c * n)
scaled-le l a (suc c) n h p = omega (arith, mul-le-mul_right n h)
scaled-le l a zero n h p = absurd (omega arith)

-- An exact power of two, scaled to units and back.
pub rounded-pow : (j den : ℕ) → 0 < den → rounded (1 * 2 ^ j * den) den ≡ 2 ^ j
rounded-pow j den p = rounded_exact 1 j den (omega arith) p ∙ omega arith

pub rounded-limit :
    (a c : ℕ) → limit_units ≤ a → 0 < c → limit_units ≤ rounded (a * (c * one_units)) one_units
unfolding limit_units
rounded-limit a c h p =
    rw (rounded-pow 2098 one_units one_units-pos) at
      (rounded_mono _ _ one_units (scaled-le (2 ^ 2098) a c one_units h p) one_units-pos)

pub mul-of_units :
    (a c : ℕ)
    → 0 < c
    → mul (of_units a) (fin false (c * one_units))
      ≡ of_units (rounded (a * (c * one_units)) one_units)
unfolding mul round_to
mul-of_units a c p = ground (arith, rounded-limit a c, mul-pos p one_units-pos)
