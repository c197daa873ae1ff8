-- ===== src/Saturation/Bounds.antt =====
-- The score of readings that are not negative, against thresholds that are positive: when it passes
-- the target value of 100, and how it grows.
use native.Mathlib.Nat.{mul-le-mul_right, mul_comm}
use inference_platform.Prelude.{ℕ, ◌*◌, ◌≤◌, ◌<◌, ◌≡◌, refl, ◌⊎◌, inl, inr, arith, false, lt→ltb}
use inference_platform.Go.Float64.{
  Float64, fin, gtb, one_units, limit_units, rounded, rounded_mono, rounded_exact,
}
use inference_platform.Go.Float64.Order.{
  of_units, max_ℕ, one_units-pos, gtb-of_units, max-of_units, div-fin, mul-of_units, rounded-pow,
}
use inference_platform.Saturation.{target_value, dimension_score, score}

-- One dimension and the score, in units.
pub dimension_units : ℕ → ℕ → ℕ
dimension_units m t = rounded (m * one_units) t

pub score_units : ℕ → ℕ → ℕ
score_units a b = rounded (max_ℕ a b * (100 * one_units)) one_units

dimension_score-units :
    (m t : ℕ) → 0 < t → dimension_score (fin false m) (fin false t) ≡ of_units (dimension_units m t)
unfolding dimension_score dimension_units gtb
dimension_score-units m t p = rw (lt→ltb 0 t p) (div-fin m t p)

score-units :
    (m t n u : ℕ)
    → 0 < t
    → 0 < u
    → score (fin false m) (fin false t) (fin false n) (fin false u)
      ≡ of_units (score_units (dimension_units m t) (dimension_units n u))
unfolding score score_units
score-units m t n u p q =
    rw (dimension_score-units m t p, dimension_score-units n u q, max-of_units)
      (mul-of_units (max_ℕ (dimension_units m t) (dimension_units n u)) 100 (omega arith))

score_units_mono : (a b c d : ℕ) → max_ℕ a c ≤ max_ℕ b d → score_units a c ≤ score_units b d
unfolding score_units
score_units_mono a b c d h =
    rounded_mono _ _ one_units (mul-le-mul_right (100 * one_units) h) one_units-pos

dimension_units_mono : (m n t : ℕ) → m ≤ n → 0 < t → dimension_units m t ≤ dimension_units n t
unfolding dimension_units
dimension_units_mono m n t h p = rounded_mono _ _ t (mul-le-mul_right one_units h) p

-- a reading at its threshold scores exactly 1
dimension_units_self : (t : ℕ) → 0 < t → dimension_units t t ≡ one_units
unfolding dimension_units one_units
dimension_units_self t p = rw (mul_comm t one_units) (rounded-pow 1074 t p)

score_units_one : score_units one_units one_units ≡ 100 * one_units
unfolding score_units one_units
score_units_one = rounded_exact 100 1074 one_units (omega arith) (omega arith)

score_units_of_ge :
    (a b : ℕ) → (one_units ≤ a) ⊎ (one_units ≤ b) → 100 * one_units ≤ score_units a b
score_units_of_ge a b h =
    rw score_units_one at (score_units_mono one_units a one_units b (ground arith))

score_units_of_le : (a b : ℕ) → a ≤ one_units → b ≤ one_units → score_units a b ≤ 100 * one_units
score_units_of_le a b h k =
    rw score_units_one at (score_units_mono a one_units b one_units (ground arith))

target-units : of_units (100 * one_units) ≡ target_value
unfolding one_units limit_units
target-units = refl

max_ℕ-mono : (a b c d : ℕ) → a ≤ b → c ≤ d → max_ℕ a c ≤ max_ℕ b d
max_ℕ-mono a b c d h k = ground arith

module _ (m t n u : ℕ) (p : 0 < t) (q : 0 < u) where
  abbrev at_readings : Float64
  at_readings = score (fin false m) (fin false t) (fin false n) (fin false u)

  ones_of_ge :
      (t ≤ m) ⊎ (u ≤ n) → (one_units ≤ dimension_units m t) ⊎ (one_units ≤ dimension_units n u)
  ones_of_ge (inl h) = inl (rw (dimension_units_self t p) at (dimension_units_mono t m t h p))
  ones_of_ge (inr h) = inr (rw (dimension_units_self u q) at (dimension_units_mono u n u h q))

  -- If either reading, both finite and not negative, is at or above its positive threshold, the
  -- target value is not above the score.
  pub score_reaches_target : (t ≤ m) ⊎ (u ≤ n) → gtb target_value at_readings ≡ false
  score_reaches_target h =
      rw (score-units m t n u p q, ← target-units)
        (gtb-of_units _ _ (score_units_of_ge _ _ (ones_of_ge h)))

  -- If both readings, finite and not negative, are at or below their positive thresholds, the score
  -- is not above the target value.
  pub score_within_target : m ≤ t → n ≤ u → gtb at_readings target_value ≡ false
  score_within_target h k =
      rw (score-units m t n u p q, ← target-units)
        (gtb-of_units _ _ (
          score_units_of_le _ _ (rw (dimension_units_self t p) at (dimension_units_mono m t t h p))
            (rw (dimension_units_self u q) at (dimension_units_mono n u u k q))))

  -- Larger readings, finite and not negative, at the same positive thresholds, never lower the score.
  pub score_mono :
      (m' n' : ℕ)
      → m ≤ m'
      → n ≤ n'
      → gtb at_readings (score (fin false m') (fin false t) (fin false n') (fin false u)) ≡ false
  score_mono m' n' h k =
      rw (score-units m t n u p q, score-units m' t n' u p q)
        (gtb-of_units _ _ (
          score_units_mono _ _ _ _ (
            max_ℕ-mono _ _ _ _ (dimension_units_mono m m' t h p)
              (dimension_units_mono n n' u k q))))

-- A queue reading exactly at its positive threshold scores exactly the target value, whatever the
-- other reading at or below its own positive threshold.
pub score_at_threshold :
    (t n u : ℕ)
    → 0 < t
    → 0 < u
    → n ≤ u
    → score (fin false t) (fin false t) (fin false n) (fin false u) ≡ target_value
score_at_threshold t n u p q h =
    rw (score-units t t n u p q, dimension_units_self t p)
      (at (rw (dimension_units_self u q) at (dimension_units_mono n u u h q)))
  where
    exact :
        dimension_units n u ≤ one_units
        → score_units one_units (dimension_units n u) ≡ 100 * one_units
    exact k = omega (
      arith,
      score_units_of_ge one_units (dimension_units n u) (inl (omega arith)),
      score_units_of_le one_units (dimension_units n u) (omega arith) k,
    )

    at :
        dimension_units n u ≤ one_units
        → of_units (score_units one_units (dimension_units n u)) ≡ target_value
    at k = rw (exact k) target-units
