-- ===== src/Saturation/Dimensions.antt =====
-- How the two dimensions of the score combine, for any float64 readings and thresholds.
use native.Mathlib.Nat.{zero-mul}
use inference_platform.Go.Float64.Order.{of_units, mul-of_units, one_units-pos}
use inference_platform.Prelude.{◌≢◌, ◌∙◌, ◌^◌, ◌*◌, ◌≡◌, refl, ap, arith, false, true}
use inference_platform.Go.Float64.{
  Float64, fin, nan, inf, gtb, max, mul, div, one_units, limit_units, rounded, rounded_exact,
}
use inference_platform.Saturation.{zero_score, target_value, dimension_score, score}

max_comm : (x y : Float64) → max x y ≡ max y x
unfolding max
max_comm nan y = ground arith
max_comm (inf s) y = ground arith
max_comm (fin s m) y = ground arith

-- Swapping the two readings together with their thresholds leaves the score the same, for any
-- float64 values.
pub score_comm :
    (queue queue_threshold kv kv_threshold : Float64)
    → score queue queue_threshold kv kv_threshold ≡ score kv kv_threshold queue queue_threshold
unfolding score
score_comm q qt k kt = ap (λ (x : Float64). mul x target_value) (max_comm _ _)

-- Where the KV cache's threshold is not positive (zero, negative or NaN), the score is the same for
-- any two readings of the KV cache.
pub score_ignores_dimension :
    (queue queue_threshold kv kv' kv_threshold : Float64)
    → gtb kv_threshold zero_score ≡ false
    → score queue queue_threshold kv kv_threshold ≡ score queue queue_threshold kv' kv_threshold
unfolding score dimension_score
score_ignores_dimension q qt k k' kt h = rw h

rounded-zero : rounded 0 one_units ≡ 0
rounded-zero =
    let zero_units : 0 * 2 ^ 0 * one_units ≡ 0 = zero-mul one_units in
    rw zero_units at (rounded_exact 0 0 one_units (omega arith) one_units-pos)

zero-units : of_units 0 ≡ zero_score
unfolding limit_units
zero-units = refl

mul-zero_score : mul zero_score target_value ≡ zero_score
mul-zero_score =
    rw (← zero-units) (mul-of_units 0 100 (omega arith) ∙ rw (zero-mul, rounded-zero) refl)

-- With neither threshold positive the score is 0.
pub score_no_threshold :
    (queue queue_threshold kv kv_threshold : Float64)
    → gtb queue_threshold zero_score ≡ false
    → gtb kv_threshold zero_score ≡ false
    → score queue queue_threshold kv kv_threshold ≡ zero_score
unfolding score dimension_score max
score_no_threshold q qt k kt h h' = rw (h, h') mul-zero_score

max-nan : (x : Float64) → x ≢ inf false → max nan x ≡ nan
unfolding max
max-nan nan h = refl
max-nan (inf false) h = absurd (h refl)
max-nan (inf true) h = refl
max-nan (fin s m) h = refl

-- A NaN queue reading under a positive threshold makes the score NaN, however large the other
-- dimension's part is, unless that part is +Inf.
pub score_nan :
    (queue_threshold kv kv_threshold : Float64)
    → gtb queue_threshold zero_score ≡ true
    → dimension_score kv kv_threshold ≢ inf false
    → score nan queue_threshold kv kv_threshold ≡ nan
unfolding score dimension_score div mul
score_nan qt k kt h d = rw h (rw (max-nan _ d) refl)
