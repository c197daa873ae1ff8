-- ===== src/Saturation.antt =====
-- internal/saturation/saturation.go: the composite saturation score.
pub mod Bounds
pub mod Dimensions
use inference_platform.Prelude.{◌*◌, false, if◌then◌else◌}
use inference_platform.Go.Float64.{Float64, fin, div, mul, gtb, max, one_units}

abbrev pub zero_score : Float64
zero_score = fin false 0

-- 100.0
abbrev pub target_value : Float64
target_value = fin false (100 * one_units)

-- One `if` of `Score`: the reading over its threshold, or 0 where the threshold is not positive.
unfoldable pub dimension_score : Float64 → Float64 → Float64
dimension_score reading threshold =
    if gtb threshold zero_score then div reading threshold else zero_score

unfoldable pub score : Float64 → Float64 → Float64 → Float64 → Float64
unfolding dimension_score
score queue queue_threshold kv kv_threshold =
    mul (max (dimension_score queue queue_threshold) (dimension_score kv kv_threshold)) target_value
