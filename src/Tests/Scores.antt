-- ===== src/Tests/Scores.antt =====
-- The laws of the score at small readings: a `fin false n` is n units of 2^-1074.
use inference_platform.Prelude.{◌≡◌, false, inl, arith}
use inference_platform.Go.Float64.{fin, gtb}
use inference_platform.Saturation.{score, target_value}
use inference_platform.Saturation.Bounds.{score_reaches_target, score_within_target, score_mono}

score_reaches_target_example :
    gtb target_value (score (fin false 6) (fin false 3) (fin false 1) (fin false 2)) ≡ false
score_reaches_target_example =
    score_reaches_target 6 3 1 2 (omega arith) (omega arith) (inl (omega arith))

score_within_target_example :
    gtb (score (fin false 2) (fin false 3) (fin false 1) (fin false 2)) target_value ≡ false
score_within_target_example =
    score_within_target 2 3 1 2 (omega arith) (omega arith) (omega arith) (omega arith)

score_mono_example :
    gtb
      (score (fin false 2) (fin false 3) (fin false 1) (fin false 2))
      (score (fin false 5) (fin false 3) (fin false 2) (fin false 2))
    ≡ false
score_mono_example = score_mono 2 3 1 2 (omega arith) (omega arith) 5 2 (omega arith) (omega arith)
