-- ===== src/Tests/Saturations.antt =====
-- Scores on concrete readings.
use inference_platform.Prelude.{◌≡◌, refl, false, ◌*◌}
use inference_platform.Go.Float64.{
  of_nat, round_to, nan, one_units, rounded, mul, div, max, shift, round_even, limit_units,
}
use inference_platform.Saturation.{score}

-- TestScoreQueueDominates
queue_dominates :
    score
      (of_nat 6)
      (of_nat 3)
      (round_to false (35 * one_units) 100)
      (round_to false (7 * one_units) 10)
    ≡ of_nat 200
unfolding score of_nat round_to rounded mul div max shift round_even one_units limit_units
queue_dominates = refl

nan_wins : score (of_nat 6) (of_nat 3) nan (of_nat 1) ≡ nan
unfolding score of_nat round_to rounded mul div max shift round_even one_units limit_units
nan_wins = refl
