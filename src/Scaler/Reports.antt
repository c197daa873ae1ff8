-- ===== src/Scaler/Reports.antt =====
-- The metric that `GetMetrics` reports, against the target that `GetMetricSpec` reports.
use native.Mathlib.Nat.{div-le_of_le-mul, mul-div_cancel, le-div_iff_mul-le}
use inference_platform.Prelude.{
  ℕ, ◌+◌, ◌*◌, ◌/◌, ◌≤◌, ◌<◌, ◌≡◌, ◌⊎◌, refl, arith, true, false, List, [], ◌∷◌,
}
use inference_platform.Prelude.Int.{ℤ, pos, ◌≤ℤ◌}
use inference_platform.Go.Float64.{Float64, nan, inf, fin, gtb, round, to_int, one_units}
use inference_platform.Go.Float64.Order.{one_units-pos}
use inference_platform.Saturation.{score, target_value}
use inference_platform.Saturation.Bounds.{score_reaches_target}
use inference_platform.Scaler.{
  Env, Scaler, SaturationResult, MetricValue, MetricSpec, Result, ok, err, metric_values,
  get_metric_spec,
}

-- Finite and not negative, and at most 2^62.
abbrev pub IsReportable : Float64 → Type 0
IsReportable nan = ⊥
IsReportable (inf s) = ⊥
IsReportable (fin true n) = ⊥
IsReportable (fin false n) = n ≤ 4611686018427387904 * one_units

rounded_units : ℕ → ℕ
rounded_units m = (2 * m + one_units) / (2 * one_units)

to_int-round :
    (machine : Float64 → ℤ) (m : ℕ)
    → m ≤ 4611686018427387904 * one_units
    → to_int machine (round (fin false m)) ≡ pos (rounded_units m)
unfolding to_int round rounded_units
to_int-round machine m h =
    let small : rounded_units m ≤ 4611686018427387905 =
      div-le_of_le-mul (2 * one_units) (omega (arith, h)) in
    let whole : rounded_units m * one_units / one_units ≡ rounded_units m =
      mul-div_cancel (rounded_units m) one_units-pos in
    rw whole (ground (arith, small))

hundred : (m : ℕ) → 100 * one_units ≤ m → 100 ≤ rounded_units m
unfolding rounded_units
hundred m h = (le-div_iff_mul-le (omega (arith, one_units-pos))).1 (omega (arith, h))

to_int-target : (machine : Float64 → ℤ) → to_int machine target_value ≡ pos 100
unfolding to_int one_units
to_int-target machine = refl

reported_of_ge :
    (machine : Float64 → ℤ) (v : Float64)
    → IsReportable v
    → gtb target_value v ≡ false
    → pos 100 ≤ℤ to_int machine (round v)
unfolding gtb
reported_of_ge machine (fin false m) small over =
    rw (to_int-round machine m small) (omega (arith, hundred m (ground arith)))
reported_of_ge machine (fin true m) small over = absurd small
reported_of_ge machine nan small over = absurd small
reported_of_ge machine (inf s) small over = absurd small

-- The integer value of the first metric, and the integer target of the first spec.
abbrev pub value_of : List MetricValue → ℤ
value_of [] = pos 0
value_of (v ∷ vs) = v.metric_value

abbrev pub target_of : Result (List MetricSpec) → ℤ
target_of (ok (v ∷ vs)) = v.target_size
target_of (ok []) = pos 0
target_of (err e) = pos 0

-- For a result whose score is that of two finite readings, not negative, against positive
-- thresholds, and is at most 2^62: where a reading is at or above its threshold, the integer value
-- that `GetMetrics` reports is not below the integer target that `GetMetricSpec` reports.
pub metric_value-target :
    (env : Env) (s : Scaler) (res : SaturationResult) (m t n u : ℕ)
    → 0 < t
    → 0 < u
    → res.score ≡ score (fin false m) (fin false t) (fin false n) (fin false u)
    → IsReportable res.score
    → (t ≤ m) ⊎ (u ≤ n)
    → target_of (get_metric_spec env s).0 ≤ℤ value_of (metric_values env res)
unfolding get_metric_spec metric_values
metric_value-target env s res m t n u p q scored small over =
    rw (to_int-target env.machine) (
      reported_of_ge env.machine res.score small
        (rw scored (score_reaches_target m t n u p q over)))
