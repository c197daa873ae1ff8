-- ===== src/Tests/Processes.antt =====
-- `main` from its start to its end, over a Prometheus that answers, and its instruments.
use inference_platform.Observability.Instruments.Values.{shown_saturation, shown_age}
use inference_platform.Prelude.{sym, inl, arith, ◌*◌, ◌≡◌, refl, false, [], ◌∷◌, none, some}
use inference_platform.Go.Errors.{new}
use inference_platform.Go.Float64.{fin, one_units, gtb}
use inference_platform.Config.{parse}
use inference_platform.Observability.Instruments.{new_metrics}
use inference_platform.Scaler.{
  Env, Scaler, SaturationResult, saturation_for, metric_values, is_active, get_metric_spec,
}
use inference_platform.Scaler.Reports.{metric_value-target, target_of, value_of}
use inference_platform.Saturation.{target_value}
use inference_platform.Saturation.Bounds.{score_at_threshold}
use inference_platform.Prelude.Int.{pos, ◌≤ℤ◌}
use inference_platform.Scaler.Gauges.{Gauges, Leaves, is_active-Leaves, when_counted}
use inference_platform.Service.{new_scaler}
use inference_platform.Service.Main.{
  is_active_request, get_metric_spec_request, stopped, Outside, exited, run_main,
}
use inference_platform.Service.Main.Ends.{run_main-exit}
use inference_platform.Tests.Data.{metadata, object, world, answer_with, env_of}

abbrev env : Env
env = env_of (answer_with (fin false (6 * one_units)))

-- Two calls, and then the listener fails.
abbrev outside : Outside
outside = record {
  env = env;
  vars = ("READY_WINDOW", "soon") ∷ [];
  listen_error = none;
  requests = is_active_request false object ∷ get_metric_spec_request ∷ [];
  served = stopped (some (new "accept: closed"));
  http_served = stopped (some (new "address already in use"));
  is_server_closed = λ e. false;
}

run_main-exit_example : (run_main outside world).exit ≡ exited 1
run_main-exit_example = run_main-exit outside world

abbrev scaler : Scaler
scaler = record (new_scaler world) { metrics = some new_metrics }

abbrev no_gauges : Gauges
no_gauges = record { saturation = none; queue_age = none; kv_age = none }

is_active-Leaves_example :
    let (r, s') = is_active env false object scaler in
    Leaves env "inference" "vllm" no_gauges object
      (λ res. gtb res.score (parse metadata).0.activation)
      (saturation_for env
        (parse metadata).0
        false
        (when_counted env "inference" "vllm" no_gauges "IsActive" scaler)).0
      r
      s'
unfolding shown_saturation shown_age
is_active-Leaves_example =
    is_active-Leaves env "inference" "vllm" no_gauges false object scaler (new_metrics, refl, refl)

-- A queue exactly at its threshold.
abbrev at_target : SaturationResult
at_target = record { score = target_value; queue_age = pos 0; kv_age = pos 0 }

metric_value-target_example :
    target_of (get_metric_spec env scaler).0 ≤ℤ value_of (metric_values env at_target)
metric_value-target_example =
    metric_value-target env scaler at_target 3 3 1 2 (omega arith) (omega arith)
      (sym (score_at_threshold 3 1 2 (omega arith) (omega arith) (omega arith))) (omega arith)
      (inl (omega arith))
