-- ===== src/Observability/Instruments/Values.antt =====
-- What the collectors show after some calls, the latest first: a counter its increments, a gauge what
-- was set last, by labels.
use inference_platform.Prelude.{
  ℕ, suc, ◌+◌, String, ◌&&◌, List, [], ◌∷◌, Option, none, some, str_eq, if◌then◌else◌,
}
use inference_platform.Go.Float64.{Float64}
use inference_platform.Observability.Instruments.{
  Call, observe_duration, inc_query_error, set_saturation, set_signal_age, inc_grpc_request,
  inc_stream_error,
}

-- The value of `scaler_stream_errors_total`.
unfoldable pub stream_errors : List Call → ℕ
stream_errors [] = 0
stream_errors (inc_stream_error ∷ cs) = suc (stream_errors cs)
stream_errors (observe_duration d v ∷ cs) = stream_errors cs
stream_errors (inc_query_error d ∷ cs) = stream_errors cs
stream_errors (set_saturation n o v ∷ cs) = stream_errors cs
stream_errors (set_signal_age n o d v ∷ cs) = stream_errors cs
stream_errors (inc_grpc_request m ∷ cs) = stream_errors cs

-- The value of `scaler_prometheus_query_errors_total`, both dimensions together.
unfoldable pub query_errors : List Call → ℕ
query_errors [] = 0
query_errors (inc_query_error d ∷ cs) = suc (query_errors cs)
query_errors (observe_duration d v ∷ cs) = query_errors cs
query_errors (set_saturation n o v ∷ cs) = query_errors cs
query_errors (set_signal_age n o d v ∷ cs) = query_errors cs
query_errors (inc_grpc_request m ∷ cs) = query_errors cs
query_errors (inc_stream_error ∷ cs) = query_errors cs

-- The value of `scaler_grpc_requests_total` for a method.
unfoldable pub grpc_requests : String → List Call → ℕ
grpc_requests method [] = 0
grpc_requests method (inc_grpc_request m ∷ cs) =
    (if str_eq m method then 1 else 0) + grpc_requests method cs
grpc_requests method (observe_duration d v ∷ cs) = grpc_requests method cs
grpc_requests method (inc_query_error d ∷ cs) = grpc_requests method cs
grpc_requests method (set_saturation n o v ∷ cs) = grpc_requests method cs
grpc_requests method (set_signal_age n o d v ∷ cs) = grpc_requests method cs
grpc_requests method (inc_stream_error ∷ cs) = grpc_requests method cs

-- The value of `scaler_saturation` for a ScaledObject.
unfoldable pub shown_saturation : String → String → List Call → Option Float64
shown_saturation namespace object [] = none
shown_saturation namespace object (set_saturation n o v ∷ cs) =
    if str_eq n namespace && str_eq o object then some v else shown_saturation namespace object cs
shown_saturation namespace object (observe_duration d v ∷ cs) = shown_saturation namespace object cs
shown_saturation namespace object (inc_query_error d ∷ cs) = shown_saturation namespace object cs
shown_saturation namespace object (set_signal_age n o d v ∷ cs) =
    shown_saturation namespace object cs
shown_saturation namespace object (inc_grpc_request m ∷ cs) = shown_saturation namespace object cs
shown_saturation namespace object (inc_stream_error ∷ cs) = shown_saturation namespace object cs

-- The value of `scaler_signal_age_seconds` for a ScaledObject and a dimension.
unfoldable pub shown_age : String → String → String → List Call → Option Float64
shown_age namespace object dimension [] = none
shown_age namespace object dimension (set_signal_age n o d v ∷ cs) =
    if str_eq n namespace && str_eq o object && str_eq d dimension
    then some v
    else shown_age namespace object dimension cs
shown_age namespace object dimension (observe_duration d v ∷ cs) =
    shown_age namespace object dimension cs
shown_age namespace object dimension (inc_query_error d ∷ cs) =
    shown_age namespace object dimension cs
shown_age namespace object dimension (set_saturation n o v ∷ cs) =
    shown_age namespace object dimension cs
shown_age namespace object dimension (inc_grpc_request m ∷ cs) =
    shown_age namespace object dimension cs
shown_age namespace object dimension (inc_stream_error ∷ cs) =
    shown_age namespace object dimension cs
