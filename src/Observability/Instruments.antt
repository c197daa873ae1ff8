-- ===== src/Observability/Instruments.antt =====
-- internal/observability/metrics.go. The Prometheus client library keeps the instruments; `Metrics`
-- keeps the calls that the scaler makes of them, the latest first. A nil `*Metrics` is `none`.
pub mod Values
use inference_platform.Prelude.{String, List, [], ◌∷◌, Option, none, some}
use inference_platform.Go.Float64.{Float64}
use inference_platform.Go.Time.{Duration, seconds}
use inference_platform.Observability.Collectors.{
  Kind, histogram, counter, gauge, Collector, collectors, query_duration_vec, query_errors_vec,
  saturation_vec, signal_age_vec, grpc_requests_vec, stream_errors_counter,
}

pub data Call : Type 0 where
  observe_duration : String → Float64 → Call
  inc_query_error : String → Call
  set_saturation : String → String → Float64 → Call
  set_signal_age : String → String → String → Float64 → Call
  inc_grpc_request : String → Call
  inc_stream_error : Call

-- The collectors stay as `NewMetrics` made them; they are what its registry shows.
pub record Metrics : Type 0 where
  pub collectors : List Collector
  pub calls : List Call

abbrev pub new_metrics : Metrics
new_metrics = record { collectors = collectors; calls = [] }

-- What a scrape of the registry has to show.
abbrev pub Exposed : Type 0
Exposed = List Collector × List Call

-- The registry of a nil `*Metrics` is nil.
unfoldable pub registry : Option Metrics → Option Exposed
registry none = none
registry (some m) = some (m.collectors, m.calls)

-- The guard of every method: a nil `*Metrics` does nothing.
abbrev pub called : Call → Option Metrics → Option Metrics
called c none = none
called c (some m) = some (record m { calls = c ∷ m.calls })

unfoldable pub observe_query_duration : String → Duration → Option Metrics → Option Metrics
observe_query_duration dimension d = called (observe_duration dimension (seconds d))

unfoldable pub increment_query_error : String → Option Metrics → Option Metrics
increment_query_error dimension = called (inc_query_error dimension)

unfoldable pub record_saturation : String → String → Float64 → Option Metrics → Option Metrics
record_saturation namespace scaled_object value =
    called (set_saturation namespace scaled_object value)

unfoldable pub record_signal_age :
    String → String → String → Duration → Option Metrics → Option Metrics
record_signal_age namespace scaled_object dimension age =
    called (set_signal_age namespace scaled_object dimension (seconds age))

unfoldable pub increment_grpc_request : String → Option Metrics → Option Metrics
increment_grpc_request method = called (inc_grpc_request method)

unfoldable pub increment_stream_error : Option Metrics → Option Metrics
increment_stream_error = called inc_stream_error

-- The calls so far; a nil `*Metrics` has none.
abbrev pub calls_of : Option Metrics → List Call
calls_of none = []
calls_of (some m) = m.calls
