-- ===== src/Observability/Collectors.antt =====
-- internal/observability/metrics.go: the collectors that `NewMetrics` makes, by what it says of each.
use Prim.Native.String.{◌++◌}
use inference_platform.Prelude.{String, List, [], ◌∷◌, Option, none, some}

pub data Kind : Type 0 where
  histogram : Kind
  counter : Kind
  gauge : Kind

-- HistogramOpts, CounterOpts or GaugeOpts, with the names of the labels. Every histogram here has
-- the library's default buckets.
pub record Collector : Type 0 where
  pub kind : Kind
  pub name : String
  pub help : String
  pub labels : List String

abbrev pub query_duration_vec : Collector
query_duration_vec = record {
  kind = histogram;
  name = "scaler_prometheus_query_duration_seconds";
  help = "Duration of instant queries the scaler issues against Prometheus, by dimension.";
  labels = "dimension" ∷ [];
}

abbrev pub query_errors_vec : Collector
query_errors_vec = record {
  kind = counter;
  name = "scaler_prometheus_query_errors_total";
  help =
      "Count of instant queries against Prometheus that did not return a usable value, by dimension.";
  labels = "dimension" ∷ [];
}

abbrev pub saturation_vec : Collector
saturation_vec = record {
  kind = gauge;
  name = "scaler_saturation";
  help = "Last computed composite inference-saturation score, by namespace/scaledobject.";
  labels = "namespace" ∷ "scaledobject" ∷ [];
}

abbrev pub signal_age_vec : Collector
signal_age_vec = record {
  kind = gauge;
  name = "scaler_signal_age_seconds";
  help =
      "Age of the Prometheus sample behind the last instant query, by namespace/scaledobject/dimension -- "
      ++ "decision time minus the sample's own Prometheus timestamp. This is the scaling control loop's "
      ++ "observed staleness: how old the reading a decision acted on already was, not how long the query took.";
  labels = "namespace" ∷ "scaledobject" ∷ "dimension" ∷ [];
}

abbrev pub grpc_requests_vec : Collector
grpc_requests_vec = record {
  kind = counter;
  name = "scaler_grpc_requests_total";
  help = "Count of ExternalScaler gRPC requests handled, by method.";
  labels = "method" ∷ [];
}

abbrev pub stream_errors_counter : Collector
stream_errors_counter = record {
  kind = counter;
  name = "scaler_stream_errors_total";
  help = "Count of StreamIsActive query failures across all streams.";
  labels = [];
}

-- In the order in which `NewMetrics` registers them.
abbrev pub collectors : List Collector
collectors =
    query_duration_vec ∷ query_errors_vec ∷ saturation_vec ∷ signal_age_vec ∷ grpc_requests_vec
    ∷ stream_errors_counter ∷ []

-- A registry of the client library. `register` is what the factory of `promauto.With` does with a
-- new collector; `none` is its panic.
pub record Registry (R : Type 0) : Type 0 where
  pub empty : R
  pub register : Collector → R → Option R

module _ {R : Type 0} (p : Registry R) where
  abbrev and_then : (R → Option R) → Option R → Option R
  and_then f none = none
  and_then f (some r) = f r

  -- The collectors, one after the other.
  unfoldable pub register_all : List Collector → R → Option R
  register_all [] r = some r
  register_all (c ∷ cs) r = and_then (register_all cs) (p.register c r)
