-- ===== src/Scaler.antt =====
-- main.go: the scaler, its queries, and the unary methods of the ExternalScaler service.
mod State
pub mod Queries
pub mod Decisions
pub mod Keeps
pub mod Invariants
pub mod Gauges
pub mod Goroutines
pub mod Interleaved
pub mod Marks
pub mod Reports
pub mod Readiness
pub mod Methods
pub mod Sources
pub use State.*
unfoldable pub use State.{tick, get_cached, on_metrics, success, next_round}
use State.{Env, Scaler, M, ◌>>=◌, ◌>>◌, pure, tick, get_cached, on_metrics, success, next_round}
use inference_platform.Prelude.{
  ℕ, String, Bool, true, false, not, ◌&&◌, ◌||◌, List, [], ◌∷◌, Option, none, some, if◌then◌else◌,
}
use inference_platform.Prelude.Int.{ℤ, pos}
use inference_platform.Config.{Config, Metadata, parse}
use inference_platform.Go.Errors.{Error, is_missing, wrap}
use inference_platform.Go.Float64.{Float64, fin, gtb, round, to_int}
use inference_platform.Go.Time.{Duration, sub}
use inference_platform.Metrics.Source.{Sample, Reply}
use inference_platform.Metrics.Cache.{get}
use inference_platform.Observability.Instruments.{
  observe_query_duration, increment_query_error, record_saturation, record_signal_age,
  increment_grpc_request,
}
use inference_platform.Saturation.{score, target_value}

pub record ScaledObjectRef : Type 0 where
  pub name : String
  pub namespace : String
  pub scaler_metadata : Metadata

pub record SaturationResult : Type 0 where
  pub score : Float64
  pub queue_age : Duration
  pub kv_age : Duration

pub record MetricSpec : Type 0 where
  pub metric_name : String
  pub target_size : ℤ
  pub target_size_float : Float64

pub record MetricValue : Type 0 where
  pub metric_name : String
  pub metric_value : ℤ
  pub metric_value_float : Float64

-- What a function returns beside its changes: a value, or an error and no value.
pub data Result (A : Type 0) : Type 0 where
  ok : A → Result A
  err : Error → Result A

abbrev pub metric_name : String
metric_name = "inference-saturation"

-- The switch on the error in `queryInstant`.
unfoldable pub keep_books : Env → String → Option Error → M Unit
keep_books env dimension none = success env
keep_books env dimension (some e) =
    if is_missing e
    then (do on_metrics (increment_query_error dimension); success env)
    else on_metrics (increment_query_error dimension)

-- One dimension as a goroutine of `saturationFor` leaves it: its value and its age.
pub record Reading : Type 0 where
  pub value : Float64
  pub age : Duration

-- A dimension that has no sample keeps the zero values.
abbrev pub no_reading : Reading
no_reading = record { value = fin false 0; age = pos 0 }

module _ (env : Env) where
  unfoldable pub query_instant : Bool → String → String → String → Duration → M Reply
  query_instant cancelled dimension addr query ttl = do
    start ← tick env
    reply ← get_cached (get env.clock env.group env.source cancelled addr query ttl)
    now ← tick env
    on_metrics (observe_query_duration dimension (sub now start))
    keep_books env dimension reply.1
    pure reply

  -- The body of a goroutine, after its query.
  unfoldable pub settle : Config → String → Reply → M (Result Reading)
  settle c prefix (sample, none) = do
    now ← tick env
    pure (ok (record { value = sample.value; age = sub now sample.time }))
  settle c prefix (sample, some e) =
      if is_missing e && not c.treat_missing_as_error
      then pure (ok no_reading)
      else pure (err (wrap prefix e))

  unfoldable pub queue_task : Config → Bool → M (Result Reading)
  queue_task c cancelled = do
    reply ← query_instant cancelled "queue" c.prom_addr c.queue_query c.cache_ttl
    settle c "queue query: " reply

  unfoldable pub kv_task : Config → Bool → M (Result Reading)
  kv_task c cancelled = do
    reply ← query_instant cancelled "kv" c.prom_addr c.kv_query c.cache_ttl
    settle c "kv-cache query: " reply

-- errgroup.Wait after both goroutines: the error of the one that ended first with an error.
abbrev pub wait_for : Bool → Result Reading → Result Reading → Result (Reading × Reading)
wait_for kv_first (ok q) (ok k) = ok (q, k)
wait_for kv_first (ok q) (err e) = err e
wait_for kv_first (err e) (ok k) = err e
wait_for kv_first (err e) (err e') = err (if kv_first then e' else e)

abbrev pub has_failed : {A : Type 0} → Result A → Bool
has_failed (ok a) = false
has_failed (err e) = true

abbrev pub scored : Config → Result (Reading × Reading) → Result SaturationResult
scored c (err e) = err e
scored c (ok (q, k)) = ok (record {
  score = score q.value c.queue_threshold k.value c.kv_threshold;
  queue_age = q.age;
  kv_age = k.age;
})

module _ (env : Env) where
  -- Both queries, the one that ends first before the other. A failed one cancels the context of the
  -- other, if that still runs.
  unfoldable pub both_tasks : Config → Bool → Bool → Bool → M (Result (Reading × Reading))
  both_tasks c cancelled cancels true = do
    k ← kv_task env c cancelled
    q ← queue_task env c (cancelled || has_failed k && cancels)
    pure (wait_for true q k)
  both_tasks c cancelled cancels false = do
    q ← queue_task env c cancelled
    k ← kv_task env c (cancelled || has_failed q && cancels)
    pure (wait_for false q k)

  unfoldable pub saturation_for : Config → Bool → M (Result SaturationResult)
  saturation_for c cancelled = do
    round ← next_round env
    readings ← both_tasks c cancelled round.1 round.0
    pure (scored c readings)

  -- SetSaturation and both SetSignalAge of `IsActive` and `GetMetrics`.
  unfoldable pub show_result : ScaledObjectRef → SaturationResult → M Unit
  show_result ref res = do
    on_metrics (record_saturation ref.namespace ref.name res.score)
    on_metrics (record_signal_age ref.namespace ref.name "queue" res.queue_age)
    on_metrics (record_signal_age ref.namespace ref.name "kv" res.kv_age)

  abbrev on_result :
      {A : Type 0}
      → ScaledObjectRef
      → (SaturationResult → A)
      → Result SaturationResult
      → M (Result A)
  on_result ref f (err e) = pure (err e)
  on_result ref f (ok res) = do show_result ref res; pure (ok (f res))

  abbrev on_config :
      {A : Type 0}
      → ScaledObjectRef
      → (Config → SaturationResult → A)
      → Bool
      → Config × Option Error
      → M (Result A)
  on_config ref f cancelled (c, some e) = pure (err e)
  on_config ref f cancelled (c, none) = do res ← saturation_for c cancelled; on_result ref (f c) res

  -- The response's `Result`.
  unfoldable pub is_active : Bool → ScaledObjectRef → M (Result Bool)
  is_active cancelled ref = do
    on_metrics (increment_grpc_request "IsActive")
    on_config ref (λ c res. gtb res.score c.activation) cancelled (parse ref.scaler_metadata)

  unfoldable pub get_metric_spec : M (Result (List MetricSpec))
  get_metric_spec = do
    on_metrics (increment_grpc_request "GetMetricSpec")
    pure (
        ok (
          record {
            metric_name = metric_name;
            target_size = to_int env.machine target_value;
            target_size_float = target_value;
          }
          ∷ []))

  unfoldable pub metric_values : SaturationResult → List MetricValue
  metric_values res =
      record {
        metric_name = metric_name;
        metric_value = to_int env.machine (round res.score);
        metric_value_float = res.score;
      }
      ∷ []

  abbrev metrics_of : Bool → Option ScaledObjectRef → M (Option (Result (List MetricValue)))
  metrics_of cancelled none = pure none
  metrics_of cancelled (some ref) = do
    r ← on_config ref (λ c res. metric_values res) cancelled (parse ref.scaler_metadata)
    pure (some r)

  -- `none` is the panic of a nil `req.ScaledObjectRef`.
  unfoldable pub get_metrics :
      Bool → Option ScaledObjectRef → M (Option (Result (List MetricValue)))
  get_metrics cancelled ref = do
    on_metrics (increment_grpc_request "GetMetrics")
    metrics_of cancelled ref
