-- ===== src/Scaler/Keeps.antt =====
-- Invariants of the scaler's state: what every primitive keeps, every method keeps.
use inference_platform.Prelude.{
  ◌+◌, ◌≡◌, ◌≢◌, refl, String, Bool, true, false, not, ◌&&◌, Option, none, some, Bool-cases, inl,
  inr,
}
use inference_platform.Config.{Config}
use inference_platform.Go.Errors.{Error, is_missing}
use inference_platform.Go.Float64.{gtb}
use inference_platform.Go.Time.{Time, Duration}
use inference_platform.Metrics.Source.{Reply, World}
use inference_platform.Metrics.Cache.{get}
use inference_platform.Observability.Instruments.{
  Call, observe_duration, inc_query_error, set_saturation, set_signal_age, inc_grpc_request,
  inc_stream_error, called, observe_query_duration, increment_query_error, record_saturation,
  record_signal_age, increment_grpc_request,
}
use inference_platform.Observability.Health.{Health, record_success}
use inference_platform.Scaler.{
  Env, Scaler, M, tick, get_cached, on_metrics, success, success_at, next_round, keep_books,
  query_instant, settle, queue_task, kv_task, both_tasks, saturation_for, show_result, is_active,
  get_metric_spec, get_metrics, on_config, on_result, ScaledObjectRef, SaturationResult,
  metric_values, Result, ok, err,
}

-- The calls of the instruments that a query makes; those of an answer, with its queries; and those
-- of a method that answers one request.
abbrev pub OfQuery : Call → Type 0
OfQuery (observe_duration d v) = Unit {0}
OfQuery (inc_query_error d) = Unit {0}
OfQuery c = ⊥

abbrev pub OfAnswer : Call → Type 0
OfAnswer (set_saturation n o v) = Unit {0}
OfAnswer (set_signal_age n o d v) = Unit {0}
OfAnswer c = OfQuery c

abbrev pub OfMethod : Call → Type 0
OfMethod c = c ≢ inc_stream_error

-- `P` survives each primitive step of the methods, where they make no calls but `Calls`.
pub record IsKeptWith (env : Env) (Calls : Call → Type 0) (P : Scaler → Type 0) : Type 0 where
  pub moved : (s : Scaler) (w : World) → P s → P (record s { cache = record s.cache { world = w } })
  pub got :
      (x : Bool) (addr query : String) (ttl : Duration) (s : Scaler)
      → P s
      → P (record s { cache = (get env.clock env.group env.source x addr query ttl s.cache).1 })
  pub counted :
      (c : Call) (s : Scaler) → Calls c → P s → P (record s { metrics = called c s.metrics })
  pub seen : (t : Time) (s : Scaler) → P s → P (record s { health = record_success t s.health })
  pub advanced : (s : Scaler) → P s → P (record s { rounds = s.rounds + 1 })

abbrev pub IsKept : Env → (Scaler → Type 0) → Type 0
IsKept env P = IsKeptWith env OfMethod P

OfQuery→OfAnswer : (c : Call) → OfQuery c → OfAnswer c
OfQuery→OfAnswer (observe_duration d v) h = h
OfQuery→OfAnswer (inc_query_error d) h = h
OfQuery→OfAnswer (set_saturation n o v) h = tt
OfQuery→OfAnswer (set_signal_age n o d v) h = tt
OfQuery→OfAnswer (inc_grpc_request m) h = h
OfQuery→OfAnswer inc_stream_error h = h

OfAnswer→OfMethod : (c : Call) → OfAnswer c → OfMethod c
OfAnswer→OfMethod inc_stream_error h = absurd h
OfAnswer→OfMethod (observe_duration d v) h = λ e. cc
OfAnswer→OfMethod (inc_query_error d) h = λ e. cc
OfAnswer→OfMethod (set_saturation n o v) h = λ e. cc
OfAnswer→OfMethod (set_signal_age n o d v) h = λ e. cc
OfAnswer→OfMethod (inc_grpc_request m) h = λ e. cc

module _ {env : Env} {P : Scaler → Type 0} where
  with_fewer :
      {C D : Call → Type 0} → ((c : Call) → C c → D c) → IsKeptWith env D P → IsKeptWith env C P
  with_fewer f k = record {
    moved = k.moved;
    got = k.got;
    counted = λ c s h. k.counted c s (f c h);
    seen = k.seen;
    advanced = k.advanced;
  }

  pub by_queries : IsKeptWith env OfAnswer P → IsKeptWith env OfQuery P
  by_queries = with_fewer OfQuery→OfAnswer

  pub by_answers : IsKept env P → IsKeptWith env OfAnswer P
  by_answers = with_fewer OfAnswer→OfMethod

abbrev pub Keeps : {A : Type 0} → (Scaler → Type 0) → M A → Type 0
Keeps P m = (s : Scaler) → P s → P (m s).1

module _ {env : Env} {P : Scaler → Type 0} (k : IsKeptWith env OfQuery P) where
  pub tick-Keeps : Keeps P (tick env)
  unfolding tick
  tick-Keeps s h = k.moved s _ h

  success_at-Keeps :
      (o : Option Health) (s : Scaler) → s.health ≡ o → P s → P (success_at env o s).1
  unfolding tick record_success
  success_at-Keeps none s e h = h
  success_at-Keeps (some health) s e h =
      let t = (tick env s).0 in
      let step : P (record (tick env s).1 { health = record_success t (tick env s).1.health }) =
        k.seen t (tick env s).1 (tick-Keeps s h) in
      rw e at step

  pub success-Keeps : Keeps P (success env)
  unfolding success
  success-Keeps s h = success_at-Keeps s.health s refl h

  pub errors-Keeps : (d : String) → Keeps P (on_metrics (increment_query_error d))
  unfolding on_metrics increment_query_error
  errors-Keeps d s h = k.counted _ s tt h

  keep_books-Keeps : (d : String) (e : Option Error) → Keeps P (keep_books env d e)
  unfolding keep_books
  keep_books-Keeps d none s h = success-Keeps s h
  keep_books-Keeps d (some e) s h = elim (Bool-cases (is_missing e)) [
    | inl m ↦ rw m (success-Keeps _ (errors-Keeps d s h))
    | inr m ↦ rw m (errors-Keeps d s h)
  ]

  pub query_instant-Keeps :
      (x : Bool) (d addr query : String) (ttl : Duration)
      → Keeps P (query_instant env x d addr query ttl)
  unfolding query_instant on_metrics get_cached observe_query_duration
  query_instant-Keeps x d addr query ttl s h =
      keep_books-Keeps d _ _
        (k.counted _ _ tt (tick-Keeps _ (k.got x addr query ttl (tick env s).1 (tick-Keeps s h))))

  pub settle-Keeps : (c : Config) (prefix : String) (r : Reply) → Keeps P (settle env c prefix r)
  unfolding settle
  settle-Keeps c prefix (sample, none) s h = tick-Keeps s h
  settle-Keeps c prefix (sample, some e) s h =
      elim (Bool-cases (is_missing e && not c.treat_missing_as_error)) [
        | inl m ↦ rw m h
        | inr m ↦ rw m h
      ]

  both_tasks-Keeps :
      (c : Config) (x cancels first : Bool) → Keeps P (both_tasks env c x cancels first)
  unfolding both_tasks queue_task kv_task
  both_tasks-Keeps c x cancels true s h =
      settle-Keeps c _ _ _
        (query_instant-Keeps _ _ _ _ _ _ (settle-Keeps c _ _ _ (query_instant-Keeps _ _ _ _ _ s h)))
  both_tasks-Keeps c x cancels false s h =
      settle-Keeps c _ _ _
        (query_instant-Keeps _ _ _ _ _ _ (settle-Keeps c _ _ _ (query_instant-Keeps _ _ _ _ _ s h)))

  pub saturation_for-Keeps : (c : Config) (x : Bool) → Keeps P (saturation_for env c x)
  unfolding saturation_for next_round
  saturation_for-Keeps c x s h = both_tasks-Keeps c x _ _ _ (k.advanced s h)

module _ {env : Env} {P : Scaler → Type 0} (k : IsKeptWith env OfAnswer P) where
  show_result-Keeps :
      (ref : ScaledObjectRef) (res : SaturationResult) → Keeps P (show_result env ref res)
  unfolding show_result on_metrics record_saturation record_signal_age
  show_result-Keeps ref res s h = k.counted _ _ tt (k.counted _ _ tt (k.counted _ s tt h))

  on_result-Keeps :
      {A : Type 0} (ref : ScaledObjectRef) (f : SaturationResult → A) (r : Result SaturationResult)
      → Keeps P (on_result env ref f r)
  on_result-Keeps ref f (ok res) s h = show_result-Keeps ref res s h
  on_result-Keeps ref f (err e) s h = h

  pub on_config-Keeps :
      {A : Type 0} (ref : ScaledObjectRef) (f : Config → SaturationResult → A) (x : Bool)
      (p : Config × Option Error)
      → Keeps P (on_config env ref f x p)
  on_config-Keeps ref f x (c, none) s h =
      on_result-Keeps ref (f c) _ _ (saturation_for-Keeps (by_queries k) c x s h)
  on_config-Keeps ref f x (c, some e) s h = h

module _ {env : Env} {P : Scaler → Type 0} (k : IsKept env P) where
  -- `IsActive`, `GetMetricSpec` and `GetMetrics` keep every such property.
  pub is_active-Keeps : (x : Bool) (ref : ScaledObjectRef) → Keeps P (is_active env x ref)
  unfolding is_active on_metrics increment_grpc_request
  is_active-Keeps x ref s h =
      on_config-Keeps (by_answers k) ref (λ c res. gtb res.score c.activation) x _ _
        (k.counted (inc_grpc_request "IsActive") s (λ e. cc) h)

  pub get_metric_spec-Keeps : Keeps P (get_metric_spec env)
  unfolding get_metric_spec on_metrics increment_grpc_request
  get_metric_spec-Keeps s h = k.counted _ s (λ e. cc) h

  pub get_metrics-Keeps :
      (x : Bool) (ref : Option ScaledObjectRef) → Keeps P (get_metrics env x ref)
  unfolding get_metrics on_metrics increment_grpc_request
  get_metrics-Keeps x none s h = k.counted _ s (λ e. cc) h
  get_metrics-Keeps x (some ref) s h =
      on_config-Keeps (by_answers k) ref (λ c res. metric_values env res) x _ _
        (k.counted (inc_grpc_request "GetMetrics") s (λ e. cc) h)
