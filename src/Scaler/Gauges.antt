-- ===== src/Scaler/Gauges.antt =====
-- What a decision leaves in the gauges of its ScaledObject, and in those of the others.
use inference_platform.Prelude.{
  ◌≡◌, refl, ◌∙◌, String, Bool, ◌&&◌, List, ◌∷◌, Option, none, some, str_eq, if◌then◌else◌,
  Bool-cases, inl, inr,
}
use inference_platform.Config.{Config, parse}
use inference_platform.Go.Errors.{Error}
use inference_platform.Go.Float64.{Float64, gtb}
use inference_platform.Go.Time.{seconds}
use inference_platform.Observability.Instruments.{
  Metrics, Call, observe_duration, inc_query_error, set_saturation, set_signal_age,
  inc_grpc_request, inc_stream_error, increment_grpc_request, record_saturation, record_signal_age,
}
use inference_platform.Observability.Instruments.Values.{shown_saturation, shown_age}
use inference_platform.Scaler.{
  Env, Scaler, on_metrics, ScaledObjectRef, SaturationResult, Result, ok, err, show_result,
  saturation_for, on_result, on_config, is_active,
}
use inference_platform.Scaler.Keeps.{IsKeptWith, OfQuery, saturation_for-Keeps}

-- The three gauges of one ScaledObject.
pub record Gauges : Type 0 where
  pub saturation : Option Float64
  pub queue_age : Option Float64
  pub kv_age : Option Float64

abbrev pub gauges_of : String → String → List Call → Gauges
gauges_of namespace object cs = record {
  saturation = shown_saturation namespace object cs;
  queue_age = shown_age namespace object "queue" cs;
  kv_age = shown_age namespace object "kv" cs;
}

-- The scaler has instruments, and they show these gauges for the ScaledObject.
abbrev pub Shows : String → String → Gauges → Scaler → Type 0
Shows namespace object g s =
    (m : Metrics) × (s.metrics ≡ some m) × (gauges_of namespace object m.calls ≡ g)

-- The gauges of a result.
abbrev pub gauges_for : SaturationResult → Gauges
gauges_for res = record {
  saturation = some res.score;
  queue_age = some (seconds res.queue_age);
  kv_age = some (seconds res.kv_age);
}

abbrev pub is_for : ScaledObjectRef → String → String → Bool
is_for ref namespace object = str_eq ref.namespace namespace && str_eq ref.name object

module _ (env : Env) (namespace object : String) (g : Gauges) where
  query_call :
      (c : Call) (cs : List Call)
      → OfQuery c
      → gauges_of namespace object (c ∷ cs) ≡ gauges_of namespace object cs
  unfolding shown_saturation shown_age
  query_call (observe_duration d v) cs h = refl
  query_call (inc_query_error d) cs h = refl
  query_call (set_saturation n o v) cs h = absurd h
  query_call (set_signal_age n o d v) cs h = absurd h
  query_call (inc_grpc_request m) cs h = absurd h
  query_call inc_stream_error cs h = absurd h

  Shows-IsKeptWith : IsKeptWith env OfQuery (Shows namespace object g)
  Shows-IsKeptWith = record {
    moved = λ s w h. h;
    got = λ x addr query ttl s h. h;
    counted = λ c s q (m, e, same).
        (record m { calls = c ∷ m.calls }, rw e refl, query_call c m.calls q ∙ same);
    seen = λ t s h. h;
    advanced = λ s h. h;
  }

  show_result-Shows :
      (ref : ScaledObjectRef) (res : SaturationResult) (s : Scaler)
      → Shows namespace object g s
      → Shows namespace object
          (if is_for ref namespace object then gauges_for res else g)
          (show_result env ref res s).1
  unfolding show_result on_metrics record_saturation record_signal_age shown_saturation shown_age
  show_result-Shows ref res s (m, e, same) = rw e (
    _,
    refl,
    elim (Bool-cases (str_eq ref.namespace namespace)) [
      | inl p ↦ elim (Bool-cases (str_eq ref.name object)) [
        | inl q ↦ rw (p, q) refl
        | inr q ↦ rw (p, q) same
      ]
      | inr p ↦ rw p same
    ],
  )

  -- After an error the gauges are as they were; after an answer, `f` of the result that the two
  -- queries gave, the gauges of the call's own ScaledObject are those of that result.
  abbrev pub Leaves :
      {A : Type 0}
      → ScaledObjectRef
      → (SaturationResult → A)
      → Result SaturationResult
      → Result A
      → Scaler
      → Type 0
  Leaves ref f queried (err e) s = Shows namespace object g s
  Leaves ref f queried (ok a) s =
      (res : SaturationResult) × (queried ≡ ok res)
      × (a ≡ f res)
      × Shows namespace object (if is_for ref namespace object then gauges_for res else g) s

  module _ {A : Type 0} (ref : ScaledObjectRef) where
    on_result-Leaves :
        (f : SaturationResult → A) (r : Result SaturationResult) (s : Scaler)
        → Shows namespace object g s
        → Leaves ref f r (on_result env ref f r s).0 (on_result env ref f r s).1
    on_result-Leaves f (err e) s h = h
    on_result-Leaves f (ok res) s h = (res, refl, refl, show_result-Shows ref res s h)

    on_config-Leaves :
        (f : Config → SaturationResult → A) (x : Bool) (p : Config × Option Error) (s : Scaler)
        → Shows namespace object g s
        → let (r, s') = on_config env ref f x p s in
          Leaves ref (f p.0) (saturation_for env p.0 x s).0 r s'
    on_config-Leaves f x (c, some e) s h = h
    on_config-Leaves f x (c, none) s h =
        on_result-Leaves (f c) _ _ (saturation_for-Keeps Shows-IsKeptWith c x s h)

  -- The scaler when the method has counted its request, before it queries.
  abbrev pub when_counted : String → Scaler → Scaler
  when_counted method s = (on_metrics (increment_grpc_request method) s).1

  request_counted :
      (method : String) (s : Scaler)
      → Shows namespace object g s
      → Shows namespace object g (when_counted method s)
  unfolding on_metrics increment_grpc_request shown_saturation shown_age
  request_counted method s (m, e, same) = rw e (_, refl, same)

  -- In a scaler with instruments, whatever the context: when `IsActive` answers, its two queries have
  -- given a result, the answer is whether its score is above the activation threshold, and the
  -- gauges of its ScaledObject show that score and the result's age of the queue's and of the KV
  -- cache's signal; the gauges of every other ScaledObject, and all gauges after an error, are as
  -- they were.
  pub is_active-Leaves :
      (x : Bool) (ref : ScaledObjectRef) (s : Scaler)
      → Shows namespace object g s
      → let (r, s') = is_active env x ref s in
        let c = (parse ref.scaler_metadata).0 in
        Leaves ref
          (λ res. gtb res.score c.activation)
          (saturation_for env c x (when_counted "IsActive" s)).0
          r
          s'
  unfolding is_active
  is_active-Leaves x ref s h =
      on_config-Leaves ref (λ c res. gtb res.score c.activation) x (parse ref.scaler_metadata) _
        (request_counted "IsActive" s h)
