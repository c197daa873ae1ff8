-- ===== src/Scaler/Methods.antt =====
-- What the methods of the service return, as a function of what the backend answers.
use inference_platform.Prelude.{
  ◌≡◌, ◌≢◌, refl, sym, ap, ◌∙◌, String, Bool, true, false, List, [], ◌∷◌, Option, none, some,
}
use inference_platform.Config.{Config, parse}
use inference_platform.Go.Errors.{Error}
use inference_platform.Go.Float64.{Float64, nan, inf, gtb, round, to_int}
use inference_platform.Metrics.Source.{Sample, Reply}
use inference_platform.Metrics.Cache.Keys.{NoNul}
use inference_platform.Metrics.Cache.Answers.{Answers, IsConsistent}
use inference_platform.Saturation.{score, dimension_score, zero_score}
use inference_platform.Saturation.Dimensions.{score_nan}
use inference_platform.Scaler.{
  Env, Scaler, SaturationResult, ScaledObjectRef, Result, ok, err, on_result, on_config, is_active,
  get_metrics, on_metrics, MetricValue, metric_values, metric_name,
}
use inference_platform.Scaler.Decisions.{
  map_result, value_of, combined, expected_score, score_part, saturation_for-score,
}

-- The parse error, or what the configuration gives.
abbrev pub when_parsed : {A : Type 0} → Config × Option Error → (Config → Result A) → Result A
when_parsed (c, some e) k = err e
when_parsed (c, none) k = k c

-- The metrics of a score.
abbrev pub reported : Env → Float64 → List MetricValue
reported env v =
    record {
      metric_name = metric_name;
      metric_value = to_int env.machine (round v);
      metric_value_float = v;
    }
    ∷ []

module _ (env : Env) (ref : ScaledObjectRef) where
  on_result-score :
      {A : Type 0} (g : Float64 → A) (r : Result SaturationResult) (s : Scaler)
      → (on_result env ref (λ (x : SaturationResult). g x.score) r s).0
        ≡ map_result g (score_part r)
  on_result-score g (ok res) s = refl
  on_result-score g (err e) s = refl

  module _ (f : String → String → Reply) (a : Answers f env.group env.source) where
    on_config-score :
        {A : Type 0} (g : Config → Float64 → A) (p : Config × Option Error) (s : Scaler)
        → NoNul p.0.prom_addr
        → IsConsistent f s.cache
        → (on_config env ref (λ c (x : SaturationResult). g c x.score) false p s).0
          ≡ when_parsed p (λ c. map_result (g c) (expected_score (env.kv_first s.rounds) c f))
    on_config-score g (c, some e) s n v = refl
    on_config-score g (c, none) s n v =
        on_result-score (g c) _ _
        ∙ ap (λ (r : Result Float64). map_result (g c) r) (saturation_for-score env f a c n s v)

    module _ (s : Scaler) (n : NoNul (parse ref.scaler_metadata).0.prom_addr)
        (v : IsConsistent f s.cache) where
      -- `IsActive`, for an address without NUL and in a context that is not cancelled, over a
      -- backend whose answers are a function of address and query, where the flights of other
      -- goroutines share only those answers, and from a cache that is consistent with it, returns the parse error, or the error of a dimension that fails, or
      -- whether the score of the backend's two answers is above the activation threshold.
      pub is_active-expected :
          (is_active env false ref s).0
          ≡ when_parsed (parse ref.scaler_metadata) (λ c.
            map_result (λ x. gtb x c.activation) (expected_score (env.kv_first s.rounds) c f))
      unfolding is_active on_metrics
      is_active-expected =
          on_config-score (λ c x. gtb x c.activation) (parse ref.scaler_metadata) _ n v

      -- `GetMetrics`, for an address without NUL and in a context that is not cancelled, over a
      -- backend whose answers are a function of address and query, where the flights of other
      -- goroutines share only those answers, and from a cache that is consistent with it, returns the parse error, or the error of a dimension that fails, or one
      -- metric with the score of the backend's two answers, exact and rounded to an integer.
      pub get_metrics-expected :
          (get_metrics env false (some ref) s).0
          ≡ some (
              when_parsed
                (parse ref.scaler_metadata)
                (λ c. map_result (reported env) (expected_score (env.kv_first s.rounds) c f)))
      unfolding get_metrics on_metrics metric_values
      get_metrics-expected =
          ap some (on_config-score (λ c. reported env) (parse ref.scaler_metadata) _ n v)

-- The configuration of a ScaledObject.
abbrev pub config_of : ScaledObjectRef → Config
config_of ref = (parse ref.scaler_metadata).0

-- One sample of the backend and no error.
abbrev pub Reads : (String → String → Reply) → String → String → Float64 → Type 0
Reads f addr query v = (s : Sample) × (f addr query ≡ (s, none)) × (s.value ≡ v)

Reads-value :
    (f : String → String → Reply) (c : Config) (prefix query : String) (v : Float64)
    → Reads f c.prom_addr query v
    → value_of c prefix (f c.prom_addr query) ≡ ok v
Reads-value f c prefix query v (s, e, q) = ap (value_of c prefix) e ∙ ap (λ (x : Float64). ok x) q

-- The score in the metrics of one.
score_in : List MetricValue → Float64
score_in [] = zero_score
score_in (m ∷ ms) = m.metric_value_float

reported_ok :
    (env : Env) (v : Float64) (r : Result Float64)
    → map_result (reported env) r ≡ ok (reported env v)
    → r ≡ ok v
unfolding score_in
reported_ok env v (ok x) h =
    let same : reported env x ≡ reported env v = cc in ap (λ ms. ok (score_in ms)) same
reported_ok env v (err e) h = cc

module _ (f : String → String → Reply) where
  expected_score-Reads :
      (c : Config) (first : Bool) (q k : Float64)
      → Reads f c.prom_addr c.queue_query q
      → Reads f c.prom_addr c.kv_query k
      → expected_score first c f ≡ ok (score q c.queue_threshold k c.kv_threshold)
  expected_score-Reads c first q k hq hk =
      rw
        (
          Reads-value f c "queue query: " c.queue_query q hq,
          Reads-value f c "kv-cache query: " c.kv_query k hk,
        )
        refl

  nan_inactive :
      (p : Config × Option Error) (first : Bool) (k : Float64)
      → p.1 ≡ none
      → Reads f p.0.prom_addr p.0.queue_query nan
      → Reads f p.0.prom_addr p.0.kv_query k
      → gtb p.0.queue_threshold zero_score ≡ true
      → dimension_score k p.0.kv_threshold ≢ inf false
      → when_parsed p (λ c. map_result (λ x. gtb x c.activation) (expected_score first c f))
        ≡ ok false
  unfolding gtb
  nan_inactive (c, some e) first k h hq hk pos_threshold finite = cc
  nan_inactive (c, none) first k h hq hk pos_threshold finite =
      rw
        (
          expected_score-Reads c first nan k hq hk,
          score_nan c.queue_threshold k c.kv_threshold pos_threshold finite,
        )
        refl

  -- Where the queue's sample is NaN and the KV cache's is any value, over a backend whose answers
  -- are a function of address and query, where the flights of other goroutines share only those
  -- answers, and from a cache that is consistent with it, `IsActive`
  -- returns false, if the metadata parse, the address has no NUL, the context is not cancelled, the
  -- queue threshold is positive and the KV cache's part of the score is not +Inf.
  pub is_active-nan :
      (env : Env) (ref : ScaledObjectRef) (s : Scaler) (k : Float64)
      → Answers f env.group env.source
      → IsConsistent f s.cache
      → NoNul (config_of ref).prom_addr
      → (parse ref.scaler_metadata).1 ≡ none
      → Reads f (config_of ref).prom_addr (config_of ref).queue_query nan
      → Reads f (config_of ref).prom_addr (config_of ref).kv_query k
      → gtb (config_of ref).queue_threshold zero_score ≡ true
      → dimension_score k (config_of ref).kv_threshold ≢ inf false
      → (is_active env false ref s).0 ≡ ok false
  is_active-nan env ref s k a v n parsed hq hk pos_threshold finite =
      is_active-expected env ref f a s n v
      ∙ nan_inactive (parse ref.scaler_metadata) _ k parsed hq hk pos_threshold finite

  combined_either :
      (c : Config) (first first' : Bool) (q k : Result Float64) (v : Float64)
      → combined first c q k ≡ ok v
      → combined first' c q k ≡ ok v
  combined_either c first first' (ok q) (ok k) v h = h
  combined_either c first first' (ok q) (err e) v h = absurd (cc)
  combined_either c first first' (err e) (ok k) v h = absurd (cc)
  combined_either c first first' (err e) (err e') v h = absurd (cc)

  reported_score :
      (env : Env) (p : Config × Option Error) (first first' : Bool) (v : Float64)
      → when_parsed p (λ c. map_result (reported env) (expected_score first c f))
        ≡ ok (reported env v)
      → when_parsed p (λ c. map_result (λ x. gtb x c.activation) (expected_score first' c f))
        ≡ ok (gtb v p.0.activation)
  reported_score env (c, some e) first first' v h = absurd (cc)
  reported_score env (c, none) first first' v h =
      let same : expected_score first c f ≡ ok v = reported_ok env v _ h in
      ap (λ (r : Result Float64). map_result (λ x. gtb x c.activation) r)
        (combined_either c first first' _ _ v same)

  -- `IsActive` and `GetMetrics` agree, for an address without NUL, in contexts that are not
  -- cancelled and over a backend whose answers are a function of address and query, where the
  -- flights of other goroutines share only those answers: where
  -- `GetMetrics` reported a score from one consistent cache, `IsActive` from any consistent cache,
  -- with either query first, says whether that score is above the activation threshold.
  pub is_active-get_metrics :
      (env : Env) (ref : ScaledObjectRef) (s s' : Scaler) (v : Float64)
      → Answers f env.group env.source
      → IsConsistent f s.cache
      → IsConsistent f s'.cache
      → NoNul (parse ref.scaler_metadata).0.prom_addr
      → (get_metrics env false (some ref) s).0 ≡ some (ok (reported env v))
      → (is_active env false ref s').0 ≡ ok (gtb v (parse ref.scaler_metadata).0.activation)
  is_active-get_metrics env ref s s' v a c c' n h =
      is_active-expected env ref f a s' n c'
      ∙ reported_score env (parse ref.scaler_metadata) (env.kv_first s.rounds) _ v
          (some_ok (sym (get_metrics-expected env ref f a s n c) ∙ h))
    where
      some_ok : {x y : Result (List MetricValue)} → some x ≡ some y → x ≡ y
      some_ok e = cc
