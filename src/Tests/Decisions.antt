-- ===== src/Tests/Decisions.antt =====
-- The scaler's methods in front of the Prometheus of the tests.
use inference_platform.Prelude.{
  ℕ, ◌≤◌, ◌<◌, ◌↔◌, arith, ◌+◌, ◌*◌, ◌≡◌, ◌≢◌, refl, String, false, [], ◌∷◌, none, some, true,
  lookup,
}
use inference_platform.Prelude.Int.{pos, ltb_ℤ, ◌-ℤ◌}
use inference_platform.Config.{
  Config, parse, at_key, defaults, overridden, default_queue_query, float_or, duration_or,
  string_or,
}
use inference_platform.Go.Float64.{
  Float64, fin, nan, inf, gtb, round_to, rounded, div, shift, round_even, one_units, limit_units,
}
use inference_platform.Go.Time.{difference, after, second, sub}
use inference_platform.Metrics.Source.{Reply}
use inference_platform.Metrics.Cache.{CacheEntry, cache_key}
use inference_platform.Metrics.Cache.Entries.{AllCacheable}
use inference_platform.Metrics.Cache.Answers.{IsConsistent}
use inference_platform.Observability.Instruments.{new_metrics}
use inference_platform.Observability.Health.{new_health, record_success}
use inference_platform.Go.Strconv.{parse_float}
use inference_platform.Observability.Server.{new_server, handle, status}
use inference_platform.Saturation.{score, dimension_score}
use inference_platform.Scaler.{
  Env, Scaler, ScaledObjectRef, ok, query_instant, saturation_for, is_active, get_metrics,
}
use inference_platform.Scaler.Queries.{query_instant_hit}
use inference_platform.Scaler.Readiness.{is_active-readyz}
use inference_platform.Metrics.Cache.Forward.{IsForward}
use inference_platform.Scaler.Sources.{FromReplies}
use inference_platform.Scaler.Decisions.{map_result, expected_score, score_part}
use inference_platform.Scaler.Methods.{
  when_parsed, reported, is_active-expected, get_metrics-expected, is_active-nan,
  is_active-get_metrics,
}
use inference_platform.Service.{
  launch, Process, Reachable, started, called, is_active_called, new_scaler,
}
use inference_platform.Service.Reached.{
  reachable-FromReplies, reachable-AllCacheable, reachable-is_active,
}
use inference_platform.Tests.Data.{
  honest, address, address-NoNul, metadata, object, at, ticking, world, answer_with, env_of,
  answers,
}

abbrev queue : Float64
queue = fin false (6 * one_units)

abbrev env : Env
env = env_of (answer_with queue)

-- A scaler with instruments and a readiness, before its first query.
abbrev ready_scaler : Scaler
ready_scaler = record (new_scaler world) {
  metrics = some new_metrics;
  health =
      some
        (record { window = pos (120 * second); started_at = at 0; last_ok = at 0; has_ok = false });
}

empty-IsConsistent : (f : String → String → Reply) → IsConsistent f ready_scaler.cache
unfolding lookup
empty-IsConsistent f = record { answers = λ addr query e n found. cc }

abbrev entry : CacheEntry
entry = record { sample = record { value = queue; time = at 0 }; error = none; expires_at = at 9 }

-- Its cache has a reading.
abbrev filled_scaler : Scaler
filled_scaler = record ready_scaler {
  cache = record ready_scaler.cache {
    entries = (cache_key address default_queue_query, entry) ∷ [];
  };
}

query_instant_hit_example :
    let (reply, s') =
      query_instant env false "queue" address default_queue_query (pos second) filled_scaler in
    (reply ≡ (entry.sample, entry.error))
    × (s'.cache.world.requests ≡ 0)
    × (s'.health ≡ record_success (ticking (0 + 1 + 1 + 1)) filled_scaler.health)
unfolding lookup cache_key after difference ◌-ℤ◌
query_instant_hit_example =
    query_instant_hit env false "queue" address default_queue_query (pos second) filled_scaler
      (record { window = pos (120 * second); started_at = at 0; last_ok = at 0; has_ok = false })
      entry refl refl refl refl refl

get_metrics-expected_example :
    (get_metrics env false (some object) ready_scaler).0
    ≡ some (
        when_parsed
          (parse metadata)
          (λ c. map_result (reported env) (expected_score false c (answer_with queue))))
unfolding parse defaults overridden at_key
get_metrics-expected_example =
    get_metrics-expected env object (answer_with queue) (answers queue) ready_scaler address-NoNul
      (empty-IsConsistent (answer_with queue))

-- Both thresholds are 1.
abbrev simple : ScaledObjectRef
simple = record {
  name = "vllm";
  namespace = "inference";
  scaler_metadata = ("queueThreshold", "1") ∷ ("kvCacheThreshold", "1") ∷ metadata;
}

one_threshold : parse_float "1" ≡ some (fin false one_units)
unfolding parse_float round_to rounded round_even shift limit_units one_units
one_threshold = refl

part_finite : dimension_score (fin false one_units) (fin false one_units) ≢ inf false
unfolding dimension_score gtb div rounded round_even shift limit_units one_units
part_finite e = cc

is_active-nan_example :
    (is_active (env_of (answer_with nan)) false simple ready_scaler).0 ≡ ok false
unfolding parse defaults overridden at_key string_or float_or gtb one_units
is_active-nan_example =
    is_active-nan (answer_with nan) (env_of (answer_with nan)) simple ready_scaler
      (fin false one_units) (answers nan) (empty-IsConsistent (answer_with nan)) address-NoNul refl
      (_, refl, refl) (_, refl, refl) (rw one_threshold refl) (rw one_threshold part_finite)

abbrev reported_value : Float64
reported_value =
    score queue (parse metadata).0.queue_threshold (fin false one_units)
      (parse metadata).0.kv_threshold

is_active-get_metrics_example :
    (is_active env false object ready_scaler).0
    ≡ ok (gtb reported_value (parse metadata).0.activation)
unfolding parse defaults overridden at_key string_or
is_active-get_metrics_example =
    is_active-get_metrics (answer_with queue) env object ready_scaler ready_scaler reported_value
      (answers queue) (empty-IsConsistent (answer_with queue))
      (empty-IsConsistent (answer_with queue)) address-NoNul
      (get_metrics-expected env object (answer_with queue) (answers queue) ready_scaler
        address-NoNul (empty-IsConsistent (answer_with queue)))

answered :
    (is_active env false object ready_scaler).0
    ≡ ok (gtb reported_value (parse metadata).0.activation)
unfolding parse defaults overridden at_key string_or
answered =
    is_active-expected env object (answer_with queue) (answers queue) ready_scaler address-NoNul
      (empty-IsConsistent (answer_with queue))

-- No query takes the clock back.
forward : IsForward env.source
forward x addr query w = omega arith

is_active-readyz_example :
    let s' = (is_active env false object ready_scaler).1 in
    (k : ℕ) × (0 ≤ k)
    × (k < s'.cache.world.ticks)
    × ((status (handle (some new_metrics) s'.health (at 60) "/readyz") ≡ some 200)
        ↔ (ltb_ℤ (sub (at 60) (ticking k)) (pos (120 * second)) ≡ true))
is_active-readyz_example =
    is_active-readyz env false object ready_scaler
      (record { window = pos (120 * second); started_at = at 0; last_ok = at 0; has_ok = false })
      (gtb reported_value (parse metadata).0.activation) new_metrics (at 60) forward refl answered

-- The process that `main` starts without environment variables, and its state after one call.
abbrev process : Process
process = record {
  listening_on = ":6000";
  http_server = new_server ":8080";
  scaler = record (new_scaler (record world { ticks = 1 })) {
    metrics = some new_metrics;
    health = some (new_health (pos (120 * second)) (at 0));
  };
}

abbrev one_call : Scaler
one_call = (is_active env false object process.scaler).1

after_one_call : Reachable env process.scaler one_call
after_one_call = called started (is_active_called false object process.scaler)

reachable-AllCacheable_example : AllCacheable one_call.cache
unfolding launch at_key duration_or string_or
reachable-AllCacheable_example =
    reachable-AllCacheable env [] none world process refl one_call after_one_call

reachable-is_active_example :
    (is_active env false object one_call).0
    ≡ when_parsed
        (parse metadata)
        (λ c. map_result (λ x. gtb x c.activation) (expected_score false c (answer_with queue)))
unfolding launch at_key duration_or string_or parse defaults overridden
reachable-is_active_example =
    reachable-is_active env [] none world process refl (answer_with queue) one_call object
      (answers queue) after_one_call address-NoNul

abbrev config : Config
config = record {
  prom_addr = address;
  queue_query = default_queue_query;
  kv_query = "kv";
  queue_threshold = fin false one_units;
  kv_threshold = fin false one_units;
  activation = fin false 0;
  treat_missing_as_error = true;
  cache_ttl = pos second;
  stream_poll_interval = pos second;
  stream_max_consecutive_failures = pos 1;
}

reachable-FromReplies_example :
    FromReplies env
      (honest queue)
      config
      address-NoNul
      false
      (score_part (saturation_for env config true one_call).0)
unfolding launch at_key duration_or string_or
reachable-FromReplies_example =
    reachable-FromReplies env [] none world process refl one_call config true (honest queue)
      after_one_call address-NoNul
