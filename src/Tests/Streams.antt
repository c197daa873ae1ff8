-- ===== src/Tests/Streams.antt =====
-- Streams over a Prometheus that answers, and over one that is down.
use inference_platform.Prelude.{
  ◌+◌, ◌*◌, ◌<◌, length, ◌≡◌, refl, String, Bool, true, false, List, [], ◌∷◌, none, some, arith,
  lookup,
}
use inference_platform.Prelude.Int.{pos}
use inference_platform.Config.{
  Config, string_or, parse, defaults, overridden, at_key, duration_or, positive_duration_or,
  positive_int_or,
}
use inference_platform.Go.Errors.{Error, new, wrap, is_missing, too_many_failures}
use inference_platform.Go.Float64.{fin, gtb, one_units}
use inference_platform.Saturation.{score}
use inference_platform.Go.Strconv.{atoi}
use inference_platform.Go.Time.{second, parse_duration}
use inference_platform.Metrics.Source.{Reply}
use inference_platform.Metrics.Cache.{get, flight, fetch}
use inference_platform.Observability.Instruments.{new_metrics}
use inference_platform.Observability.Instruments.Values.{stream_errors, grpc_requests}
use inference_platform.Scaler.{
  Env, Scaler, ScaledObjectRef, ok, err, is_active, saturation_for, both_tasks, queue_task, kv_task,
  query_instant, settle, get_cached, on_metrics, tick, next_round,
}
use inference_platform.Stream.{
  Event, fired, Loop, start, loop, react, on_success, iteration, stream_is_active,
}
use inference_platform.Stream.Requests.{HasRequested, iteration-HasRequested}
use inference_platform.Stream.Progress.{stream_progress}
use inference_platform.Stream.Counters.{HasCounted, failures_of, iteration-HasCounted}
use inference_platform.Stream.Invariant.{Outcome, SendFailed}
use inference_platform.Stream.Keeps.{IsKeptByStreams}
use inference_platform.Stream.Limits.{requested, stream_is_active-Outcome, stream_gives_up}
use inference_platform.Service.{new_scaler}
use inference_platform.Tests.Data.{metadata, object, world, answer_with, env_of}

abbrev env : Env
env = env_of (answer_with (fin false (6 * one_units)))

abbrev events : List Event
events = fired false none ∷ fired true none ∷ fired false (some (new "closed")) ∷ []

abbrev scaler : Scaler
scaler = record (new_scaler world) { metrics = some new_metrics }

stream_is_active-Outcome_example :
    let ((o, r), s') = stream_is_active env object events scaler in
    let c = (parse metadata).0 in
    (l : Loop) × (o ≡ some l)
    × Outcome object c
        (10 * second)
        (SendFailed env object c events (start c) (requested scaler))
        l
        r
unfolding parse defaults overridden at_key positive_duration_or duration_or
stream_is_active-Outcome_example =
    stream_is_active-Outcome env object events scaler (10 * second) refl refl (omega arith)

iteration-HasCounted_example :
    HasCounted
      (0 + failures_of (is_active env false object scaler).0)
      (iteration env object
        (parse metadata).0
        (start (parse metadata).0)
        (fired false none)
        scaler).1
unfolding stream_errors
iteration-HasCounted_example =
    iteration-HasCounted env object (parse metadata).0 (start (parse metadata).0) false none 0
      scaler (new_metrics, refl, refl)

-- Without a cache, over a Prometheus that is down.
abbrev uncached : ScaledObjectRef
uncached = record {
  name = "vllm";
  namespace = "inference";
  scaler_metadata = ("cacheTTL", "0s") ∷ ("streamMaxConsecutiveFailures", "2") ∷ metadata;
}

abbrev down : String → String → Reply
down addr query = (
  record { value = fin false 0; time = record { wall = pos 0; mono = none } },
  some (new "refused"),
)

down_fails :
    (cancelled : Bool) (s : Scaler)
    → (e : Error) × ((is_active (env_of down) cancelled uncached s).0 ≡ err e)
unfolding is_active on_metrics parse defaults overridden at_key duration_or parse_duration
    saturation_for next_round both_tasks queue_task kv_task query_instant settle get_cached tick get
    flight fetch is_missing lookup
down_fails x s = (wrap "queue query: " (new "refused"), refl)

every_state : IsKeptByStreams (env_of down) (λ s. Unit {0})
every_state = record {
  unary = record {
    moved = λ s w h. tt;
    got = λ x addr query ttl s h. tt;
    counted = λ c s ne h. tt;
    seen = λ t s h. tt;
    advanced = λ s h. tt;
  };
  failed = λ s h. tt;
}

stream_gives_up_example :
    (cause : Error) × ((stream_is_active
        (env_of down)
        uncached
        (fired false none ∷ fired false none ∷ [])
        scaler).0.1
      ≡ some (some (too_many_failures "inference" "vllm" (pos 2) cause)))
unfolding parse defaults overridden at_key positive_int_or atoi
stream_gives_up_example =
    stream_gives_up (env_of down) uncached (λ s. Unit {0})
      (fired false none ∷ fired false none ∷ []) scaler refl
      (record { kept = every_state; fails = λ x s h. down_fails x s }) tt tt (omega arith)

iteration-HasRequested_example :
    HasRequested "IsActive"
      (1 + 0)
      (iteration env object
        (parse metadata).0
        (start (parse metadata).0)
        (fired false none)
        scaler).1
unfolding grpc_requests
iteration-HasRequested_example =
    iteration-HasRequested env "IsActive" object (parse metadata).0 (start (parse metadata).0) none
      false 0 scaler (new_metrics, refl, refl)

-- It gives up at the first failure.
abbrev hasty : ScaledObjectRef
hasty = record {
  name = "vllm";
  namespace = "inference";
  scaler_metadata = ("cacheTTL", "0s") ∷ ("streamMaxConsecutiveFailures", "1") ∷ metadata;
}

abbrev hasty_config : Config
hasty_config = (parse hasty.scaler_metadata).0

-- What each poll finds.
abbrev active : Bool
active =
    gtb
      (score (fin false (6 * one_units)) hasty_config.queue_threshold (fin false one_units)
        hasty_config.kv_threshold)
      hasty_config.activation

polled : (x : Bool) (s : Scaler) → (is_active env x hasty s).0 ≡ ok active
unfolding is_active on_metrics parse defaults overridden at_key duration_or parse_duration string_or
    saturation_for next_round both_tasks queue_task kv_task query_instant settle get_cached tick get
    flight fetch lookup
polled x s = refl

abbrev before_poll : Loop
before_poll = record {
  backoff = pos (10 * second);
  consecutive_failures = pos 0;
  waits = pos (10 * second) ∷ [];
  sent = [];
}

abbrev after_poll : Loop
after_poll = record {
  backoff = pos (10 * second);
  consecutive_failures = pos 0;
  waits = pos (10 * second) ∷ pos (10 * second) ∷ [];
  sent = active ∷ [];
}

one_poll : (stream_is_active env hasty (fired false none ∷ []) scaler).0 ≡ (some after_poll, none)
unfolding parse defaults overridden at_key duration_or parse_duration stream_is_active loop
    iteration react on_success start positive_duration_or positive_int_or atoi on_metrics
one_poll = rw (polled) refl

stream_progress_example : length before_poll.sent < length after_poll.sent
unfolding parse defaults overridden at_key duration_or parse_duration stream_is_active loop start
    positive_duration_or positive_int_or atoi
stream_progress_example =
    stream_progress env hasty [] (fired false none ∷ []) scaler 1 before_poll after_poll refl refl
      refl one_poll (omega arith)
