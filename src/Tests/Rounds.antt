-- ===== src/Tests/Rounds.antt =====
-- A round of two queries whose goroutines take turns.
use inference_platform.Prelude.{
  insert, ◌≡◌, refl, ℕ, Bool, true, false, List, [], ◌∷◌, some, lookup, zero, suc, ◌*◌,
}
use inference_platform.Prelude.Int.{pos, ltb_ℤ, ◌-ℤ◌}
use inference_platform.Config.{Config, default_queue_query}
use inference_platform.Go.Float64.{Float64, fin, one_units}
use inference_platform.Go.Time.{Time, second, sub, difference, after, add_duration}
use inference_platform.Metrics.Cache.{get, flight, fetch, load, store, cache_key}
use inference_platform.Metrics.Cache.Given.{AllGiven}
use inference_platform.Saturation.{score}
use inference_platform.Scaler.{
  success, settle, tick, get_cached, on_metrics, Env, Scaler, Result, SaturationResult, ok,
}
use inference_platform.Scaler.Decisions.{score_part}
use inference_platform.Scaler.Sources.{FromReplies}
use inference_platform.Scaler.Interleaved.{outcome, round_step, task_step}
use inference_platform.Scaler.Goroutines.{
  Occurrence, turn, elsewhere, none_begun, happen, happen_all,
}
use inference_platform.Scaler.Goroutines.Rounds.{rounds-FromReplies}
use inference_platform.Scaler.Goroutines.Readiness.{MarkedBy, happen_all-Answered}
use inference_platform.Observability.Health.{Health, new_health, ready, record_success}
use inference_platform.Service.{new_scaler}
use inference_platform.Tests.Data.{honest, address, address-NoNul, world, at, answer_with, env_of}

abbrev one : Float64
one = fin false one_units

abbrev config : Config
config = record {
  prom_addr = address;
  queue_query = default_queue_query;
  kv_query = "kv";
  queue_threshold = one;
  kv_threshold = one;
  activation = fin false 0;
  treat_missing_as_error = true;
  cache_ttl = pos second;
  stream_poll_interval = pos second;
  stream_max_consecutive_failures = pos 1;
}

abbrev queue : Float64
queue = fin false (6 * one_units)

abbrev env : Env
env = env_of (answer_with queue)

abbrev scaler : Scaler
scaler = new_scaler world

-- The goroutines alternate.
abbrev alternate : ℕ → List (Bool × Bool)
alternate zero = []
alternate (suc n) = (true, false) ∷ (false, false) ∷ alternate n

empty-AllGiven : AllGiven env.source scaler.cache
unfolding lookup
empty-AllGiven = record { given = λ addr query e n found. cc }

abbrev turns : ℕ → List (Bool × Bool) → List Occurrence
turns n [] = []
turns n (e ∷ es) = turn n e ∷ turns n es

-- Two rounds, of which the second starts before the first and does not end.
abbrev two_rounds : List Occurrence
two_rounds = turn 1 (true, false) ∷ elsewhere (λ m. m) ∷ turns 0 (alternate 7)

-- The clock ticks at each of the uses that the goroutines make of it.
abbrev ended_round : Result SaturationResult
ended_round = ok (record {
  score = score queue one one one;
  queue_age = pos (8 * second);
  kv_age = pos (7 * second);
})

two_rounds_end :
    outcome config ((happen_all env (λ n. config) two_rounds none_begun scaler).0 0)
    ≡ some ended_round
unfolding happen_all happen round_step task_step settle tick get_cached on_metrics sub get flight
    fetch load store lookup insert cache_key difference ◌-ℤ◌ after add_duration success
two_rounds_end = refl

rounds-FromReplies_example :
    FromReplies env
      (honest queue)
      config
      address-NoNul
      ((happen_all env (λ n. config) two_rounds none_begun scaler).0 0).kv_first
      (score_part ended_round)
rounds-FromReplies_example =
    rounds-FromReplies env (honest queue) (λ n. config) (λ n. address-NoNul) two_rounds scaler 0
      ended_round empty-AllGiven two_rounds_end

-- The window of the readiness from the start is over.
abbrev old_health : Health
old_health = new_health (pos (120 * second)) (at 0)

abbrev old_scaler : Scaler
old_scaler = record (new_scaler (record { ticks = 190; requests = 0 })) { health = some old_health }

old-AllGiven : AllGiven env.source old_scaler.cache
unfolding lookup
old-AllGiven = record { given = λ addr query e n found. cc }

abbrev one_query : List Occurrence
one_query = turns 0 (
    (false, false)
    ∷ (false, false)
    ∷ (false, false)
    ∷ (false, false)
    ∷ (false, false)
    ∷ (false, false)
    ∷ [])

ready_again :
    ready (at 200) (happen_all env (λ n. config) one_query none_begun old_scaler).1.health ≡ true
unfolding happen_all happen round_step task_step settle tick get_cached on_metrics sub get flight
    fetch load store lookup insert cache_key difference ◌-ℤ◌ after add_duration success ready
    record_success new_health
ready_again = refl

happen_all-Answered_example :
    (last : Time) × MarkedBy env (λ n. config) one_query none_begun old_scaler last
    × (ltb_ℤ (sub (at 200) last) (pos (120 * second)) ≡ true)
unfolding sub difference ◌-ℤ◌ new_health
happen_all-Answered_example =
    happen_all-Answered env (honest queue) (λ n. config) (λ n. address-NoNul) one_query old_scaler
      old_health (at 200) old-AllGiven refl refl refl ready_again
