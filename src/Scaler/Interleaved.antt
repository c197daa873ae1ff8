-- ===== src/Scaler/Interleaved.antt =====
-- main.go: the two goroutines of `saturationFor`, a step at a time: a step is one use of the clock,
-- the cache, an instrument or the readiness.
pub mod Replies
pub mod Sequential
use inference_platform.Prelude.{
  String, Bool, true, false, List, [], ◌∷◌, Option, none, some, if◌then◌else◌,
}
use inference_platform.Config.{Config}
use inference_platform.Go.Errors.{Error, is_missing}
use inference_platform.Go.Time.{Time, Duration, sub}
use inference_platform.Metrics.Source.{Reply}
use inference_platform.Metrics.Cache.{get}
use inference_platform.Observability.Instruments.{observe_query_duration, increment_query_error}
use inference_platform.Scaler.{
  Env, Scaler, M, ◌>>=◌, ◌>>◌, pure, tick, get_cached, on_metrics, success, settle, Result, ok, err,
  Reading, SaturationResult, wait_for, scored,
}

-- Where a goroutine stands, with its variables.
pub data Task : Type 0 where
  begun : Task
  timed : Time → Task  -- `start`
  replied : Time → Reply → Task
  stopped : Duration → Reply → Task  -- time.Since(start)
  measured : Reply → Task
  counted : Reply → Task
  booked : Reply → Task  -- after `queryInstant`
  ended : Result Reading → Task

-- What tells the two goroutines apart.
pub record Dimension : Type 0 where
  pub name : String
  pub query : String
  pub prefix : String

abbrev pub queue_of : Config → Dimension
queue_of c = record { name = "queue"; query = c.queue_query; prefix = "queue query: " }

abbrev pub kv_of : Config → Dimension
kv_of c = record { name = "kv"; query = c.kv_query; prefix = "kv-cache query: " }

module _ (env : Env) where
  abbrev pub count_error : String → Option Error → M Unit
  count_error name none = pure tt
  count_error name (some e) = on_metrics (increment_query_error name)

  abbrev pub mark_success : Option Error → M Unit
  mark_success none = success env
  mark_success (some e) = if is_missing e then success env else pure tt

  -- The next step of a goroutine, with whether its context is cancelled.
  unfoldable pub task_step : Config → Dimension → Bool → Task → M Task
  task_step c d cancelled begun = do start ← tick env; pure (timed start)
  task_step c d cancelled (timed start) = do
    reply ←
        get_cached (get env.clock env.group env.source cancelled c.prom_addr d.query c.cache_ttl)
    pure (replied start reply)
  task_step c d cancelled (replied start reply) = do
    now ← tick env
    pure (stopped (sub now start) reply)
  task_step c d cancelled (stopped took reply) = do
    on_metrics (observe_query_duration d.name took)
    pure (measured reply)
  task_step c d cancelled (measured reply) = do count_error d.name reply.1; pure (counted reply)
  task_step c d cancelled (counted reply) = do mark_success reply.1; pure (booked reply)
  task_step c d cancelled (booked reply) = do
    result ← settle env c d.prefix reply
    pure (ended result)
  task_step c d cancelled (ended result) = pure (ended result)

-- Both goroutines, and whether that of the KV cache was the first to end with an error.
pub record Round : Type 0 where
  pub queue : Task
  pub kv : Task
  pub kv_first : Bool

abbrev pub at_begin : Round
at_begin = record { queue = begun; kv = begun; kv_first = false }

abbrev pub failed_task : Task → Bool
failed_task (ended (err e)) = true
failed_task _ = false

abbrev pub kv_was_first : Task → Task → Bool → Bool
kv_was_first queue kv before = if failed_task queue then before else failed_task kv

module _ (env : Env) where
  -- One step of the KV cache's goroutine, or of the queue's.
  unfoldable pub round_step : Config → Bool × Bool → Round → M Round
  round_step c (true, cancelled) r = do
    kv ← task_step env c (kv_of c) cancelled r.kv
    pure (record r { kv = kv; kv_first = kv_was_first r.queue kv r.kv_first })
  round_step c (false, cancelled) r = do
    queue ← task_step env c (queue_of c) cancelled r.queue
    pure (record r { queue = queue })

  unfoldable pub interleave : Config → List (Bool × Bool) → Round → M Round
  interleave c [] r = pure r
  interleave c (e ∷ es) r = do r' ← round_step c e r; interleave c es r'

-- g.Wait() returns once both have ended.
abbrev pub waited : Config → Bool → Task → Task → Option (Result SaturationResult)
waited c first (ended q) (ended k) = some (scored c (wait_for first q k))
waited c first _ _ = none

abbrev pub outcome : Config → Round → Option (Result SaturationResult)
outcome c r = waited c r.kv_first r.queue r.kv
