-- ===== src/Scaler/Sources.antt =====
-- What a decision rests on, over a backend whose answers change with time.
use inference_platform.Prelude.{◌≡◌, refl, ◌∙◌, String, Bool, true, false}
use inference_platform.Config.{Config}
use inference_platform.Go.Float64.{Float64}
use inference_platform.Metrics.Source.{Reply}
use inference_platform.Metrics.Cache.Keys.{NoNul}
use inference_platform.Metrics.Cache.Given.{Given, AllGiven, IsHonest, get-Given}
use inference_platform.Scaler.{
  Env, Scaler, Result, Reading, query_instant, queue_task, kv_task, both_tasks, saturation_for,
  scored, wait_for, tick, get_cached, next_round,
}
use inference_platform.Scaler.Keeps.{
  IsKeptWith, OfQuery, by_queries, by_answers, Keeps, tick-Keeps, query_instant-Keeps, settle-Keeps,
}
use inference_platform.Scaler.Invariants.{AllGiven-IsKept}
use inference_platform.Scaler.Decisions.{
  value_of, combined, value_part, score_part, settle-value, both-value,
}

module _ (env : Env) (h : IsHonest env.group env.source) (c : Config)
    (addressed : NoNul c.prom_addr) where
  abbrev pub GivenCache : Scaler → Type 0
  GivenCache s = AllGiven env.source s.cache

  pub kept : IsKeptWith env OfQuery GivenCache
  kept = by_queries (by_answers (AllGiven-IsKept env h))

  -- A task ends with the value of a reply of the source for the configuration's address and a query.
  abbrev pub From : String → String → Result Reading → Type 0
  From prefix query r =
      (reply : Reply) × Given env.source c.prom_addr query reply
      × (value_part r ≡ value_of c prefix reply)

  query_reply :
      (x : Bool) (d query : String) (s : Scaler)
      → GivenCache s
      → Given env.source c.prom_addr query (query_instant env x d c.prom_addr query c.cache_ttl s).0
  unfolding query_instant get_cached
  query_reply x d query s v =
      get-Given env.clock h x c.prom_addr query c.cache_ttl (tick env s).1.cache addressed
        (tick-Keeps kept s v)

  queue_task-From :
      (x : Bool) (s : Scaler)
      → GivenCache s
      → From "queue query: " c.queue_query (queue_task env c x s).0
  unfolding queue_task
  queue_task-From x s v = (_, query_reply x "queue" c.queue_query s v, settle-value env c _ _ _)

  kv_task-From :
      (x : Bool) (s : Scaler)
      → GivenCache s
      → From "kv-cache query: " c.kv_query (kv_task env c x s).0
  unfolding kv_task
  kv_task-From x s v = (_, query_reply x "kv" c.kv_query s v, settle-value env c _ _ _)

  queue_task-Keeps : (x : Bool) → Keeps GivenCache (queue_task env c x)
  unfolding queue_task
  queue_task-Keeps x s v = settle-Keeps kept c _ _ _ (query_instant-Keeps kept _ _ _ _ _ s v)

  kv_task-Keeps : (x : Bool) → Keeps GivenCache (kv_task env c x)
  unfolding kv_task
  kv_task-Keeps x s v = settle-Keeps kept c _ _ _ (query_instant-Keeps kept _ _ _ _ _ s v)

  -- The result is the score of two replies of the source, one for each query, or an error of theirs.
  abbrev pub FromReplies : Bool → Result Float64 → Type 0
  FromReplies first r =
      (q : Reply) × (k : Reply) × Given env.source c.prom_addr c.queue_query q
      × Given env.source c.prom_addr c.kv_query k
      × (r ≡ combined first c (value_of c "queue query: " q) (value_of c "kv-cache query: " k))

  pub From-FromReplies :
      (first : Bool) (q k : Result Reading)
      → From "queue query: " c.queue_query q
      → From "kv-cache query: " c.kv_query k
      → FromReplies first (score_part (scored c (wait_for first q k)))
  From-FromReplies first q k (qr, gq, eq) (kr, gk, ek) =
      (qr, kr, gq, gk, both-value first c q k ∙ rw (eq, ek) refl)

  both_tasks-FromReplies :
      (x cancels first : Bool) (s : Scaler)
      → GivenCache s
      → FromReplies first (score_part (scored c (both_tasks env c x cancels first s).0))
  unfolding both_tasks
  both_tasks-FromReplies x cancels true s v =
      From-FromReplies true _ _ (queue_task-From _ _ (kv_task-Keeps x s v)) (kv_task-From x s v)
  both_tasks-FromReplies x cancels false s v =
      From-FromReplies false _ _ (queue_task-From x s v) (kv_task-From _ _ (queue_task-Keeps x s v))

  pub saturation_for-FromReplies :
      (x : Bool) (s : Scaler)
      → GivenCache s
      → FromReplies (env.kv_first s.rounds) (score_part (saturation_for env c x s).0)
  unfolding saturation_for next_round
  saturation_for-FromReplies x s v =
      both_tasks-FromReplies x (env.cancels s.rounds) (env.kv_first s.rounds) _ v
