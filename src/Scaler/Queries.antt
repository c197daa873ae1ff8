-- ===== src/Scaler/Queries.antt =====
-- What one query leaves behind: the reply, the counters and the readiness of `queryInstant`.
use inference_platform.Prelude.{
  ℕ, ◌+◌, ◌≡◌, refl, String, Bool, true, false, Option, none, some, ◌∷◌, arith, lookup,
  if◌then◌else◌, Bool-cases, inl, inr,
}
use inference_platform.Prelude.Int.{pos, ltb_ℤ}
use inference_platform.Go.Errors.{Error, is_missing}
use inference_platform.Go.Float64.{Float64}
use inference_platform.Go.Time.{sub, Duration, seconds, after}
use inference_platform.Metrics.Cache.{CacheEntry, cache_key, cacheable, load, get}
use inference_platform.Observability.Instruments.{
  Metrics, observe_duration, observe_query_duration, increment_query_error, calls_of,
}
use inference_platform.Observability.Instruments.Values.{query_errors}
use inference_platform.Observability.Health.{Health, record_success}
use inference_platform.Scaler.{
  Env, Scaler, tick, get_cached, on_metrics, success, success_at, keep_books, query_instant,
}

-- The query errors that a reply counts for.
abbrev pub failures : Option Error → ℕ
failures none = 0
failures (some e) = 1

observed :
    (d : String) (t : Duration) (o : Option Metrics) (m : Metrics)
    → o ≡ some m
    → (v : Float64) × (observe_query_duration d t o
        ≡ some (record m { calls = observe_duration d v ∷ m.calls }))
unfolding observe_query_duration
observed d t o m h = (seconds t, rw h refl)

module _ (env : Env) where
  success_at-metrics : (o : Option Health) (s : Scaler) → (success_at env o s).1.metrics ≡ s.metrics
  unfolding tick
  success_at-metrics none s = refl
  success_at-metrics (some h) s = refl

  success-metrics : (s : Scaler) → (success env s).1.metrics ≡ s.metrics
  unfolding success
  success-metrics s = success_at-metrics s.health s

  keep_books-errors :
      (d : String) (e : Option Error) (m : Metrics) (s : Scaler)
      → s.metrics ≡ some m
      → query_errors (calls_of (keep_books env d e s).1.metrics) ≡ query_errors m.calls + failures e
  unfolding keep_books on_metrics increment_query_error query_errors
  keep_books-errors d none m s h = rw (success-metrics s, h) (omega arith)
  keep_books-errors d (some e) m s h = elim (Bool-cases (is_missing e)) [
    | inl t ↦ rw (t, success-metrics, h) (omega arith)
    | inr t ↦ rw (t, h) (omega arith)
  ]

  success_at-health :
      (o : Option Health) (s : Scaler)
      → s.health ≡ o
      → (n : ℕ) × ((success_at env o s).1.health ≡ record_success (env.clock n) s.health)
  unfolding tick record_success
  success_at-health none s h = (0, rw h refl)
  success_at-health (some health) s h = (s.cache.world.ticks, rw h refl)

  success-health :
      (s : Scaler) → (n : ℕ) × ((success env s).1.health ≡ record_success (env.clock n) s.health)
  unfolding success
  success-health s = success_at-health s.health s refl

  keep_books-health :
      (d : String) (e : Option Error) (s : Scaler)
      → (n : ℕ) × ((keep_books env d e s).1.health
          ≡ (if cacheable e then record_success (env.clock n) s.health else s.health))
  unfolding keep_books on_metrics
  keep_books-health d none s = success-health s
  keep_books-health d (some e) s = elim (Bool-cases (is_missing e)) [
    | inl t ↦ rw t (success-health _)
    | inr t ↦ rw t (0, refl)
  ]

  module _ (x : Bool) (d addr query : String) (ttl : Duration) (s : Scaler) where
    -- A query of a scaler with instruments counts one query error if its reply has an error, an
    -- absent series included, and else none.
    pub query_instant-errors :
        (m : Metrics)
        → s.metrics ≡ some m
        → let (reply, s') = query_instant env x d addr query ttl s in
          query_errors (calls_of s'.metrics) ≡ query_errors m.calls + failures reply.1
    unfolding query_instant tick get_cached on_metrics observe_query_duration query_errors
    query_instant-errors m h = let (v, e) = observed d _ _ m h in keep_books-errors d _ _ _ e

    -- A query marks a success, at a time that it reads of the clock, if its reply has no error or
    -- is an absent series; after any other error the readiness is as it was.
    pub query_instant-health :
        let (reply, s') = query_instant env x d addr query ttl s in
        (n : ℕ) × (s'.health
          ≡ (if cacheable reply.1 then record_success (env.clock n) s.health else s.health))
    unfolding query_instant tick get_cached on_metrics
    query_instant-health = keep_books-health d _ _

-- What the books are after a reply that may be cached.
module _ (env : Env) (h : Health) (n : ℕ) where
  success-books :
      (s : Scaler)
      → s.health ≡ some h
      → s.cache.world.ticks ≡ n
      → let s' = (success env s).1 in
        (s'.cache.world.requests ≡ s.cache.world.requests)
        × (s'.health ≡ record_success (env.clock n) s.health)
  unfolding success tick record_success
  success-books s healthy ticks = rw (healthy, ticks) (refl, refl)

  keep_books-books :
      (d : String) (e : Option Error) (s : Scaler)
      → s.health ≡ some h
      → s.cache.world.ticks ≡ n
      → cacheable e ≡ true
      → let s' = (keep_books env d e s).1 in
        (s'.cache.world.requests ≡ s.cache.world.requests)
        × (s'.health ≡ record_success (env.clock n) s.health)
  unfolding keep_books on_metrics
  keep_books-books d none s healthy ticks ok = success-books s healthy ticks
  keep_books-books d (some e) s healthy ticks ok = rw ok (success-books _ healthy ticks)

-- In a scaler with readiness, under a positive TTL, with an entry of the cache that is a reading or
-- an absent series and has not expired: the query replies with the entry, asks the backend nothing,
-- and marks a success all the same.
pub query_instant_hit :
    (env : Env) (x : Bool) (d addr query : String) (ttl : Duration) (s : Scaler) (h : Health)
    (e : CacheEntry)
    → s.health ≡ some h
    → ltb_ℤ (pos 0) ttl ≡ true
    → lookup (cache_key addr query) s.cache.entries ≡ some e
    → after (env.clock (s.cache.world.ticks + 1)) e.expires_at ≡ false
    → cacheable e.error ≡ true
    → let (reply, s') = query_instant env x d addr query ttl s in
      (reply ≡ (e.sample, e.error))
      × (s'.cache.world.requests ≡ s.cache.world.requests)
      × (s'.health ≡ record_success (env.clock (s.cache.world.ticks + 1 + 1 + 1)) s.health)
unfolding query_instant tick get_cached on_metrics get load
query_instant_hit env x d addr query ttl s h e healthy positive found young ok =
    let n = s.cache.world.ticks + 1 + 1 in
    let (asked, marked) =
      keep_books-books env h (n + 1) d e.error
        (record s {
          cache = record s.cache { world = record s.cache.world { ticks = n + 1 } };
          metrics =
              observe_query_duration d (sub (env.clock n) (env.clock s.cache.world.ticks))
                s.metrics;
        })
        healthy refl ok in
    rw (positive, found, young) (refl, asked, marked)
