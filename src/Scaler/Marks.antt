-- ===== src/Scaler/Marks.antt =====
-- What the two queries of a decision do to the readiness.
use inference_platform.Prelude.{
  ℕ, ◌≤◌, ◌<◌, ◌≡◌, refl, String, Bool, true, ◌&&◌, not, Option, none, some, arith, Bool-cases, inl,
  inr,
}
use inference_platform.Config.{Config}
use inference_platform.Go.Errors.{Error, is_missing}
use inference_platform.Go.Time.{Duration, sub}
use inference_platform.Metrics.Source.{Reply}
use inference_platform.Metrics.Cache.{cacheable, get}
use inference_platform.Metrics.Cache.Forward.{IsForward, get-IsForward}
use inference_platform.Observability.Health.{Health, record_success}
use inference_platform.Observability.Instruments.{observe_query_duration}
use inference_platform.Scaler.{
  Env, Scaler, ◌>>=◌, ◌>>◌, pure, tick, get_cached, on_metrics, success, keep_books, query_instant,
  settle, queue_task, kv_task, ok, Reading,
}

module _ (env : Env) (forward : IsForward env.source) (n : ℕ) (window : Duration) where
  -- The scaler has a readiness with this window, and the clock was read at least `n` times.
  abbrev pub Aged : Scaler → Type 0
  Aged s = (n ≤ s.cache.world.ticks) × (h : Health) × (s.health ≡ some h) × (h.window ≡ window)

  -- The last success was at a reading of the clock from the `n`-th on.
  abbrev pub Marked : Scaler → Type 0
  Marked s =
      (k : ℕ) × (n ≤ k)
      × (k < s.cache.world.ticks)
      × (h : Health) × (s.health ≡ some h)
      × (h.window ≡ window)
      × (h.last_ok ≡ env.clock k)
      × (h.has_ok ≡ true)

  success-Marked : (s : Scaler) → Aged s → Marked (success env s).1 × Aged (success env s).1
  unfolding success tick record_success
  success-Marked s (late, h, e, w) = rw e (
    (s.cache.world.ticks, late, omega arith, _, refl, w, refl, refl),
    (omega (arith, late), _, refl, w),
  )

  -- A reply that may be cached marks a success; any other leaves the readiness.
  keep_books-Marked :
      (d : String) (e : Option Error) (s : Scaler)
      → Aged s
      → cacheable e ≡ true
      → Marked (keep_books env d e s).1 × Aged (keep_books env d e s).1
  unfolding keep_books on_metrics
  keep_books-Marked d none s h fit = success-Marked s h
  keep_books-Marked d (some e) s h fit = rw fit (success-Marked _ h)

  keep_books-Aged :
      (d : String) (e : Option Error) (s : Scaler) → Aged s → Aged (keep_books env d e s).1
  unfolding keep_books on_metrics
  keep_books-Aged d none s h = (success-Marked s h).1
  keep_books-Aged d (some e) s h = elim (Bool-cases (is_missing e)) [
    | inl m ↦ rw m (success-Marked _ h).1
    | inr m ↦ rw m h
  ]

  module _ (x : Bool) (d addr query : String) (ttl : Duration) (s : Scaler) (h : Aged s) where
    -- A query before its books.
    asked : Reply × Scaler
    asked =
        (do
          start ← tick env
          reply ← get_cached (get env.clock env.group env.source x addr query ttl)
          now ← tick env
          on_metrics (observe_query_duration d (sub now start))
          pure reply)
          s

    asked-Aged : Aged asked.1
    unfolding asked tick get_cached on_metrics
    asked-Aged =
        let (late, health, e, w) = h in
        let later =
          get-IsForward env.clock env.group env.source forward x addr query ttl
            (tick env s).1.cache in
        (omega (arith, late, later), health, e, w)

    query_instant-Marked :
        cacheable (query_instant env x d addr query ttl s).0.1 ≡ true
        → Marked (query_instant env x d addr query ttl s).1
          × Aged (query_instant env x d addr query ttl s).1
    unfolding query_instant asked
    query_instant-Marked fit = keep_books-Marked d asked.0.1 asked.1 asked-Aged fit

    query_instant-Aged : Aged (query_instant env x d addr query ttl s).1
    unfolding query_instant asked
    query_instant-Aged = keep_books-Aged d asked.0.1 asked.1 asked-Aged

  settle-Aged :
      (c : Config) (prefix : String) (r : Reply) (s : Scaler)
      → Aged s
      → Aged (settle env c prefix r s).1
  unfolding settle tick
  settle-Aged c prefix (sample, none) s (late, health, e, w) = (omega (arith, late), health, e, w)
  settle-Aged c prefix (sample, some e) s h =
      elim (Bool-cases (is_missing e && not c.treat_missing_as_error)) [
        | inl m ↦ rw m h
        | inr m ↦ rw m h
      ]

  settle-Marked :
      (c : Config) (prefix : String) (r : Reply) (s : Scaler)
      → Marked s
      → Marked (settle env c prefix r s).1
  unfolding settle tick
  settle-Marked c prefix (sample, none) s (k, late, soon, h, e, w, last, marked) =
      (k, late, omega (arith, soon), h, e, w, last, marked)
  settle-Marked c prefix (sample, some e) s h =
      elim (Bool-cases (is_missing e && not c.treat_missing_as_error)) [
        | inl m ↦ rw m h
        | inr m ↦ rw m h
      ]

  -- A goroutine that ends with a reading had a reply that may be cached.
  settle-ok :
      (c : Config) (prefix : String) (r : Reply) (s : Scaler) (v : Reading)
      → (settle env c prefix r s).0 ≡ ok v
      → cacheable r.1 ≡ true
  unfolding settle
  settle-ok c prefix (sample, none) s v h = refl
  settle-ok c prefix (sample, some e) s v h = elim (Bool-cases (is_missing e)) [
    | inl m ↦ m
    | inr m ↦ absurd (cc (rw m at h))
  ]

  pub queue_task-Aged :
      (c : Config) (x : Bool) (s : Scaler) → Aged s → Aged (queue_task env c x s).1
  unfolding queue_task
  queue_task-Aged c x s h =
      settle-Aged c "queue query: " _ _
        (query_instant-Aged x "queue" c.prom_addr c.queue_query c.cache_ttl s h)

  pub queue_task-Marked :
      (c : Config) (x : Bool) (s : Scaler) (v : Reading)
      → Aged s
      → (queue_task env c x s).0 ≡ ok v
      → Marked (queue_task env c x s).1
  unfolding queue_task
  queue_task-Marked c x s v h e =
      let (reply, s') = query_instant env x "queue" c.prom_addr c.queue_query c.cache_ttl s in
      settle-Marked c "queue query: " reply s'
        (query_instant-Marked x "queue" c.prom_addr c.queue_query c.cache_ttl s h
          (settle-ok c "queue query: " reply s' v e)).0

  pub kv_task-Aged : (c : Config) (x : Bool) (s : Scaler) → Aged s → Aged (kv_task env c x s).1
  unfolding kv_task
  kv_task-Aged c x s h =
      settle-Aged c "kv-cache query: " _ _
        (query_instant-Aged x "kv" c.prom_addr c.kv_query c.cache_ttl s h)

  pub kv_task-Marked :
      (c : Config) (x : Bool) (s : Scaler) (v : Reading)
      → Aged s
      → (kv_task env c x s).0 ≡ ok v
      → Marked (kv_task env c x s).1
  unfolding kv_task
  kv_task-Marked c x s v h e =
      let (reply, s') = query_instant env x "kv" c.prom_addr c.kv_query c.cache_ttl s in
      settle-Marked c "kv-cache query: " reply s'
        (query_instant-Marked x "kv" c.prom_addr c.kv_query c.cache_ttl s h
          (settle-ok c "kv-cache query: " reply s' v e)).0
