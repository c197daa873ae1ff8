-- ===== src/Scaler/Goroutines/Marks.antt =====
-- What a step of a goroutine does to the readiness.
use inference_platform.Prelude.{
  String, ◌≡◌, refl, ◌⊎◌, ◌&&◌, not, true, false, Bool, Option, none, some, Bool-cases, inl, inr,
  if◌then◌else◌,
}
use inference_platform.Config.{Config}
use inference_platform.Go.Errors.{Error, is_missing}
use inference_platform.Metrics.Source.{Reply}
use inference_platform.Metrics.Cache.{cacheable}
use inference_platform.Observability.Health.{Health, record_success}
use inference_platform.Scaler.{Env, Scaler, tick, get_cached, on_metrics, success, settle}
use inference_platform.Scaler.Interleaved.{
  Task, begun, timed, replied, stopped, measured, counted, booked, ended, Dimension, queue_of,
  kv_of, count_error, mark_success, task_step, Round, round_step,
}

-- The goroutine of a round, that of the KV cache or of the queue.
abbrev pub task_of : Bool → Round → Task
task_of of_kv r = if of_kv then r.kv else r.queue

abbrev pub query_of : Bool → Config → String
query_of of_kv c = if of_kv then c.kv_query else c.queue_query

module _ (env : Env) where
  success-health :
      (s : Scaler) (o : Option Health)
      → s.health ≡ o
      → (success env s).1.health ≡ record_success (env.clock s.cache.world.ticks) o
  unfolding success tick record_success
  success-health s none e = rw e refl
  success-health s (some hl) e = rw e refl

  -- A step from `s` to `s'` leaves the readiness, or it is that of a goroutine that has a reply which
  -- may be cached, and marks a success.
  unfoldable pub Marks : Task → Scaler → Scaler → Type 0
  Marks t s s' =
      (s'.health ≡ s.health)
      ⊎ ((r : Reply) × (t ≡ counted r)
          × (cacheable r.1 ≡ true)
          × (s'.health ≡ record_success (env.clock s.cache.world.ticks) s.health))

  mark_success-Marks : (r : Reply) (s : Scaler) → Marks (counted r) s (mark_success env r.1 s).1
  unfolding Marks
  mark_success-Marks (v, none) s = inr ((v, none), refl, refl, success-health s s.health refl)
  mark_success-Marks (v, some e) s = elim (Bool-cases (is_missing e)) [
    | inl m ↦ rw m (inr ((v, some e), refl, m, success-health s s.health refl))
    | inr m ↦ rw m (inl refl)
  ]

  count_error-health :
      (name : String) (e : Option Error) (s : Scaler)
      → (count_error env name e s).1.health ≡ s.health
  unfolding on_metrics
  count_error-health name none s = refl
  count_error-health name (some e) s = refl

  settle-health :
      (c : Config) (prefix : String) (r : Reply) (s : Scaler)
      → (settle env c prefix r s).1.health ≡ s.health
  unfolding settle tick
  settle-health c prefix (sample, none) s = refl
  settle-health c prefix (sample, some e) s =
      elim (Bool-cases (is_missing e && not c.treat_missing_as_error)) [
        | inl m ↦ rw m refl
        | inr m ↦ rw m refl
      ]

  task_step-Marks :
      (c : Config) (d : Dimension) (x : Bool) (t : Task) (s : Scaler)
      → Marks t s (task_step env c d x t s).1
  unfolding task_step tick get_cached on_metrics Marks
  task_step-Marks c d x begun s = inl refl
  task_step-Marks c d x (timed start) s = inl refl
  task_step-Marks c d x (replied start r) s = inl refl
  task_step-Marks c d x (stopped took r) s = inl refl
  task_step-Marks c d x (measured r) s = inl (count_error-health d.name r.1 s)
  task_step-Marks c d x (counted r) s = mark_success-Marks r s
  task_step-Marks c d x (booked r) s = inl (settle-health c d.prefix r s)
  task_step-Marks c d x (ended r) s = inl refl

  pub round_step-Marks :
      (c : Config) (of_kv x : Bool) (r : Round) (s : Scaler)
      → Marks (task_of of_kv r) s (round_step env c (of_kv, x) r s).1
  unfolding round_step
  round_step-Marks c true x r s = task_step-Marks c (kv_of c) x r.kv s
  round_step-Marks c false x r s = task_step-Marks c (queue_of c) x r.queue s
