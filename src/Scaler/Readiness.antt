-- ===== src/Scaler/Readiness.antt =====
-- What a decision does to the readiness that /readyz shows.
use inference_platform.Prelude.{
  ℕ, ◌≤◌, ◌<◌, ◌≡◌, refl, sym, ap, ◌↔◌, Bool, true, false, Option, none, some, arith,
}
use inference_platform.Prelude.Int.{ltb_ℤ}
use inference_platform.Config.{Config, parse}
use inference_platform.Go.Errors.{Error}
use inference_platform.Go.Float64.{gtb}
use inference_platform.Go.Time.{Time, Duration, sub}
use inference_platform.Metrics.Cache.Forward.{IsForward}
use inference_platform.Observability.Health.{Health, ready}
use inference_platform.Observability.Instruments.{Metrics}
use inference_platform.Observability.Server.{handle, status, probes}
use inference_platform.Scaler.{
  Env, Scaler, on_metrics, next_round, both_tasks, saturation_for, show_result, on_result,
  on_config, is_active, Result, ok, err, Reading, SaturationResult, ScaledObjectRef, scored,
  wait_for,
}
use inference_platform.Scaler.Marks.{
  Aged, Marked, queue_task-Aged, queue_task-Marked, kv_task-Aged, kv_task-Marked,
}

module _ (env : Env) (forward : IsForward env.source) (n : ℕ) (window : Duration) where
  both_ok :
      (first : Bool) (q k : Result Reading) (v : Reading × Reading)
      → wait_for first q k ≡ ok v
      → (q ≡ ok v.0) × (k ≡ ok v.1)
  both_ok first (ok q) (ok k) v h = (cc, cc)
  both_ok first (ok q) (err e) v h = absurd (cc)
  both_ok first (err e) (ok k) v h = absurd (cc)
  both_ok first (err e) (err e') v h = absurd (cc)

  -- After both goroutines, if both end with a reading.
  both_tasks-Marked :
      (c : Config) (x cancels first : Bool) (s : Scaler) (v : Reading × Reading)
      → Aged env forward n window s
      → (both_tasks env c x cancels first s).0 ≡ ok v
      → Marked env forward n window (both_tasks env c x cancels first s).1
  unfolding both_tasks
  both_tasks-Marked c x cancels true s v h e =
      queue_task-Marked env forward n window c _ _ v.0 (kv_task-Aged env forward n window c x s h)
        (both_ok true _ _ v e).0
  both_tasks-Marked c x cancels false s v h e =
      kv_task-Marked env forward n window c _ _ v.1 (queue_task-Aged env forward n window c x s h)
        (both_ok false _ _ v e).1

  scored_ok :
      (c : Config) (r : Result (Reading × Reading)) (res : SaturationResult)
      → scored c r ≡ ok res
      → (v : Reading × Reading) × (r ≡ ok v)
  scored_ok c (ok v) res h = (v, refl)
  scored_ok c (err e) res h = cc

  saturation_for-Marked :
      (c : Config) (x : Bool) (s : Scaler) (res : SaturationResult)
      → Aged env forward n window s
      → (saturation_for env c x s).0 ≡ ok res
      → Marked env forward n window (saturation_for env c x s).1
  unfolding saturation_for next_round
  saturation_for-Marked c x s res h e =
      let (v, both) = scored_ok c _ res e in
      both_tasks-Marked c x (env.cancels s.rounds) (env.kv_first s.rounds) _ v h both

  on_result-Marked :
      {A : Type 0} (ref : ScaledObjectRef) (f : SaturationResult → A) (r : Result SaturationResult)
      (s : Scaler) (a : A)
      → ((res : SaturationResult) → r ≡ ok res → Marked env forward n window s)
      → (on_result env ref f r s).0 ≡ ok a
      → Marked env forward n window (on_result env ref f r s).1
  unfolding show_result on_metrics
  on_result-Marked ref f (ok res) s a h e = h res refl
  on_result-Marked ref f (err p) s a h e = absurd (cc)

  on_config-Marked :
      {A : Type 0} (ref : ScaledObjectRef) (f : Config → SaturationResult → A) (x : Bool)
      (p : Config × Option Error) (s : Scaler) (a : A)
      → Aged env forward n window s
      → (on_config env ref f x p s).0 ≡ ok a
      → Marked env forward n window (on_config env ref f x p s).1
  on_config-Marked ref f x (c, some p) s a h e = absurd (cc)
  on_config-Marked ref f x (c, none) s a h e =
      on_result-Marked ref (f c) _ _ a (λ res done. saturation_for-Marked c x s res h done) e

-- The last success decides on the readiness.
marked_ready :
    (h : Health) (now at : Time)
    → h.last_ok ≡ at
    → h.has_ok ≡ true
    → ready now (some h) ≡ ltb_ℤ (sub now at) h.window
unfolding ready
marked_ready h now at last marked = rw (last, marked) refl

-- In any context, where no query of the source takes the clock back: when `IsActive` answers, in a
-- scaler with readiness, /readyz then answers 200 exactly while less than the readiness window has
-- passed since some reading of the clock that was made during that call.
pub is_active-readyz :
    (env : Env) (x : Bool) (ref : ScaledObjectRef) (s : Scaler) (h : Health) (active : Bool)
    (m : Metrics) (now : Time)
    → IsForward env.source
    → s.health ≡ some h
    → (is_active env x ref s).0 ≡ ok active
    → let s' = (is_active env x ref s).1 in
      (k : ℕ) × (s.cache.world.ticks ≤ k)
      × (k < s'.cache.world.ticks)
      × ((status (handle (some m) s'.health now "/readyz") ≡ some 200)
          ↔ (ltb_ℤ (sub now (env.clock k)) h.window ≡ true))
unfolding is_active on_metrics
is_active-readyz env x ref s h active m now forward e done =
    let (k, late, soon, h', e', w, last, marked) =
      on_config-Marked env forward s.cache.world.ticks h.window ref
        (λ c res. gtb res.score c.activation) x (parse ref.scaler_metadata) _ active
        (omega arith, h, e, refl) done in
    (
      k,
      late,
      soon,
      rw
          (
            e',
            sym (ap (λ d. ltb_ℤ (sub now (env.clock k)) d) w),
            sym (marked_ready h' now (env.clock k) last marked),
          )
          (probes m (some h') now).0,
    )
