-- ===== src/Stream/Counters.antt =====
-- The stream's failures in the scaler's counters.
use inference_platform.Prelude.{ℕ, ◌+◌, ◌≡◌, ◌≢◌, ◌∙◌, refl, Bool, List, ◌∷◌, Option, some, arith}
use inference_platform.Config.{Config}
use inference_platform.Go.Errors.{Error}
use inference_platform.Observability.Instruments.{
  Metrics, Call, observe_duration, inc_query_error, set_saturation, set_signal_age,
  inc_grpc_request, inc_stream_error, increment_stream_error,
}
use inference_platform.Observability.Instruments.Values.{stream_errors}
use inference_platform.Scaler.{Env, Scaler, on_metrics, ScaledObjectRef, Result, ok, err, is_active}
use inference_platform.Scaler.Keeps.{IsKept, is_active-Keeps}
use inference_platform.Stream.{fired, Loop, react, iteration}

-- The scaler has instruments, and they have counted `n` failures of streams.
abbrev pub HasCounted : ℕ → Scaler → Type 0
HasCounted n s = (m : Metrics) × (s.metrics ≡ some m) × (stream_errors m.calls ≡ n)

other_call :
    (c : Call) (cs : List Call) → c ≢ inc_stream_error → stream_errors (c ∷ cs) ≡ stream_errors cs
unfolding stream_errors
other_call (observe_duration d v) cs ne = refl
other_call (inc_query_error d) cs ne = refl
other_call (set_saturation n o v) cs ne = refl
other_call (set_signal_age n o d v) cs ne = refl
other_call (inc_grpc_request m) cs ne = refl
other_call inc_stream_error cs ne = absurd (ne refl)

HasCounted-IsKept : (env : Env) (n : ℕ) → IsKept env (HasCounted n)
HasCounted-IsKept env n = record {
  moved = λ s w h. h;
  got = λ x addr query ttl s h. h;
  counted = λ c s ne (m, e, q).
      (record m { calls = c ∷ m.calls }, rw e refl, other_call c m.calls ne ∙ q);
  seen = λ t s h. h;
  advanced = λ s h. h;
}

-- What a poll's result adds to the counter.
abbrev pub failures_of : Result Bool → ℕ
failures_of (ok active) = 0
failures_of (err e) = 1

module _ (env : Env) (ref : ScaledObjectRef) (c : Config) (l : Loop) (x : Bool)
    (send : Option Error) where
  react-HasCounted :
      (n : ℕ) (r : Result Bool) (s : Scaler)
      → HasCounted n s
      → HasCounted (n + failures_of r) (react ref c send l r s).1
  unfolding react on_metrics increment_stream_error stream_errors
  react-HasCounted n (ok active) s (m, e, q) = (m, e, omega (arith, q))
  react-HasCounted n (err e) s (m, h, q) =
      (record m { calls = inc_stream_error ∷ m.calls }, rw h refl, omega (arith, q))

  -- When the timer of a stream fires, in a scaler with instruments, the counter of stream failures
  -- goes up by one if the poll fails, and by nothing if it succeeds, whatever else the poll counts.
  pub iteration-HasCounted :
      (n : ℕ) (s : Scaler)
      → HasCounted n s
      → HasCounted
          (n + failures_of (is_active env x ref s).0)
          (iteration env ref c l (fired x send) s).1
  unfolding iteration
  iteration-HasCounted n s h =
      react-HasCounted n _ _ (is_active-Keeps (HasCounted-IsKept env n) x ref s h)
